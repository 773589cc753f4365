-- ===== src/Encapsulation/Loops.antt =====
-- What the two loops that `encapsulateImpl` of SymbolicEncapsulation.cpp asks for count through.
use ephippion.Prelude.{
  ℕ, zero, suc, ◌+◌, ◌^◌, ◌<◌, ◌≤◌, ◌≡◌, refl, sym, ◌∙◌, ap, List, [], ◌∷◌, ◌++◌, reverse, arith,
}
use mathlib.Core.List.{reverse_aux}
use ephippion.LoopBuilder.Counts.{counted, count_up, count_down, counted-up, counted-down}
use ephippion.Encapsulation.Harness.{pred32}

reverse_aux-snoc :
    {A : Type 0} (xs : List A) (y : A) (acc : List A)
    → reverse_aux (xs ++ y ∷ []) acc ≡ y ∷ reverse_aux xs acc
reverse_aux-snoc [] y acc = refl
reverse_aux-snoc (x ∷ xs) y acc = reverse_aux-snoc xs y (x ∷ acc)

count_up-snoc : (n x : ℕ) → count_up (suc n) x ≡ count_up n x ++ (x + n) ∷ []
unfolding count_up
count_up-snoc zero x = ap (λ k. k ∷ []) (omega arith)
count_up-snoc (suc n) x =
    let same : x + 1 + n ≡ x + suc n = omega arith in
    ap (λ ks. x ∷ ks) (count_up-snoc n (x + 1) ∙ ap (λ k. count_up n (x + 1) ++ k ∷ []) same)

reverse-count_up : (n : ℕ) → reverse (count_up n 0) ≡ count_down n
unfolding count_down count_up
reverse-count_up zero = refl
reverse-count_up (suc n) =
    let same : 0 + n ≡ n = omega arith in
    ap (λ ks. reverse ks) (count_up-snoc n 0)
    ∙ reverse_aux-snoc (count_up n 0) (0 + n) []
    ∙ ap (λ k. k ∷ reverse (count_up n 0)) same
    ∙ ap (λ ks. n ∷ ks) (reverse-count_up n)

pred32-suc : (n : ℕ) → suc n < 2 ^ 32 → pred32 (suc n) ≡ n
pred32-suc n h = omega arith

-- The values of the second loop are those of the first, last one first.
pub counted-pred32 : (n : ℕ) → 2 ≤ n → n < 2 ^ 32 → counted (pred32 n) 0 1 ≡ reverse (counted 0 n 1)
counted-pred32 zero two h = absurd (omega arith)
counted-pred32 (suc n) two h =
    ap (λ k. counted k 0 1) (pred32-suc n h)
    ∙ counted-down n (omega arith)
    ∙ sym (ap (λ ks. reverse ks) (counted-up (suc n)) ∙ reverse-count_up (suc n))
