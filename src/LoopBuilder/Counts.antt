-- ===== src/LoopBuilder/Counts.antt =====
-- The rounds of a loop of LoopIRBuilder.cpp as those of a `for` statement over the integers.
use ephippion.Prelude.{
  ℕ, zero, suc, ◌+◌, ◌-◌, ◌^◌, ◌<◌, ◌≤◌, ◌≡◌, refl, ◌∙◌, subst, false, List, [], ◌∷◌, arith, ltb,
  leb, ltb→lt, leb→le, not_lt→ltb, lt→ltb, le→leb, if◌then◌else◌, Bool-cases, inl, inr,
}
use ephippion.Ir.{compare_words}
use ephippion.LoopBuilder.{ld_increasing, ld_decreasing, compare_with, direction_of}
use ephippion.LoopBuilder.Runs.{Rounds, stop, again, step_word}

-- for (x = start; x < end; x += step)
unfoldable pub ascend : ℕ → ℕ → ℕ → ℕ → List ℕ
ascend zero x end step = []
ascend (suc f) x end step =
    let rest = ascend f (x + step) end step in if ltb x end then x ∷ rest else []

-- for (x = start; x >= end; x -= step), where `x` may end below zero
unfoldable pub descend : ℕ → ℕ → ℕ → ℕ → List ℕ
descend zero x end step = []
descend (suc f) x end step =
    let rest = descend f (x - step) end step in
    if leb end x then x ∷ (if leb step x then rest else []) else []

abbrev pub half_word : ℕ
half_word = 2 ^ 63

slt-ltb :
    (x end : ℕ)
    → x < half_word
    → end < half_word
    → compare_words (compare_with ld_increasing) x end ≡ ltb x end
unfolding compare_words compare_with
slt-ltb x end h k = ground arith

sge-leb :
    (x end : ℕ)
    → x < half_word
    → end < half_word
    → compare_words (compare_with ld_decreasing) x end ≡ leb end x
unfolding compare_words compare_with
sge-leb x end h k = ground arith

-- A step below zero wraps round to a negative word, which fails the test.
sge-below_zero :
    (x end step : ℕ)
    → x < step
    → step < half_word
    → end < half_word
    → compare_words (compare_with ld_decreasing) (step_word ld_decreasing x step) end ≡ false
unfolding compare_words compare_with
sge-below_zero x end step h k j = ground arith

Rounds-ascend :
    (f x end step : ℕ)
    → 0 < step
    → step < 2 ^ 32
    → end < 2 ^ 32
    → x < 2 ^ 33
    → end < x + f
    → Rounds ld_increasing end step x (ascend f x end step)
unfolding ascend
Rounds-ascend zero x end step p hs he hx hf =
    stop (slt-ltb x end (omega arith) (omega arith) ∙ not_lt→ltb x end (omega arith))
Rounds-ascend (suc f) x end step p hs he hx hf = elim (Bool-cases (ltb x end)) [
  | inl more ↦
      let lt = ltb→lt x end more in
      rw more (
        again (slt-ltb x end (omega arith) (omega arith) ∙ more) (
          subst (λ y. Rounds ld_increasing end step y (ascend f (x + step) end step)) (omega arith)
            (Rounds-ascend f (x + step) end step p hs he (omega arith) (omega arith))))
  | inr done ↦ rw done (stop (slt-ltb x end (omega arith) (omega arith) ∙ done))
]

stepped_down :
    (x end step : ℕ) (is : List ℕ)
    → step < half_word
    → end < half_word
    → x < half_word
    → (step ≤ x → Rounds ld_decreasing end step (x - step) is)
    → Rounds ld_decreasing end step (step_word ld_decreasing x step) (if leb step x then is else [])
stepped_down x end step is hs he hx rest = elim (Bool-cases (leb step x)) [
  | inl fits ↦
      let le = leb→le step x fits in
      rw fits (subst (λ y. Rounds ld_decreasing end step y is) (omega arith) (rest le))
  | inr below ↦ rw below (stop (sge-below_zero x end step (ground arith) hs he))
]

Rounds-descend :
    (f x end step : ℕ)
    → 0 < step
    → step < 2 ^ 32
    → end < 2 ^ 32
    → x < 2 ^ 32
    → x < f
    → Rounds ld_decreasing end step x (descend f x end step)
unfolding descend
Rounds-descend zero x end step p hs he hx hf = absurd (omega arith)
Rounds-descend (suc f) x end step p hs he hx hf = elim (Bool-cases (leb end x)) [
  | inl more ↦ rw more (
      again (sge-leb x end (omega arith) (omega arith) ∙ more) (
        stepped_down x end step _ (omega arith) (omega arith) (omega arith)
          λ le. Rounds-descend f (x - step) end step p hs he (omega arith) (omega arith)))
  | inr done ↦ rw done (stop (sge-leb x end (omega arith) (omega arith) ∙ done))
]

-- The values that a loop from `start` to `end` hands its body.
unfoldable pub counted : ℕ → ℕ → ℕ → List ℕ
unfolding ascend descend
counted start end step =
    if ltb end start then descend (suc start) start end step else ascend (suc end) start end step

pub Rounds-counted :
    (start end step : ℕ)
    → 0 < step
    → step < 2 ^ 32
    → end < 2 ^ 32
    → start < 2 ^ 32
    → Rounds (direction_of start end) end step start (counted start end step)
unfolding counted direction_of
Rounds-counted start end step p hs he hx = elim (Bool-cases (ltb end start)) [
  | inl down ↦ rw down (Rounds-descend (suc start) start end step p hs he hx (omega arith))
  | inr up ↦ rw up (Rounds-ascend (suc end) start end step p hs he (omega arith) (omega arith))
]

-- With the step 1: the numbers from `x` on, and from `x` down.
unfoldable pub count_up : ℕ → ℕ → List ℕ
count_up zero x = []
count_up (suc n) x = x ∷ count_up n (x + 1)

unfoldable pub count_down : ℕ → List ℕ
count_down zero = []
count_down (suc n) = n ∷ count_down n

ascend-count_up : (n f x : ℕ) → n ≤ f → ascend f x (x + n) 1 ≡ count_up n x
unfolding ascend count_up
ascend-count_up zero zero x h = refl
ascend-count_up zero (suc f) x h = rw (not_lt→ltb x (x + 0) (omega arith))
ascend-count_up (suc n) zero x h = absurd (omega arith)
ascend-count_up (suc n) (suc f) x h =
    let shift : x + suc n ≡ x + 1 + n = omega arith in
    rw (lt→ltb x (x + suc n) (omega arith))
      (rw shift (rw (ascend-count_up n f (x + 1) (omega arith))))

descend-zero : (n f : ℕ) → n < f → descend f n 0 1 ≡ count_down (suc n)
unfolding descend count_down
descend-zero n zero h = absurd (omega arith)
descend-zero zero (suc f) h = refl
descend-zero (suc n) (suc f) h =
    let less : suc n - 1 ≡ n = omega arith in
    rw (le→leb 0 (suc n) (omega arith), le→leb 1 (suc n) (omega arith))
      (rw less (rw (descend-zero n f (omega arith))))

-- The two loops of a harness: up from zero, and down to zero.
pub counted-up : (n : ℕ) → counted 0 n 1 ≡ count_up n 0
unfolding counted
counted-up n =
    let shift : 0 + n ≡ n = omega arith in
    rw (not_lt→ltb n 0 (omega arith)) (rw shift at (ascend-count_up n (suc n) 0 (omega arith)))

pub counted-down : (n : ℕ) → 0 < n → counted n 0 1 ≡ count_down (suc n)
unfolding counted
counted-down n h = rw (lt→ltb 0 n h) (descend-zero n (suc n) (omega arith))
