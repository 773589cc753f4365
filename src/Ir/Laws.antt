-- ===== src/Ir/Laws.antt =====
-- Blocks and phis that no call has named yet are empty.
use ephippion.Prelude.{
  ℕ, suc, ◌<◌, ◌≤◌, ◌≡◌, refl, [], ◌∷◌, true, false, ◌++◌, length, All, All-append, arith, ◌==◌,
  if◌then◌else◌, List,
}
use ephippion.Llvm.{
  Block, insert, end_of, before, get_or_insert_function, create_block, global_string_ptr,
  zext_or_bit_cast, add_incoming, set_successor, Trace,
}
use ephippion.Llvm.Scope.{InScope}
use ephippion.Ir.Blocks.{Placed, body_of, insert_before, redirect_in, incoming}

pub body_of-fresh : (t : Trace) (b : Block) → InScope t → length t ≤ b → body_of t b ≡ []
unfolding body_of insert_before redirect_in
body_of-fresh [] b s h = refl
body_of-fresh (get_or_insert_function x f ∷ t) b s h = body_of-fresh t b s.1 (omega arith)
body_of-fresh (create_block x f ∷ t) b s h = body_of-fresh t b s.1 (omega arith)
body_of-fresh (insert (end_of c) i ∷ t) b s h = ground (arith, body_of-fresh t b s.1 (omega arith))
body_of-fresh (insert (before n) i ∷ t) b s h = ground (arith, body_of-fresh t b s.1 (omega arith))
body_of-fresh (global_string_ptr x ∷ t) b s h = body_of-fresh t b s.1 (omega arith)
body_of-fresh (zext_or_bit_cast v y ∷ t) b s h = body_of-fresh t b s.1 (omega arith)
body_of-fresh (add_incoming m v c ∷ t) b s h = body_of-fresh t b s.1 (omega arith)
body_of-fresh (set_successor m k d ∷ t) b s h = ground (arith, body_of-fresh t b s.1 (omega arith))

pub incoming-fresh : (t : Trace) (n : ℕ) → InScope t → length t ≤ n → incoming t n ≡ []
unfolding incoming
incoming-fresh [] n s h = refl
incoming-fresh (get_or_insert_function x f ∷ t) n s h = incoming-fresh t n s.1 (omega arith)
incoming-fresh (create_block x f ∷ t) n s h = incoming-fresh t n s.1 (omega arith)
incoming-fresh (insert p i ∷ t) n s h = incoming-fresh t n s.1 (omega arith)
incoming-fresh (global_string_ptr x ∷ t) n s h = incoming-fresh t n s.1 (omega arith)
incoming-fresh (zext_or_bit_cast v y ∷ t) n s h = incoming-fresh t n s.1 (omega arith)
incoming-fresh (add_incoming m v c ∷ t) n s h = ground (arith, incoming-fresh t n s.1 (omega arith))
incoming-fresh (set_successor m k d ∷ t) n s h = incoming-fresh t n s.1 (omega arith)

-- Every position in a block is that of a call made.
abbrev pub IsBelow : ℕ → List Placed → Type 0
IsBelow n = All (λ p. p.0 < n)

IsBelow-mono : {m n : ℕ} (is : List Placed) → m ≤ n → IsBelow m is → IsBelow n is
IsBelow-mono [] h b = tt
IsBelow-mono ((k, i) ∷ is) h b = (omega arith, IsBelow-mono is h b.1)

insert_before-IsBelow :
    (k n : ℕ) (p : Placed) (is : List Placed)
    → p.0 < n
    → IsBelow n is
    → IsBelow n (insert_before k p is)
unfolding insert_before
insert_before-IsBelow k n p [] h b = tt
insert_before-IsBelow k n p ((m, i) ∷ is) h b = ground (arith, insert_before-IsBelow k n p is h b.1)

redirect_in-IsBelow :
    (m k n : ℕ) (d : Block) (is : List Placed) → IsBelow n is → IsBelow n (redirect_in m k d is)
unfolding redirect_in
redirect_in-IsBelow m k n d [] b = tt
redirect_in-IsBelow m k n d ((j, i) ∷ is) b = (b.0, redirect_in-IsBelow m k n d is b.1)

pub body_of-IsBelow : (t : Trace) (b : Block) → IsBelow (length t) (body_of t b)
unfolding body_of
body_of-IsBelow [] b = tt
body_of-IsBelow (insert (end_of c) i ∷ t) b =
    elim (c == b)
      as (λ x.
        IsBelow (suc (length t)) (if x then body_of t b ++ (length t, i) ∷ [] else body_of t b)) [
          | true ↦
              All-append _ (body_of t b) _
                (IsBelow-mono (body_of t b) (omega arith) (body_of-IsBelow t b)) (omega arith, tt)
          | false ↦ IsBelow-mono (body_of t b) (omega arith) (body_of-IsBelow t b)
        ]
body_of-IsBelow (insert (before n) i ∷ t) b =
    insert_before-IsBelow n _ _ (body_of t b) (omega arith)
      (IsBelow-mono (body_of t b) (omega arith) (body_of-IsBelow t b))
body_of-IsBelow (set_successor m k d ∷ t) b =
    redirect_in-IsBelow m k _ d (body_of t b)
      (IsBelow-mono (body_of t b) (omega arith) (body_of-IsBelow t b))
body_of-IsBelow (_ ∷ t) b = IsBelow-mono (body_of t b) (omega arith) (body_of-IsBelow t b)
