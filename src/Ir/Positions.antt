-- ===== src/Ir/Positions.antt =====
-- Where an instruction stands: a call at a position is in one block only.
use ephippion.Prelude.{
  ℕ, ◌∙◌, ◌<◌, ◌≤◌, ◌≡◌, ◌≢◌, ◌⊎◌, refl, sym, true, false, Bool, some, List, [], ◌∷◌, ◌++◌, length,
  All, All-append, arith, ◌==◌, ==_ne, ==_refl, if◌then◌else◌, Bool-cases, inl, inr, ==_iff,
}
use ephippion.Llvm.{
  Block, Value, Inst, cond_br, Call, insert, end_of, before, set_successor, Trace, call_at,
}
use ephippion.Ir.Blocks.{Placed, body_of, insert_before, redirect_in}
use ephippion.Ir.Laws.{IsBelow, body_of-IsBelow}

abbrev pub Lacks : ℕ → List Placed → Type 0
Lacks k = All (λ p. p.0 ≢ k)

pub Lacks-above : (n k : ℕ) (is : List Placed) → n ≤ k → IsBelow n is → Lacks k is
Lacks-above n k [] h b = tt
Lacks-above n k (p ∷ is) h b = (omega arith, Lacks-above n k is h b.1)

insert_before-Lacks :
    (m k : ℕ) (p : Placed) (is : List Placed)
    → p.0 ≢ k
    → Lacks k is
    → Lacks k (insert_before m p is)
unfolding insert_before
insert_before-Lacks m k p [] h l = tt
insert_before-Lacks m k p ((n, i) ∷ is) h l = ground (arith, insert_before-Lacks m k p is h l.1)

redirect_in-Lacks :
    (m j k : ℕ) (d : Block) (is : List Placed) → Lacks k is → Lacks k (redirect_in m j d is)
unfolding redirect_in
redirect_in-Lacks m j k d [] l = tt
redirect_in-Lacks m j k d ((n, i) ∷ is) l = (l.0, redirect_in-Lacks m j k d is l.1)

-- A redirection of an instruction that is elsewhere changes nothing.
pub redirect_in-Lacks_id :
    (k j : ℕ) (d : Block) (is : List Placed) → Lacks k is → redirect_in k j d is ≡ is
unfolding redirect_in
redirect_in-Lacks_id k j d [] l = refl
redirect_in-Lacks_id k j d ((n, i) ∷ is) l =
    rw (==_ne n k l.0) (rw (redirect_in-Lacks_id k j d is l.1))

-- The last instruction of a block, redirected.
pub redirect_in-last :
    (k : ℕ) (d : Block) (is : List Placed) (v : Value) (a b : Block)
    → Lacks k is
    → redirect_in k 0 d (is ++ (k, cond_br v a b) ∷ []) ≡ is ++ (k, cond_br v d b) ∷ []
unfolding redirect_in
redirect_in-last k d [] v a b l = rw (==_refl k)
redirect_in-last k d ((n, i) ∷ is) v a b l =
    rw (==_ne n k l.0) (rw (redirect_in-last k d is v a b l.1))

-- An insertion in front of an instruction that is elsewhere, or last in the block.
pub insert_before-Lacks_id :
    (k : ℕ) (p : Placed) (is : List Placed) → Lacks k is → insert_before k p is ≡ is
unfolding insert_before
insert_before-Lacks_id k p [] l = refl
insert_before-Lacks_id k p ((n, i) ∷ is) l =
    rw (==_ne n k l.0) (rw (insert_before-Lacks_id k p is l.1))

pub insert_before-last :
    (k : ℕ) (p : Placed) (is : List Placed) (i : Inst)
    → Lacks k is
    → insert_before k p (is ++ (k, i) ∷ []) ≡ is ++ p ∷ (k, i) ∷ []
unfolding insert_before
insert_before-last k p [] i l = rw (==_refl k)
insert_before-last k p ((n, j) ∷ is) i l = rw (==_ne n k l.0) (rw (insert_before-last k p is i l.1))

pub call_at-old : (c : Call) (t : Trace) (k : ℕ) → k < length t → call_at (c ∷ t) k ≡ call_at t k
unfolding call_at
call_at-old c t k h = rw (==_ne k (length t) (omega arith))

pub call_at-new : (c : Call) (t : Trace) → call_at (c ∷ t) (length t) ≡ some c
unfolding call_at
call_at-new c t = rw (==_refl (length t))

call_at-cases :
    (x y : Call) (t : Trace) (k : ℕ)
    → call_at (x ∷ t) k ≡ some y
    → ((k ≡ length t) × (x ≡ y)) ⊎ ((k ≢ length t) × (call_at t k ≡ some y))
unfolding call_at
call_at-cases x y t k h = elim (Bool-cases (k == length t)) [
  | inl e ↦ inl ((==_iff k (length t)).0 e, cc (rw e at h))
  | inr e ↦ inr ((λ p. cc (e, (==_iff k (length t)).1 p)), rw e at h)
]

-- A call that stands at the end of block `c` is in no other block.
pub body_of-Lacks :
    (t : Trace) (k : ℕ) (c b : Block) (i : Inst)
    → call_at t k ≡ some (insert (end_of c) i)
    → c ≢ b
    → Lacks k (body_of t b)
unfolding body_of
body_of-Lacks [] k c b i h ne = tt
body_of-Lacks (insert (end_of d) j ∷ t) k c b i h ne = elim (call_at-cases _ _ t k h) [
  | inl (e, same) ↦
      let other : (d == b) ≡ false = ==_ne d b (λ p. ne (cc (same, p))) in
      rw other (Lacks-above (length t) k (body_of t b) (omega arith) (body_of-IsBelow t b))
  | inr (e, old) ↦ appended (d == b) (body_of-Lacks t k c b i old ne) (λ p. e (sym p))
]
  where
    appended :
        (x : Bool)
        → Lacks k (body_of t b)
        → length t ≢ k
        → Lacks k (if x then body_of t b ++ (length t, j) ∷ [] else body_of t b)
    appended true l p = All-append _ (body_of t b) _ l (p, tt)
    appended false l p = l
body_of-Lacks (insert (before m) j ∷ t) k c b i h ne = elim (call_at-cases _ _ t k h) [
  | inl (e, same) ↦ cc
  | inr (e, old) ↦
      insert_before-Lacks m k _ (body_of t b) (λ p. e (sym p)) (body_of-Lacks t k c b i old ne)
]
body_of-Lacks (set_successor m j d ∷ t) k c b i h ne = elim (call_at-cases _ _ t k h) [
  | inl (e, same) ↦ cc
  | inr (e, old) ↦ redirect_in-Lacks m j k d (body_of t b) (body_of-Lacks t k c b i old ne)
]
body_of-Lacks (x ∷ t) k c b i h ne = elim (call_at-cases _ _ t k h) [
  | inl (e, same) ↦ cc
  | inr (e, old) ↦ body_of-Lacks t k c b i old ne
]

-- Every call of `t` stands at its position in `t'`.
abbrev pub Extends : Trace → Trace → Type 0
Extends t t' = (k : ℕ) (c : Call) → call_at t k ≡ some c → call_at t' k ≡ some c

call_at-below : (t : Trace) (k : ℕ) (c : Call) → call_at t k ≡ some c → k < length t
unfolding call_at
call_at-below [] k c h = cc
call_at-below (x ∷ t) k c h = elim (Bool-cases (k == length t)) [
  | inl here ↦ omega (arith, (==_iff k (length t)).0 here)
  | inr earlier ↦ omega (arith, call_at-below t k c (rw earlier at h))
]

pub Extends-cons : (t t' : Trace) (x : Call) → Extends t t' → Extends t (x ∷ t')
Extends-cons t t' x e k c h =
    let old = e k c h in call_at-old x t' k (call_at-below t' k c old) ∙ old

pub Extends-append : (cs : List Call) (t : Trace) → Extends t (cs ++ t)
Extends-append [] t k c h = h
Extends-append (x ∷ cs) t k c h = Extends-cons t (cs ++ t) x (Extends-append cs t) k c h
