-- ===== src/Ir/Visits.antt =====
-- Control that passes from block to block, and the values that a variable has at each entry of a
-- chosen block.
use ephippion.Prelude.{
  ℕ, ◌≡◌, ◌≢◌, refl, false, ◌==◌, if◌then◌else◌, List, [], ◌∷◌, ◌++◌, All, arith,
}
use ephippion.Llvm.{Block, Value, br, cond_br, ret, unreachable, is_terminator, Trace}
use ephippion.Ir.Blocks.{Placed, body_of}
use ephippion.Ir.Machine.{Values, Left, left, jump, stuck, value_of, run_block}

module _ (oracle : ℕ → Values → ℕ) (t : Trace) where
  -- What reaching a block does.
  abbrev pub enter : Block → Block → Values → Left
  enter prev cur vs = run_block oracle t prev (body_of t cur) vs

  -- From `cur`, entered from `prev`, control reaches `post`; on the way it enters `body` once for
  -- each number of the list, with that number as the value of `ind`.
  pub data Visits (ind : ℕ) (body post : Block) : Block → Block → Values → List ℕ → Type 0 where
    arrive : {prev cur : Block} {vs : Values} → cur ≡ post → Visits ind body post prev cur vs []
    work :
        {prev cur : Block} {vs : Values} {is : List ℕ} (next : Block) (vs' : Values) (i : ℕ)
        → cur ≡ body
        → cur ≢ post
        → vs ind ≡ i
        → enter prev cur vs ≡ left (jump next) vs'
        → Visits ind body post cur next vs' is
        → Visits ind body post prev cur vs (i ∷ is)
    pass :
        {prev cur : Block} {vs : Values} {is : List ℕ} (next : Block) (vs' : Values)
        → cur ≢ body
        → cur ≢ post
        → enter prev cur vs ≡ left (jump next) vs'
        → Visits ind body post cur next vs' is
        → Visits ind body post prev cur vs is

-- Instructions that do not leave the block come to the branch behind them, and one that none of
-- them is keeps its value.
pub run_block-straight :
    (oracle : ℕ → Values → ℕ) (t : Trace) (prev : Block) (is : List Placed) (k ind : ℕ) (b : Block)
    (vs : Values)
    → All (λ p. (is_terminator p.1 ≡ false) × (p.0 ≢ ind)) is
    → (vs' : Values) × (run_block oracle t prev (is ++ (k, br b) ∷ []) vs ≡ left (jump b) vs')
      × (vs' ind ≡ vs ind)
unfolding run_block
run_block-straight oracle t prev [] k ind b vs h = (vs, refl, refl)
run_block-straight oracle t prev ((n, br c) ∷ is) k ind b vs h = absurd (cc (h.0.0))
run_block-straight oracle t prev ((n, cond_br v c d) ∷ is) k ind b vs h = absurd (cc (h.0.0))
run_block-straight oracle t prev ((n, ret v) ∷ is) k ind b vs h = absurd (cc (h.0.0))
run_block-straight oracle t prev ((n, unreachable) ∷ is) k ind b vs h = absurd (cc (h.0.0))
run_block-straight oracle t prev ((n, i) ∷ is) k ind b vs h =
    let (vs', e, same) = run_block-straight oracle t prev is k ind b _ h.1 in
    (vs', e, ground (arith, same, h.0.1))

-- Behind instructions that do not leave the block, the rest of it runs.
pub run_block-append :
    (oracle : ℕ → Values → ℕ) (t : Trace) (prev : Block) (is rest : List Placed) (vs : Values)
    → All (λ p. is_terminator p.1 ≡ false) is
    → (vs' : Values) × (run_block oracle t prev (is ++ rest) vs ≡ run_block oracle t prev rest vs')
unfolding run_block
run_block-append oracle t prev [] rest vs h = (vs, refl)
run_block-append oracle t prev ((n, br c) ∷ is) rest vs h = absurd (cc (h.0))
run_block-append oracle t prev ((n, cond_br v c d) ∷ is) rest vs h = absurd (cc (h.0))
run_block-append oracle t prev ((n, ret v) ∷ is) rest vs h = absurd (cc (h.0))
run_block-append oracle t prev ((n, unreachable) ∷ is) rest vs h = absurd (cc (h.0))
run_block-append oracle t prev ((n, i) ∷ is) rest vs h =
    run_block-append oracle t prev is rest _ h.1

-- A block that ends in a conditional branch, and one that ends unreachable.
pub run_block-cond_br :
    (oracle : ℕ → Values → ℕ) (t : Trace) (prev : Block) (is : List Placed) (k : ℕ) (v : Value)
    (a b : Block) (vs : Values)
    → All (λ p. is_terminator p.1 ≡ false) is
    → (vs' : Values) × (run_block oracle t prev (is ++ (k, cond_br v a b) ∷ []) vs
        ≡ left (jump (if value_of vs' v == 0 then b else a)) vs')
unfolding run_block
run_block-cond_br oracle t prev is k v a b vs h = run_block-append oracle t prev is _ vs h

pub run_block-unreachable :
    (oracle : ℕ → Values → ℕ) (t : Trace) (prev : Block) (is : List Placed) (k : ℕ) (vs : Values)
    → All (λ p. is_terminator p.1 ≡ false) is
    → (vs' : Values) × (run_block oracle t prev (is ++ (k, unreachable) ∷ []) vs ≡ left stuck vs')
unfolding run_block
run_block-unreachable oracle t prev is k vs h = run_block-append oracle t prev is _ vs h
