-- ===== src/Encapsulation/Harness/Shape.antt =====
-- What the blocks of a harness of SymbolicEncapsulation.cpp hold: the contract between the stages that
-- write them and what the harness does when it runs.
use ephippion.Prelude.{ℕ, ◌+◌, ◌≤◌, ◌≡◌, List, [], ◌∷◌, ◌++◌}
use ephippion.Llvm.{Block, const, Inst, br, ret, Trace}
use ephippion.Ir.{Placed, body_of}
use ephippion.Ir.Fills.{IsStraight}
use ephippion.LoopBuilder.{direction_of}
use ephippion.LoopBuilder.Shape.{IsLoop}
use ephippion.LoopBuilder.Built.{parts_at}
use ephippion.Encapsulation.Assertions.{Check}
use ephippion.Encapsulation.Assertions.Chain.{target_of}
use ephippion.Encapsulation.Harness.{pred32}
use ephippion.Encapsulation.Harness.Created.{blocks_at}

-- The block works, and then ends in the instruction.
pub record EndsWith (t : Trace) (b : Block) (i : Inst) : Type 0 where
  pub work : List Placed
  pub is_work : IsStraight work
  pub position : ℕ
  pub body : body_of t b ≡ work ++ (position, i) ∷ []

-- The block holds nothing but the instruction.
abbrev pub HoldsOnly : Trace → Block → Inst → Type 0
HoldsOnly t b i = (k : ℕ) × (body_of t b ≡ (k, i) ∷ [])

-- The blocks from `n` on, around loops that were built from `m₁` and `m₂` on.
pub record HasShape (t : Trace) (n m₁ m₂ iterations : ℕ) (checks : List Check) : Type 0 where
  pub room : n + 12 ≤ m₁
  pub apart : m₁ + 13 ≤ m₂
  pub setup : EndsWith t (blocks_at n).setup (br (blocks_at n).se_setup)
  pub se_setup : EndsWith t (blocks_at n).se_setup (br (blocks_at n).call1_setup)
  pub call1_setup : HoldsOnly t (blocks_at n).call1_setup (br m₁)
  pub loop1 :
      IsLoop t
        (parts_at m₁)
        (direction_of 0 iterations)
        (blocks_at n).call1_body
        (blocks_at n).call1_setup
        (blocks_at n).call1_teardown
        0
        iterations
        1
  pub call1_teardown : HoldsOnly t (blocks_at n).call1_teardown (br (blocks_at n).call2_setup)
  pub call2_setup : HoldsOnly t (blocks_at n).call2_setup (br m₂)
  pub loop2 :
      IsLoop t
        (parts_at m₂)
        (direction_of (pred32 iterations) 0)
        (blocks_at n).call2_body
        (blocks_at n).call2_setup
        (blocks_at n).call2_teardown
        (pred32 iterations)
        0
        1
  pub call2_teardown : HoldsOnly t (blocks_at n).call2_teardown (br (blocks_at n).se_start_teardown)
  pub se_start_teardown :
      HoldsOnly t
        (blocks_at n).se_start_teardown
        (br (target_of (blocks_at n).se_end_teardown checks))
  pub se_end_teardown : HoldsOnly t (blocks_at n).se_end_teardown (br (blocks_at n).teardown)
  pub teardown : EndsWith t (blocks_at n).teardown (br (blocks_at n).exit)
  pub exit : HoldsOnly t (blocks_at n).exit (ret (const 32 0))
