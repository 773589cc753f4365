-- ===== src/Encapsulation/Assertions/Fresh.antt =====
-- Checks of `createSymbolicAssertions` whose blocks are new.
use ephippion.Prelude.{◌<◌, ◌≤◌, ◌≢◌, sym, List, [], ◌∷◌, length, All, All-map, arith}
use ephippion.Llvm.{Block, Llvm, Trace}
use ephippion.Llvm.Scope.{InScope}
use ephippion.Ir.Frame.{Frame, Frame-refl, Frame-trans}
use ephippion.Encapsulation.Assertions.{Check}
use ephippion.Encapsulation.Assertions.Chain.{NotCond, NotFail, AreApart}
use ephippion.Encapsulation.Assertions.Walk.{AreOpen}

-- What creating checks leaves, from `t` to `t'`: their blocks are new, all different and open, and the
-- blocks that were there are left alone.
pub record IsCreated (llvm : Llvm) (t t' : Trace) (cs : List Check) : Type 0 where
  pub frame : Frame llvm (λ b. Unit) t t'
  pub open frame use *
  pub apart : AreApart cs
  pub from : All (λ c. (length t ≤ c.cond_block) × (length t ≤ c.fail_block)) cs
  pub below : All (λ c. (c.cond_block < length t') × (c.fail_block < length t')) cs
  pub open_blocks : AreOpen t' cs

pub IsCreated-none : (llvm : Llvm) (t : Trace) → InScope t → IsCreated llvm t t []
IsCreated-none llvm t s = record {
  frame = Frame-refl llvm t s;
  apart = tt;
  from = tt;
  below = tt;
  open_blocks = tt;
}

pub above-NotCond :
    (b n : Block) (cs : List Check)
    → b < n
    → All (λ c. (n ≤ c.cond_block) × (n ≤ c.fail_block)) cs
    → NotCond b cs × NotFail b cs
above-NotCond b n cs h from = (
  All-map _ _ cs (λ c f e. omega (arith, f.0)) from,
  All-map _ _ cs (λ c f e. omega (arith, f.1)) from,
)

pub IsCreated-cons :
    (llvm : Llvm) (t t₁ t' : Trace) (c : Check) (cs : List Check)
    → c.fail_block ≢ c.cond_block
    → IsCreated llvm t t₁ (c ∷ [])
    → IsCreated llvm t₁ t' cs
    → IsCreated llvm t t' (c ∷ cs)
IsCreated-cons llvm t t₁ t' c cs ne first others =
    let conds = above-NotCond c.cond_block (length t₁) cs first.below.0.0 others.from in
    let fails = above-NotCond c.fail_block (length t₁) cs first.below.0.1 others.from in
    record {
      frame = Frame-trans llvm first.frame others.frame;
      apart = ((conds.0, fails.1), ((ne, conds.1), ((λ e. ne (sym e)), fails.0)), others.apart);
      from = (
        first.from.0,
        All-map _ _ cs (λ d f. (omega (arith, f.0, first.longer), omega (arith, f.1, first.longer)))
            others.from,
      );
      below = (
        (
          omega (arith, first.below.0.0, others.longer),
          omega (arith, first.below.0.1, others.longer),
        ),
        others.below,
      );
      open_blocks = (
        (
          rw (others.kept c.cond_block first.below.0.0 tt) first.open_blocks.0.0,
          rw (others.kept c.fail_block first.below.0.1 tt) first.open_blocks.0.1,
        ),
        others.open_blocks,
      );
    }
