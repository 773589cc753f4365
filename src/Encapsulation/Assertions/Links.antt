-- ===== src/Encapsulation/Assertions/Links.antt =====
-- A condition block of `createSymbolicAssertions` that ends in its branch, and the calls that leave
-- or redirect it.
use ephippion.Prelude.{ℕ, ◌<◌, ◌≡◌, ◌≢◌, refl, ◌∙◌, false, some, [], ◌∷◌, ◌++◌, length, arith}
use ephippion.Llvm.{
  Block, cond_br, Call, insert, end_of, set_successor, terminates, call_at, Llvm, IsLlvm, Trace, ok,
}
use ephippion.Llvm.Scope.{InScope}
use ephippion.Ir.{body_of, incoming}
use ephippion.Ir.Frame.{Frame}
use ephippion.Ir.Positions.{
  Lacks, Extends-cons, redirect_in-last, redirect_in-Lacks_id, call_at-old, body_of-Lacks,
}
use ephippion.Encapsulation.Assertions.{Check, set_true_successor}

module _ {llvm : Llvm} (laws : IsLlvm llvm) (t₀ : Trace) (end : Block) where
  -- In `t` the block of `c` holds what it held in `t₀`, and a branch to `target` or to the failure.
  pub record Linked (t : Trace) (c : Check) (target : Block) : Type 0 where
    pub branch : ℕ
    pub body :
        body_of t c.cond_block
        ≡ body_of t₀ c.cond_block ++ (branch, cond_br c.condition target c.fail_block) ∷ []
    pub is_new : Lacks branch (body_of t₀ c.cond_block)
    pub terminator : llvm.terminator t c.cond_block ≡ some branch
    pub call :
        call_at t branch
        ≡ some (insert (end_of c.cond_block) (cond_br c.condition end c.fail_block))
    pub below : branch < length t
    pub block_below : c.cond_block < length t

  -- A call that is about other blocks leaves it linked.
  pub Linked-cons :
      {t : Trace} {c : Check} {target : Block} (x : Call)
      → body_of (x ∷ t) c.cond_block ≡ body_of t c.cond_block
      → terminates c.cond_block x ≡ false
      → Linked t c target
      → Linked (x ∷ t) c target
  Linked-cons {t} {c} x same quiet l = record {
    branch = l.branch;
    body = same ∙ l.body;
    is_new = l.is_new;
    terminator = laws.terminator-keep t c.cond_block x quiet l.block_below ∙ l.terminator;
    call = call_at-old x t l.branch l.below ∙ l.call;
    below = omega (arith, l.below);
    block_below = omega (arith, l.block_below);
  }

  module _ {t : Trace} {c : Check} {old : Block} (l : Linked t c old) (target : Block) where
    abbrev pub redirected : Trace
    redirected = set_successor l.branch 0 target ∷ t

    -- The redirection finds the branch and changes its first successor,
    pub set_true_successor-ok : set_true_successor llvm c.cond_block target t ≡ ok tt redirected
    unfolding set_true_successor
    set_true_successor-ok = rw (l.terminator) (rw (laws.is_branch-cond t l.branch _ _ _ _ l.call))

    -- so that the block is linked to the new one,
    pub Linked-redirected : Linked redirected c target
    unfolding body_of
    Linked-redirected = record {
      branch = l.branch;
      body = rw (l.body) (redirect_in-last l.branch target _ _ _ _ l.is_new);
      is_new = l.is_new;
      terminator = laws.terminator-keep t c.cond_block _ refl l.block_below ∙ l.terminator;
      call = call_at-old _ t l.branch l.below ∙ l.call;
      below = omega (arith, l.below);
      block_below = omega (arith, l.block_below);
    }

    -- and no other block is changed.
    pub body_of-redirected : (b : Block) → c.cond_block ≢ b → body_of redirected b ≡ body_of t b
    unfolding body_of
    body_of-redirected b ne =
        redirect_in-Lacks_id l.branch 0 target (body_of t b)
          (body_of-Lacks t l.branch c.cond_block b _ l.call ne)

    pub redirected-Frame : InScope t → Frame llvm (λ b. c.cond_block ≢ b) t redirected
    unfolding incoming
    redirected-Frame s = record {
      scope = (l.below, s);
      longer = omega arith;
      kept = λ b h ne. body_of-redirected b ne;
      terminator = λ b h ne. laws.terminator-keep t b _ refl h;
      phis = λ n h. refl;
      extends = Extends-cons t t _ (λ k x g. g);
    }
