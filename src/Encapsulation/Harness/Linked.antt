-- ===== src/Encapsulation/Harness/Linked.antt =====
-- "setup control flow" of `encapsulateImpl` of SymbolicEncapsulation.cpp.
use ephippion.Prelude.{ℕ, suc, ◌+◌, ◌≤◌, ◌≡◌, ◌≢◌, refl, [], ◌∷◌, ◌++◌, length, arith}
use ephippion.Llvm.{Block, const, Inst, br, ret, insert, end_of, Llvm, IsLlvm, Trace, ok}
use ephippion.Llvm.Scope.{InScope}
use ephippion.Ir.{body_of}
use ephippion.Ir.Frame.{Frame, Frame-refl, Frame-weaken, Frame-insert_at}
use ephippion.Encapsulation.Harness.{link_blocks}
use ephippion.Encapsulation.Harness.Created.{blocks_at}

module _ (n : ℕ) (t : Trace) where
  pub linked : Trace
  linked =
      insert (end_of (blocks_at n).exit) (ret (const 32 0))
      ∷ insert (end_of (blocks_at n).teardown) (br (blocks_at n).exit)
      ∷ insert (end_of (blocks_at n).se_end_teardown) (br (blocks_at n).teardown)
      ∷ insert (end_of (blocks_at n).call2_teardown) (br (blocks_at n).se_start_teardown)
      ∷ insert (end_of (blocks_at n).call1_teardown) (br (blocks_at n).call2_setup)
      ∷ insert (end_of (blocks_at n).se_setup) (br (blocks_at n).call1_setup)
      ∷ insert (end_of (blocks_at n).setup) (br (blocks_at n).se_setup)
      ∷ t

  pub link_blocks-linked : link_blocks (blocks_at n) t ≡ ok tt linked
  unfolding link_blocks linked
  link_blocks-linked = refl

  -- The block ends in the instruction, behind what it held.
  abbrev pub EndsIn : Block → Inst → Type 0
  EndsIn b i = (k : ℕ) × (body_of linked b ≡ body_of t b ++ (k, i) ∷ [])

  pub record IsLinked : Type 0 where
    pub setup : EndsIn (blocks_at n).setup (br (blocks_at n).se_setup)
    pub se_setup : EndsIn (blocks_at n).se_setup (br (blocks_at n).call1_setup)
    pub call1_teardown : EndsIn (blocks_at n).call1_teardown (br (blocks_at n).call2_setup)
    pub call2_teardown : EndsIn (blocks_at n).call2_teardown (br (blocks_at n).se_start_teardown)
    pub se_end_teardown : EndsIn (blocks_at n).se_end_teardown (br (blocks_at n).teardown)
    pub teardown : EndsIn (blocks_at n).teardown (br (blocks_at n).exit)
    pub exit : EndsIn (blocks_at n).exit (ret (const 32 0))

  pub linked-IsLinked : IsLinked
  unfolding linked body_of
  linked-IsLinked = record {
    setup = (length t, ground arith);
    se_setup = (suc (length t), ground arith);
    call1_teardown = (suc (suc (length t)), ground arith);
    call2_teardown = (suc (suc (suc (length t))), ground arith);
    se_end_teardown = (suc (suc (suc (suc (length t)))), ground arith);
    teardown = (suc (suc (suc (suc (suc (length t))))), ground arith);
    exit = (suc (suc (suc (suc (suc (suc (length t)))))), ground arith);
  }

  -- No other block is changed.
  abbrev pub IsOther : Block → Type 0
  IsOther b =
      ((blocks_at n).setup ≢ b)
      × ((blocks_at n).se_setup ≢ b)
      × ((blocks_at n).call1_teardown ≢ b)
      × ((blocks_at n).call2_teardown ≢ b)
      × ((blocks_at n).se_end_teardown ≢ b)
      × ((blocks_at n).teardown ≢ b)
      × ((blocks_at n).exit ≢ b)

  pub linked-Frame :
      {llvm : Llvm} (laws : IsLlvm llvm)
      → InScope t
      → n + 12 ≤ length t
      → Frame llvm IsOther t linked
  unfolding linked
  linked-Frame {llvm} laws s room =
      let f₀ : Frame llvm IsOther t t = Frame-weaken llvm (λ b h a. tt) (Frame-refl llvm t s) in
      let f₁ =
        Frame-insert_at laws f₀ (blocks_at n).setup (br (blocks_at n).se_setup) (omega arith)
          (λ b a. a.0) in
      let f₂ =
        Frame-insert_at laws f₁ (blocks_at n).se_setup (br (blocks_at n).call1_setup) (omega arith)
          (λ b a. a.1) in
      let f₃ =
        Frame-insert_at laws f₂ (blocks_at n).call1_teardown (br (blocks_at n).call2_setup)
          (omega arith) (λ b a. a.2) in
      let f₄ =
        Frame-insert_at laws f₃ (blocks_at n).call2_teardown (br (blocks_at n).se_start_teardown)
          (omega arith) (λ b a. a.3) in
      let f₅ =
        Frame-insert_at laws f₄ (blocks_at n).se_end_teardown (br (blocks_at n).teardown)
          (omega arith) (λ b a. a.4) in
      let f₆ =
        Frame-insert_at laws f₅ (blocks_at n).teardown (br (blocks_at n).exit) (omega arith)
          (λ b a. a.5) in
      Frame-insert_at laws f₆ (blocks_at n).exit (ret (const 32 0)) (omega arith) (λ b a. a.6)
