-- ===== src/Encapsulation/Harness/Created.antt =====
-- The blocks of a harness of SymbolicEncapsulation.cpp, right after their creation.
use ephippion.Prelude.{
  ℕ, suc, ◌+◌, ◌<◌, ◌≤◌, ◌≡◌, refl, ◌∙◌, none, [], ◌∷◌, length, Text, bytes, arith, Bool, false,
  List, ◌==◌, ==_iff, Bool-cases, inl, inr, some, ◌≢◌,
}
use ephippion.Direction.{ArgSpec}
use ephippion.Llvm.{
  Block, Call, create_block, call_at, Function, Llvm, IsLlvm, Trace, M, ok, ◌>>=◌, ◌>>◌,
}
use ephippion.Llvm.Keeps.{IsMonotone}
use ephippion.Llvm.Scope.{InScope}
use ephippion.Ir.{body_of}
use ephippion.Ir.Positions.{call_at-new, call_at-old}
use ephippion.Ir.Laws.{body_of-fresh}
use ephippion.Ir.Frame.{Frame, Frame-refl, Frame-call}
use ephippion.Encapsulation.Arguments.{setup_harness_args}
use ephippion.Encapsulation.Declarations.{create_symbolic_declarations}
use ephippion.Encapsulation.Assertions.{create_symbolic_assertions}
use ephippion.Encapsulation.Harness.{Blocks, create_blocks, create_calls, link_blocks}

-- The blocks that are created from position `n` on.
abbrev pub blocks_at : ℕ → Blocks
blocks_at n = record {
  setup = n;
  se_setup = suc n;
  call1_setup = suc (suc n);
  call2_setup = suc (suc (suc n));
  call1_body = suc (suc (suc (suc n)));
  call2_body = suc (suc (suc (suc (suc n))));
  call1_teardown = suc (suc (suc (suc (suc (suc n)))));
  call2_teardown = suc (suc (suc (suc (suc (suc (suc n))))));
  se_start_teardown = suc (suc (suc (suc (suc (suc (suc (suc n)))))));
  se_end_teardown = suc (suc (suc (suc (suc (suc (suc (suc (suc n))))))));
  teardown = suc (suc (suc (suc (suc (suc (suc (suc (suc (suc n)))))))));
  exit = suc (suc (suc (suc (suc (suc (suc (suc (suc (suc (suc n))))))))));
}

module _ (harness : Text) (t : Trace) where
  block : Text → Call
  block name = create_block name harness

  first_half : Trace
  unfolding block
  first_half =
      block (bytes "call2.body")
      ∷ block (bytes "call1.body")
      ∷ block (bytes "call2.setup")
      ∷ block (bytes "call1.setup")
      ∷ block (bytes "se.setup")
      ∷ block (bytes "setup")
      ∷ t

  pub with_blocks : Trace
  unfolding block first_half
  with_blocks =
      block (bytes "exit")
      ∷ block (bytes "teardown")
      ∷ block (bytes "se.end.teardown")
      ∷ block (bytes "se.start.teardown")
      ∷ block (bytes "call2.teardown")
      ∷ block (bytes "call1.teardown")
      ∷ first_half

  pub create_blocks-ok : create_blocks harness t ≡ ok (blocks_at (length t)) with_blocks
  unfolding create_blocks with_blocks
  create_blocks-ok = refl

  pub length-with_blocks : length with_blocks ≡ 12 + length t
  unfolding with_blocks
  length-with_blocks = omega arith

  -- What holds once the first block is created, and is kept by every call, holds of all.
  pub with_blocks-monotone :
      {P : Trace → Type 0}
      → IsMonotone P
      → P (create_block (bytes "setup") harness ∷ t)
      → P with_blocks
  unfolding with_blocks first_half block
  with_blocks-monotone mono p =
      let five = mono _ _ (mono _ _ (mono _ _ (mono _ _ (mono _ _ p)))) in
      mono _ _ (mono _ _ (mono _ _ (mono _ _ (mono _ _ (mono _ _ five)))))

  -- The calls from position `n` on create blocks in the harness.
  abbrev IsCreating : ℕ → Trace → Type 0
  IsCreating n u =
      (b : Block)
      → n ≤ b
      → b < length u
      → (name : Text) × (call_at u b ≡ some (create_block name harness))

  IsCreating-cons :
      (n : ℕ) (u : Trace) (name : Text)
      → IsCreating n u
      → IsCreating n (create_block name harness ∷ u)
  IsCreating-cons n u name all b from to = elim (Bool-cases (b == length u)) [
    | inl e ↦
        let same : b ≡ length u = (==_iff b (length u)).0 e in (name, rw same (call_at-new _ u))
    | inr e ↦
        let below : b < length u = omega (arith, different e) in
        let (other, at) = all b from below in (other, call_at-old _ u b below ∙ at)
  ]
    where
      different : (b == length u) ≡ false → b ≢ length u
      different e same = cc (e, (==_iff b (length u)).1 same)

  pub with_blocks-IsCreating : IsCreating (length t) with_blocks
  unfolding with_blocks first_half block
  with_blocks-IsCreating =
      let none_yet : IsCreating (length t) t = λ b from to. absurd (omega (arith, from, to)) in
      let one = IsCreating-cons (length t) _ (bytes "setup") none_yet in
      let two = IsCreating-cons (length t) _ (bytes "se.setup") one in
      let three = IsCreating-cons (length t) _ (bytes "call1.setup") two in
      let four = IsCreating-cons (length t) _ (bytes "call2.setup") three in
      let five = IsCreating-cons (length t) _ (bytes "call1.body") four in
      let six = IsCreating-cons (length t) _ (bytes "call2.body") five in
      let seven = IsCreating-cons (length t) _ (bytes "call1.teardown") six in
      let eight = IsCreating-cons (length t) _ (bytes "call2.teardown") seven in
      let nine = IsCreating-cons (length t) _ (bytes "se.start.teardown") eight in
      let ten = IsCreating-cons (length t) _ (bytes "se.end.teardown") nine in
      let eleven = IsCreating-cons (length t) _ (bytes "teardown") ten in
      IsCreating-cons (length t) _ (bytes "exit") eleven

  pub with_blocks-InScope : InScope t → InScope with_blocks
  unfolding with_blocks
  with_blocks-InScope s = (tt, (tt, (tt, (tt, (tt, (tt, (tt, (tt, (tt, (tt, (tt, (tt, s))))))))))))

  pub with_blocks-empty : InScope t → (b : Block) → length t ≤ b → body_of with_blocks b ≡ []
  unfolding with_blocks body_of
  with_blocks-empty s b h = body_of-fresh t b s h

  module _ {llvm : Llvm} (laws : IsLlvm llvm) where
    keep :
        (u : Trace) (b : Block) (name : Text)
        → b < length u
        → llvm.terminator (block name ∷ u) b ≡ llvm.terminator u b
    unfolding block
    keep u b name h = laws.terminator-keep u b _ refl h

    pub with_blocks-Frame : InScope t → Frame llvm (λ b. Unit) t with_blocks
    unfolding with_blocks block
    with_blocks-Frame s =
        let f₁ = Frame-call laws (Frame-call laws (Frame-refl llvm t s) _ tt) _ tt in
        let f₂ = Frame-call laws (Frame-call laws f₁ _ tt) _ tt in
        let f₃ = Frame-call laws (Frame-call laws f₂ _ tt) _ tt in
        let f₄ = Frame-call laws (Frame-call laws f₃ _ tt) _ tt in
        let f₅ = Frame-call laws (Frame-call laws f₄ _ tt) _ tt in
        Frame-call laws (Frame-call laws f₅ _ tt) _ tt

    -- The two bodies have no terminator.
    pub with_blocks-open :
        (llvm.terminator with_blocks (blocks_at (length t)).call1_body ≡ none)
        × (llvm.terminator with_blocks (blocks_at (length t)).call2_body ≡ none)
    unfolding with_blocks keep block
    with_blocks-open = (
      later (blocks_at (length t)).call1_body (omega arith)
          ∙ laws.terminator-keep _ _ _ refl (omega arith)
          ∙ laws.terminator-new _ _ _,
      later (blocks_at (length t)).call2_body (omega arith) ∙ laws.terminator-new _ _ _,
    )
      where
        later :
            (b : Block)
            → b < length first_half
            → llvm.terminator with_blocks b ≡ llvm.terminator first_half b
        later b h =
            laws.terminator-keep _ b _ refl (omega arith)
            ∙ laws.terminator-keep _ b _ refl (omega arith)
            ∙ laws.terminator-keep _ b _ refl (omega arith)
            ∙ laws.terminator-keep _ b _ refl (omega arith)
            ∙ laws.terminator-keep _ b _ refl (omega arith)
            ∙ laws.terminator-keep _ b _ refl (omega arith)

module _ (llvm : Llvm) (ndebug : Bool) (mod_name : Text) (iterations : ℕ) (func : Function)
    (specs : List ArgSpec) where
  -- What `create_harness` does behind the creation of the blocks.
  unfoldable pub after_blocks : Blocks → M (Unit {0})
  after_blocks b =
      setup_harness_args llvm ndebug iterations func.args specs b.setup b.teardown >>= λ args.
      create_symbolic_declarations llvm ndebug iterations b.se_setup func.args args.call_args1
        args.call_args2 specs
      >> (create_symbolic_assertions llvm ndebug iterations mod_name b.se_start_teardown
            b.se_end_teardown args.call_args1 args.call_args2 specs
          >> (create_calls llvm ndebug mod_name iterations func b args >> link_blocks b))
