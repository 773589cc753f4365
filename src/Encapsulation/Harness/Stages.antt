-- ===== src/Encapsulation/Harness/Stages.antt =====
-- The stages of `encapsulateImpl` of SymbolicEncapsulation.cpp, one after the other, make a harness.
use ephippion.Prelude.{
  ℕ, suc, ◌+◌, ◌^◌, ◌<◌, ◌≤◌, ◌≡◌, ◌≢◌, sym, ◌∙◌, ap, none, subst, Bool, true, false, List, [], ◌∷◌,
  ◌++◌, length, some, length-map, arith, Text,
}
use ephippion.Direction.{ArgSpec}
use ephippion.Llvm.{
  int, function_type, Function, type_of_function, Argument, Block, get_or_insert_function, call_at,
  Llvm, IsLlvm, Trace, and_then, ◌>>◌, Succeeds, Succeeds-and_then, Succeeds-map,
}
use ephippion.Llvm.Scope.{InScope}
use ephippion.Ir.{Values, body_of}
use ephippion.Ir.Positions.{call_at-new}
use ephippion.Ir.Frame.{Frame, Frame-trans, Frame-trans_below, Frame-quiet}
use ephippion.FuncUtils.{declare_func_no_args, get_function}
use ephippion.Encapsulation.Arguments.{Pushed, setup_harness_args}
use ephippion.Encapsulation.Arguments.Handover.{AreStored-values, length-AreStored}
use ephippion.Encapsulation.Declarations.{create_symbolic_declarations}
use ephippion.Encapsulation.Harness.{harness_name_prefix, create_harness, create_calls, link_blocks}
use ephippion.Encapsulation.Harness.Created.{
  after_blocks, blocks_at, with_blocks, create_blocks-ok, length-with_blocks, with_blocks-InScope,
  with_blocks-empty, with_blocks-open, with_blocks-Frame, with_blocks-IsCreating,
}
use ephippion.Encapsulation.Harness.Calls.{Calls, create_calls-HasCalls}
use ephippion.Encapsulation.Harness.Prepared.{
  IsPrepared, AreEmpty, IsSuited, stage_setup, stage_declare, stage_assert, Stored, Declared,
}
use ephippion.Encapsulation.Harness.Linked.{link_blocks-linked}
use ephippion.Encapsulation.Harness.Shaped.{harness-Frame}
use ephippion.Encapsulation.Harness.Made.{IsHarness, IsCreatedIn, linked-IsHarness}

-- The name of the harness is that of nothing that has another type.
abbrev pub HasName : Llvm → Function → Type 0
HasName llvm func =
    (u : Trace)
    → llvm.declares u (harness_name_prefix ++ func.name) (function_type (int 32) [] false) ≡ true

module _ {llvm : Llvm} (laws : IsLlvm llvm) (ndebug : Bool) (mod_name : Text) (iterations : ℕ)
    (oracle : ℕ → Values → ℕ) (func : Function) (arg : Argument) (rest : List Argument)
    (specs : List ArgSpec) where
  module _ (n : ℕ) (t₀ : Trace) (empty : AreEmpty n t₀)
      (open1 : llvm.terminator t₀ (blocks_at n).call1_body ≡ none)
      (open2 : llvm.terminator t₀ (blocks_at n).call2_body ≡ none)
      (args_eq : func.args ≡ arg ∷ rest) (number : arg.type ≡ int 64)
      (made : IsCreatedIn laws ndebug mod_name iterations oracle func arg rest specs n t₀ empty
        t₀) where
    prepared-IsEmpty :
        (s : Pushed) (t₃ : Trace)
        → IsPrepared laws ndebug mod_name iterations oracle arg rest specs n t₀ s t₃
        → InScope t₃
          × (n + 12 ≤ length t₃)
          × (body_of t₃ (blocks_at n).call1_body ≡ [])
          × (body_of t₃ (blocks_at n).call2_body ≡ [])
          × (llvm.terminator t₃ (blocks_at n).call1_body ≡ none)
          × (llvm.terminator t₃ (blocks_at n).call2_body ≡ none)
    prepared-IsEmpty s t₃ p =
        let same : (b : Block)
            → (blocks_at n).call1_body ≤ b
            → b ≤ (blocks_at n).call2_body
            → (body_of t₃ b ≡ []) × (llvm.terminator t₃ b ≡ llvm.terminator t₀ b) =
          λ b from to.
            let ne : ((blocks_at n).setup ≢ b)
                × ((blocks_at n).teardown ≢ b)
                × ((blocks_at n).se_setup ≢ b)
                × ((blocks_at n).se_start_teardown ≢ b) =
              (
                (λ e. omega (arith, e)),
                (λ e. omega (arith, e)),
                (λ e. omega (arith, e)),
                (λ e. omega (arith, e)),
              ) in
            (
              p.frame.kept b (omega (arith, empty.1)) ne ∙ empty.2 b (omega arith),
              p.frame.terminator b (omega (arith, empty.1)) ne,
            ) in
        let first = same (blocks_at n).call1_body (omega arith) (omega arith) in
        let second = same (blocks_at n).call2_body (omega arith) (omega arith) in
        (
          p.frame.scope,
          omega (arith, empty.1, p.frame.longer),
          first.0,
          second.0,
          first.1 ∙ open1,
          second.1 ∙ open2,
        )

    abbrev Done : Unit {0} → Trace → Type 0
    Done _ t' =
        Frame llvm (λ b. b < n) t₀ t'
        × ((h : IsHarness laws ndebug mod_name iterations oracle func arg rest specs t') × (h.n
              ≡ n))

    finish_harness :
        (s : Pushed) (t₃ : Trace)
        → IsPrepared laws ndebug mod_name iterations oracle arg rest specs n t₀ s t₃
        → 2 ≤ iterations
        → iterations < 2 ^ 32
        → Succeeds
            ((create_calls llvm ndebug mod_name iterations func (blocks_at n) s
                >> link_blocks (blocks_at n))
              t₃)
            Done
    finish_harness s t₃ p two small =
        let ((v, vs, e1), (w, ws, e2)) =
          AreStored-values laws ndebug iterations specs (blocks_at n).setup t₃ 0 (arg ∷ rest)
            s.call_args1 s.call_args2 s.heap_allocs (omega arith) p.stored in
        let (same1, same2) =
          length-AreStored laws ndebug iterations specs (blocks_at n).setup t₃ 0 (arg ∷ rest)
            s.call_args1 s.call_args2 s.heap_allocs p.stored in
        let params : length (type_of_function func).params ≡ suc (length rest) =
          length-map (λ (a : Argument). a.type) func.args ∙ ap (λ xs. length xs) args_eq in
        Succeeds-and_then (λ _. Calls laws ndebug mod_name iterations func n t₃ v w vs ws) Done _ _
          (create_calls-HasCalls laws ndebug mod_name iterations func n t₃ v w vs ws s
            (prepared-IsEmpty s t₃ p) e1 e2 two small
            (omega (arith, same1, params, ap (λ xs. length xs) e1))
            (omega (arith, same2, params, ap (λ xs. length xs) e2)))
          (λ _ t₇ (m₂, c). rw (link_blocks-linked n t₇) (
            harness-Frame laws ndebug mod_name iterations oracle func arg rest specs n m₂ t₀ t₃ t₇ s
                _ _ empty p c,
            linked-IsHarness laws ndebug mod_name iterations oracle func arg rest specs n t₀ empty s
                v w vs ws t₃ t₇ m₂ p e1 e2 c two small args_eq number made,
          ))

    with_rest-IsHarness :
        IsSuited llvm ndebug (arg ∷ rest)
        → suc (length rest) ≤ length specs
        → 2 ≤ iterations
        → iterations < 2 ^ 32
        → Succeeds (after_blocks llvm ndebug mod_name iterations func specs (blocks_at n) t₀) Done
    unfolding after_blocks
    with_rest-IsHarness suited enough two small =
        Succeeds-and_then (Stored laws ndebug mod_name iterations oracle arg rest specs n t₀) Done _
          _
          (subst
            (λ xs.
              Succeeds
                (setup_harness_args llvm ndebug iterations xs specs (blocks_at n).setup
                  (blocks_at n).teardown t₀)
                (Stored laws ndebug mod_name iterations oracle arg rest specs n t₀))
            (sym args_eq)
            (stage_setup laws ndebug mod_name iterations oracle arg rest specs n t₀ empty suited
              enough))
          (λ s t₁ stored.
            Succeeds-and_then
              (λ _. Declared laws ndebug mod_name iterations oracle arg rest specs n t₀ s t₁) Done _
              _
              (subst
                (λ xs.
                  Succeeds
                    (create_symbolic_declarations llvm ndebug iterations (blocks_at n).se_setup xs
                      s.call_args1 s.call_args2 specs t₁)
                    (λ _. Declared laws ndebug mod_name iterations oracle arg rest specs n t₀ s t₁))
                (sym args_eq)
                (stage_declare laws ndebug mod_name iterations oracle arg rest specs n t₀ s t₁ empty
                  suited enough stored))
              (λ _ t₂ declared.
                Succeeds-and_then
                  (λ _. IsPrepared laws ndebug mod_name iterations oracle arg rest specs n t₀ s)
                  Done _ _
                  (stage_assert laws ndebug mod_name iterations oracle arg rest specs n t₀ s t₁ t₂
                    empty suited enough stored declared)
                  (λ _ t₃ p. finish_harness s t₃ p two small)))

  -- The harness is there, its function was declared and its blocks were created there straight
  -- afterwards, and what was there before is left alone.
  abbrev pub Added : Trace → Unit {0} → Trace → Type 0
  Added t _ t' =
      Frame llvm (λ b. Unit) t t'
      × (call_at t' (length t)
          ≡ some (
              get_or_insert_function (harness_name_prefix ++ func.name)
                (function_type (int 32) [] false)))
      × ((h : IsHarness laws ndebug mod_name iterations oracle func arg rest specs t') × (h.n
            ≡ suc (length t)))

  pub create_harness-IsHarness :
      (t : Trace)
      → InScope t
      → func.args ≡ arg ∷ rest
      → arg.type ≡ int 64
      → IsSuited llvm ndebug (arg ∷ rest)
      → HasName llvm func
      → suc (length rest) ≤ length specs
      → 2 ≤ iterations
      → iterations < 2 ^ 32
      → Succeeds (create_harness llvm ndebug mod_name iterations func specs t) (Added t)
  unfolding create_harness declare_func_no_args get_function after_blocks
  create_harness-IsHarness t s args_eq number suited named enough two small =
      let t₁ : Trace =
        get_or_insert_function (harness_name_prefix ++ func.name) (function_type (int 32) [] false)
        ∷ t in
      let harness : Text = harness_name_prefix ++ func.name in
      let opened = with_blocks-open harness t₁ laws in
      let room : length t₁ + 12 ≤ length (with_blocks harness t₁) =
        omega (arith, length-with_blocks harness t₁) in
      let empty : AreEmpty (length t₁) (with_blocks harness t₁) =
        (with_blocks-InScope harness t₁ (tt, s), room, with_blocks-empty harness t₁ (tt, s)) in
      let declared : Frame llvm (λ b. Unit) t t₁ = Frame-quiet laws _ t s tt in
      let blocks : Frame llvm (λ b. Unit) t (with_blocks harness t₁) =
        Frame-trans llvm declared (with_blocks-Frame harness t₁ laws declared.scope) in
      rw (named t₁) (
        subst
          (λ r.
            Succeeds (and_then r (after_blocks llvm ndebug mod_name iterations func specs))
              (Added t))
          (sym (create_blocks-ok harness t₁))
          (Succeeds-map
            (λ _ t'.
              Frame llvm (λ b. b < length t₁) (with_blocks harness t₁) t'
              × ((h : IsHarness laws ndebug mod_name iterations oracle func arg rest specs t')
                  × (h.n ≡ length t₁)))
            (Added t) _
            (λ _ t' (f, h). (
              Frame-trans_below llvm blocks f (λ b l a. omega arith),
              f.extends _ _ (
                  (with_blocks-Frame harness t₁ laws declared.scope).extends _ _ (call_at-new _ t)),
              h,
            ))
            (with_rest-IsHarness (length t₁) (with_blocks harness t₁) empty opened.0 opened.1
              args_eq number
              (λ b from to.
                with_blocks-IsCreating harness t₁ b from
                  (omega (arith, length-with_blocks harness t₁)))
              suited enough two small)))
