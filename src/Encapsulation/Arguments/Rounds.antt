-- ===== src/Encapsulation/Arguments/Rounds.antt =====
-- The rounds of `setupHarnessArgs` of SymbolicEncapsulation.cpp, which make the storage.
use ephippion.Prelude.{
  ℕ, suc, ◌≡◌, refl, sym, ap, subst, ◌∙◌, Bool, true, false, not, ◌||◌, ◌==◌, some, List, [], ◌∷◌,
  length, get_elem?, Bool-cases, inl, inr, arith,
}
use ephippion.Direction.{ArgSpec, is_outbound}
use ephippion.Llvm.{
  Ty, int, ptr, void, other, is_pointer, Argument, Callee, Block, result, alloca, call, mul, Call,
  insert, end_of, call_at, Llvm, Trace, Succeeds,
}
use ephippion.Ir.Positions.{Extends, Extends-cons, call_at-new, call_at-old}
use ephippion.Encapsulation.Sizes.{multiplier, get_int64}
use ephippion.Encapsulation.Arguments.{
  Pushed, direction_at, setup_scalar, setup_pointer, setup_argument,
}
use ephippion.Encapsulation.Arguments.Storage.{
  stack_shared, stack_apart, heap_shared, heap_apart, Stores,
}

direction_at-some :
    (specs : List ArgSpec) (i : ℕ) (spec : ArgSpec)
    → get_elem? specs i ≡ some spec
    → direction_at specs i ≡ spec.direction
direction_at-some specs i spec found = rw (found, direction_at) refl

module _ (llvm : Llvm) (iterations_num : ℕ) (specs : List ArgSpec) (setup : Block)
    (heap_alloc : Callee) where
  module _ (ndebug : Bool) where
    setup_scalar-Stores :
        (arg : Argument) (i : ℕ) (s : Pushed) (t : Trace)
        → is_pointer arg.type ≡ false
        → Succeeds
            (setup_scalar llvm ndebug iterations_num specs setup arg (direction_at specs i) s t)
            (Stores llvm iterations_num specs setup heap_alloc t i arg s)
    unfolding setup_scalar
    setup_scalar-Stores arg i s t p =
        let first : Call = insert (end_of setup) (alloca arg.type arg.name) in
        elim (Bool-cases (is_outbound (direction_at specs i))) [
          | inl apart ↦ rw apart (
            result (length t),
            result (suc (length t)),
            [],
            refl,
            stack_apart (length t) (suc (length t)) p apart (λ e. omega arith)
                (call_at-old first (first ∷ t) (length t) (omega arith) ∙ call_at-new first t)
                (call_at-new first (first ∷ t)),
            Extends-cons t (first ∷ t) first (Extends-cons t t first (λ k c h. h)),
          )
          | inr shared ↦ rw shared (
            result (length t),
            result (length t),
            [],
            refl,
            stack_shared (length t) p shared (call_at-new first t),
            Extends-cons t t first (λ k c h. h),
          )
        ]

    setup_pointer-Stores :
        (arg : Argument) (element : Ty) (spec : ArgSpec) (i : ℕ) (s : Pushed) (t : Trace)
        → arg.type ≡ ptr element
        → (not (llvm.alloc_size element == 0) || ndebug) ≡ true
        → get_elem? specs i ≡ some spec
        → Succeeds
            (setup_pointer llvm ndebug iterations_num specs setup heap_alloc arg i spec.direction s
              t)
            (Stores llvm iterations_num specs setup heap_alloc t i arg s)
    unfolding setup_pointer
    setup_pointer-Stores arg element spec i s t p sized found =
        let size : Call = insert (end_of setup) (
          mul (multiplier spec.iterator_dependent iterations_num)
            (get_int64 (llvm.alloc_size element))) in
        let first : Call = insert (end_of setup) (call heap_alloc (result (length t) ∷ [])) in
        let size_at : call_at (first ∷ size ∷ t) (length t) ≡ some size =
          call_at-old first (size ∷ t) (length t) (omega arith) ∙ call_at-new size t in
        let grown : Extends t (first ∷ size ∷ t) =
          Extends-cons t (size ∷ t) first (Extends-cons t t size (λ k c h. h)) in
        rw (p, sized, found)
          (elim (Bool-cases (is_outbound spec.direction)) [
            | inl apart ↦ rw apart (
              result (suc (length t)),
              result (suc (suc (length t))),
              _,
              refl,
              heap_apart element spec (length t) (suc (length t)) (suc (suc (length t))) refl found
                  apart (λ e. omega arith)
                  (call_at-old first (first ∷ size ∷ t) (length t) (omega arith) ∙ size_at)
                  (call_at-old first (first ∷ size ∷ t) (suc (length t)) (omega arith)
                    ∙ call_at-new first (size ∷ t))
                  (call_at-new first (first ∷ size ∷ t)),
              Extends-cons t (first ∷ size ∷ t) first grown,
            )
            | inr shared ↦ rw shared (
              result (suc (length t)),
              result (suc (length t)),
              _,
              refl,
              heap_shared element spec (length t) (suc (length t)) refl found shared size_at
                  (call_at-new first (size ∷ t)),
              grown,
            )
          ])

    -- The size of what a pointer points to is not zero, or that is not asserted.
    abbrev pub IsSized : Ty → Type 0
    IsSized (ptr element) = (not (llvm.alloc_size element == 0) || ndebug) ≡ true
    IsSized _ = Unit

    setup_argument-scalar :
        (arg : Argument) (i : ℕ) (s : Pushed) (t : Trace)
        → is_pointer arg.type ≡ false
        → setup_argument llvm ndebug iterations_num specs setup heap_alloc arg i s t
          ≡ setup_scalar llvm ndebug iterations_num specs setup arg (direction_at specs i) s t
    unfolding setup_argument
    setup_argument-scalar arg i s t p = rw p refl

    setup_argument-pointer :
        (arg : Argument) (element : Ty) (spec : ArgSpec) (i : ℕ) (s : Pushed) (t : Trace)
        → arg.type ≡ ptr element
        → get_elem? specs i ≡ some spec
        → setup_argument llvm ndebug iterations_num specs setup heap_alloc arg i s t
          ≡ setup_pointer llvm ndebug iterations_num specs setup heap_alloc arg i spec.direction s t
    unfolding setup_argument
    setup_argument-pointer arg element spec i s t p found =
        rw (p, direction_at-some specs i spec found) refl

    pub setup_argument-Stores :
        (arg : Argument) (spec : ArgSpec) (i : ℕ) (s : Pushed) (t : Trace)
        → IsSized arg.type
        → get_elem? specs i ≡ some spec
        → Succeeds
            (setup_argument llvm ndebug iterations_num specs setup heap_alloc arg i s t)
            (Stores llvm iterations_num specs setup heap_alloc t i arg s)
    setup_argument-Stores arg spec i s t sized found = of_type arg.type refl sized
      where
        scalar :
            is_pointer arg.type ≡ false
            → Succeeds
                (setup_argument llvm ndebug iterations_num specs setup heap_alloc arg i s t)
                (Stores llvm iterations_num specs setup heap_alloc t i arg s)
        scalar p =
            subst (λ r. Succeeds r (Stores llvm iterations_num specs setup heap_alloc t i arg s))
              (sym (setup_argument-scalar arg i s t p)) (setup_scalar-Stores arg i s t p)

        of_type :
            (ty : Ty)
            → arg.type ≡ ty
            → IsSized ty
            → Succeeds
                (setup_argument llvm ndebug iterations_num specs setup heap_alloc arg i s t)
                (Stores llvm iterations_num specs setup heap_alloc t i arg s)
        of_type (ptr element) e sized =
            subst (λ r. Succeeds r (Stores llvm iterations_num specs setup heap_alloc t i arg s))
              (sym (setup_argument-pointer arg element spec i s t e found))
              (setup_pointer-Stores arg element spec i s t e sized found)
        of_type (int w) e sized = scalar (ap (λ ty. is_pointer ty) e)
        of_type void e sized = scalar (ap (λ ty. is_pointer ty) e)
        of_type (other n) e sized = scalar (ap (λ ty. is_pointer ty) e)
