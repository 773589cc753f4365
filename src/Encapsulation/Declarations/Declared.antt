-- ===== src/Encapsulation/Declarations/Declared.antt =====
-- The loop of `createSymbolicDeclarations` of SymbolicEncapsulation.cpp over the arguments.
use ephippion.Prelude.{
  ℕ, suc, ◌+◌, ◌≤◌, ◌≡◌, refl, sym, ap, subst, ◌∙◌, Bool, true, false, not, ◌||◌, ◌==◌, ==_ne, some,
  List, [], ◌∷◌, length, get_elem?, get_elem?-below, Bool-cases, inl, inr, if◌then◌else◌, arith,
}
use ephippion.Direction.{ArgSpec, is_only_outbound}
use ephippion.Llvm.{
  Ty, ptr, is_pointer, Argument, Callee, Block, Value, mul, Call, insert, end_of, Llvm, Trace, Run,
  ok, M, pure, and_then, Succeeds, Succeeds-and_then, Succeeds-map,
}
use ephippion.Ir.Positions.{Extends, Extends-cons, call_at-new}
use ephippion.Encapsulation.Sizes.{get_int64}
use ephippion.Encapsulation.Declarations.{
  skips_declaration, symbolize_argument, declare_scalar, declare_pointer, declare_argument,
  declare_arguments,
}
use ephippion.Encapsulation.Declarations.Symbolic.{
  HasElement, of_pointer, of_value, HasElement-Extends, times, IsDeclared, only_output, Declares,
  symbolize_argument-Declares,
}

module _ (llvm : Llvm) (ndebug : Bool) (iterations_num : ℕ) (specs : List ArgSpec) (block : Block)
    (values1 values2 : List Value) (symbolize memcpy : Callee) where
  -- what follows once it is known whether the argument is passed over
  rest_of : Argument → ℕ → Bool → M (Unit {0})
  rest_of arg i skipped =
      if skipped
      then pure tt
      else if not (is_pointer arg.type)
      then declare_scalar llvm ndebug iterations_num specs block values1 values2 symbolize memcpy i
      else declare_pointer llvm ndebug iterations_num specs block values1 values2 symbolize memcpy
          arg i

  skips_declaration-specs :
      (i : ℕ) (spec : ArgSpec) (t : Trace)
      → get_elem? specs i ≡ some spec
      → (length specs == 0) ≡ false
      → skips_declaration llvm ndebug iterations_num specs block values1 values2 symbolize memcpy i
          t
        ≡ ok (is_only_outbound spec.direction) t
  skips_declaration-specs i spec t found some_specs = rw (some_specs, found) refl

  declare_argument-rest :
      (arg : Argument) (i : ℕ) (spec : ArgSpec) (b : Bool) (t : Trace)
      → get_elem? specs i ≡ some spec
      → (length specs == 0) ≡ false
      → is_only_outbound spec.direction ≡ b
      → declare_argument llvm ndebug iterations_num specs block values1 values2 symbolize memcpy arg
          i t
        ≡ rest_of arg i b t
  unfolding declare_argument rest_of
  declare_argument-rest arg i spec b t found some_specs e =
      ap (λ (r : Run Bool). and_then r (rest_of arg i))
        (skips_declaration-specs i spec t found some_specs)
      ∙ ap (λ x. rest_of arg i x t) e

  size_call : Argument → ArgSpec → Ty → Call
  size_call arg spec e = insert (end_of block) (
      mul (times llvm ndebug iterations_num specs block values1 values2 symbolize memcpy arg spec)
        (get_int64 (llvm.alloc_size e)))

  rest_of-scalar :
      (arg : Argument) (i : ℕ) (spec : ArgSpec) (e : Ty) (v : Value) (t : Trace)
      → is_pointer arg.type ≡ false
      → get_elem? values1 i ≡ some v
      → llvm.type_of t v ≡ ptr e
      → (not (llvm.alloc_size e == 0) || ndebug) ≡ true
      → rest_of arg i false t
        ≡ symbolize_argument llvm ndebug iterations_num specs block values1 values2 symbolize memcpy
            v
            (length t)
            i
            (size_call arg spec e ∷ t)
  unfolding rest_of declare_scalar size_call
  rest_of-scalar arg i spec e v t p g typed sized = rw (p, g, typed, sized) refl

  rest_of-pointer :
      (arg : Argument) (i : ℕ) (spec : ArgSpec) (e : Ty) (v : Value) (t : Trace)
      → arg.type ≡ ptr e
      → get_elem? specs i ≡ some spec
      → get_elem? values1 i ≡ some v
      → (not (llvm.alloc_size e == 0) || ndebug) ≡ true
      → rest_of arg i false t
        ≡ symbolize_argument llvm ndebug iterations_num specs block values1 values2 symbolize memcpy
            v
            (length t)
            i
            (size_call arg spec e ∷ t)
  unfolding rest_of declare_pointer size_call
  rest_of-pointer arg i spec e v t p f g sized = rw (p, f, g, sized) refl

  declare_argument-Declares :
      (arg : Argument) (spec : ArgSpec) (e : Ty) (v w : Value) (i : ℕ) (t : Trace)
      → get_elem? specs i ≡ some spec
      → (length specs == 0) ≡ false
      → get_elem? values1 i ≡ some v
      → get_elem? values2 i ≡ some w
      → HasElement llvm t arg v e
      → (not (llvm.alloc_size e == 0) || ndebug) ≡ true
      → Succeeds
          (declare_argument llvm ndebug iterations_num specs block values1 values2 symbolize memcpy
            arg i t)
          (λ _.
            Declares llvm ndebug iterations_num specs block values1 values2 symbolize memcpy t i
              arg)
  unfolding rest_of size_call
  declare_argument-Declares arg spec e v w i t f some_specs g h element sized =
      elim (Bool-cases (is_only_outbound spec.direction)) [
        | inl passed ↦
            subst (λ r. Succeeds r goal)
              (sym (declare_argument-rest arg i spec true t f some_specs passed))
              (only_output spec f passed refl, λ k c x. x)
        | inr declared ↦
            subst (λ r. Succeeds r goal)
              (sym
                (declare_argument-rest arg i spec false t f some_specs declared ∙ reached element))
              (symbolize_argument-Declares llvm ndebug iterations_num specs block values1 values2
                symbolize memcpy arg spec e v w (length t) i t (size_call arg spec e ∷ t)
                (Extends-cons t t (size_call arg spec e) (λ j y q. q)) (omega arith) (omega arith) f
                declared g h
                (HasElement-Extends llvm t _ arg v e
                  (Extends-cons t t (size_call arg spec e) (λ j y q. q)) element)
                (call_at-new (size_call arg spec e) t))
      ]
    where
      goal : Unit {0} → Trace → Type 0
      goal _ =
          Declares llvm ndebug iterations_num specs block values1 values2 symbolize memcpy t i arg

      reached :
          HasElement llvm t arg v e
          → rest_of arg i false t
            ≡ symbolize_argument llvm ndebug iterations_num specs block values1 values2 symbolize
                memcpy v
                (length t)
                i
                (size_call arg spec e ∷ t)
      reached (of_pointer p) = rest_of-pointer arg i spec e v t p f g sized
      reached (of_value p typed) = rest_of-scalar arg i spec e v t p g (typed t (λ k c x. x)) sized

  -- The arguments from position `i` on have values whose memory has a size that is not zero (or is not
  -- asserted).
  abbrev pub AreDeclarable : Trace → ℕ → List Argument → Type 0
  AreDeclarable t i [] = Unit
  AreDeclarable t i (arg ∷ args) =
      ((v : Value) × (e : Ty) × (get_elem? values1 i ≡ some v)
        × HasElement llvm t arg v e
        × ((not (llvm.alloc_size e == 0) || ndebug) ≡ true))
      × AreDeclarable t (suc i) args

  pub AreDeclarable-Extends :
      (t t' : Trace) (i : ℕ) (args : List Argument)
      → Extends t t'
      → AreDeclarable t i args
      → AreDeclarable t' i args
  AreDeclarable-Extends t t' i [] x a = tt
  AreDeclarable-Extends t t' i (arg ∷ args) x a =
      let (v, e, g, element, sized) = a.0 in
      (
        (v, e, g, HasElement-Extends llvm t t' arg v e x element, sized),
        AreDeclarable-Extends t t' (suc i) args x a.1,
      )

  -- The rounds for the arguments from position `i` on, one after the other, from the first sequence
  -- of calls to the second.
  pub data AreDeclared : Trace → ℕ → List Argument → Trace → Type 0 where
    nothing_declared : {t : Trace} {i : ℕ} → AreDeclared t i [] t
    one_declared :
        {s s₁ t : Trace} {i : ℕ} {arg : Argument} {args : List Argument}
        → IsDeclared llvm ndebug iterations_num specs block values1 values2 symbolize memcpy s s₁ i
            arg
        → Extends s s₁
        → AreDeclared s₁ (suc i) args t
        → AreDeclared s i (arg ∷ args) t

  pub declare_arguments-AreDeclared :
      (args : List Argument) (i : ℕ) (t : Trace)
      → AreDeclarable t i args
      → i + length args ≤ length specs
      → i + length args ≤ length values2
      → Succeeds
          (declare_arguments llvm ndebug iterations_num specs block values1 values2 symbolize memcpy
            args i t)
          (λ _ t'. AreDeclared t i args t' × Extends t t')
  unfolding declare_arguments
  declare_arguments-AreDeclared [] i t a enough enough2 = (nothing_declared, λ k c h. h)
  declare_arguments-AreDeclared (arg ∷ args) i t a enough enough2 =
      let (spec, f) = get_elem?-below specs i (omega arith) in
      let (w, h) = get_elem?-below values2 i (omega arith) in
      let (v, e, g, element, sized) = a.0 in
      Succeeds-and_then
        (λ _.
          Declares llvm ndebug iterations_num specs block values1 values2 symbolize memcpy t i arg)
        (λ _ t'. AreDeclared t i (arg ∷ args) t' × Extends t t')
        (declare_argument llvm ndebug iterations_num specs block values1 values2 symbolize memcpy
          arg i t)
        _
        (declare_argument-Declares arg spec e v w i t f (==_ne (length specs) 0 (λ z. omega arith))
          g h element sized)
        (λ _ t₁ (done, before).
          Succeeds-map (λ _ t'. AreDeclared t₁ (suc i) args t' × Extends t₁ t')
            (λ _ t'. AreDeclared t i (arg ∷ args) t' × Extends t t')
            (declare_arguments llvm ndebug iterations_num specs block values1 values2 symbolize
              memcpy args (suc i) t₁)
            (λ _ t' (others, after).
              (one_declared done before others, λ k c x. after k c (before k c x)))
            (declare_arguments-AreDeclared args (suc i) t₁
              (AreDeclarable-Extends t t₁ (suc i) args before a.1) (omega arith) (omega arith)))
