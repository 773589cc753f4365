-- ===== src/Encapsulation/Declarations/Symbolic.antt =====
-- What `createSymbolicDeclarations` of SymbolicEncapsulation.cpp does for one argument.
use ephippion.Prelude.{
  ℕ, suc, ◌<◌, ◌≤◌, ◌≡◌, ◌∙◌, Bool, true, false, some, List, [], ◌∷◌, ◌++◌, length, get_elem?,
  Bool-cases, inl, inr, if◌then◌else◌, Text, bytes, to_string, arith,
}
use ephippion.Direction.{ArgSpec, is_outbound, is_only_outbound}
use ephippion.Llvm.{
  Ty, ptr, is_pointer, Argument, Callee, Block, Value, result, call, mul, Call, insert, end_of,
  global_string_ptr, call_at, Llvm, Trace, Succeeds,
}
use ephippion.Ir.Positions.{Extends, Extends-cons, call_at-new, call_at-old}
use ephippion.Encapsulation.Sizes.{multiplier, get_int64}
use ephippion.Encapsulation.Declarations.{symbolize_value, symbolize_argument}

module _ (llvm : Llvm) where
  -- What the first value of an argument points to: for a pointer what its own type says, otherwise
  -- what the value's type says from `t` on.
  pub data HasElement (t : Trace) (arg : Argument) (v : Value) (e : Ty) : Type 0 where
    of_pointer : arg.type ≡ ptr e → HasElement t arg v e
    of_value :
        is_pointer arg.type ≡ false
        → ((t' : Trace) → Extends t t' → llvm.type_of t' v ≡ ptr e)
        → HasElement t arg v e

  pub HasElement-Extends :
      (t t' : Trace) (arg : Argument) (v : Value) (e : Ty)
      → Extends t t'
      → HasElement t arg v e
      → HasElement t' arg v e
  HasElement-Extends t t' arg v e x (of_pointer p) = of_pointer p
  HasElement-Extends t t' arg v e x (of_value p typed) =
      of_value p (λ u y. typed u (λ k c h. y k c (x k c h)))

module _ (llvm : Llvm) (ndebug : Bool) (iterations_num : ℕ) (specs : List ArgSpec) (block : Block)
    (values1 values2 : List Value) (symbolize memcpy : Callee) where
  -- as many elements as iterations for a pointer whose description says so, else one
  abbrev pub times : Argument → ArgSpec → Value
  times arg spec =
      if is_pointer arg.type then multiplier spec.iterator_dependent iterations_num else get_int64 1

  abbrev pub IsSizeOf : Trace → Argument → ArgSpec → Ty → ℕ → Type 0
  IsSizeOf t arg spec e size =
      call_at t size
      ≡ some (insert (end_of block) (mul (times arg spec) (get_int64 (llvm.alloc_size e))))

  -- The call at `l` makes the memory of `v` symbolic, under a name with this prefix and index.
  abbrev pub IsSymbolic : Trace → Text → ℕ → Value → ℕ → ℕ → Type 0
  IsSymbolic t prefix i v size l =
      (k : ℕ) × (name : Text) × (call_at t k
        ≡ some (global_string_ptr (prefix ++ (name ++ to_string i))))
      × (call_at t l
          ≡ some (insert (end_of block) (call symbolize (v ∷ result size ∷ result k ∷ []))))

  IsSymbolic-Extends :
      (t t' : Trace) (prefix : Text) (i : ℕ) (v : Value) (size l : ℕ)
      → Extends t t'
      → IsSymbolic t prefix i v size l
      → IsSymbolic t' prefix i v size l
  IsSymbolic-Extends t t' prefix i v size l x (k, name, a, b) = (k, name, x _ _ a, x _ _ b)

  -- What the round for the argument at `i` does, from `s` to `t`: no call at all if the argument is
  -- only an output; else, with new calls in this order, its memory is made symbolic, and if it is an
  -- output as well so is that of the second call, into which the first is then copied.
  pub data IsDeclared (s t : Trace) (i : ℕ) (arg : Argument) : Type 0 where
    only_output :
        (spec : ArgSpec)
        → get_elem? specs i ≡ some spec
        → is_only_outbound spec.direction ≡ true
        → t ≡ s
        → IsDeclared s t i arg
    only_input :
        (spec : ArgSpec) (e : Ty) (v : Value) (size l : ℕ)
        → get_elem? specs i ≡ some spec
        → is_only_outbound spec.direction ≡ false
        → is_outbound spec.direction ≡ false
        → get_elem? values1 i ≡ some v
        → HasElement llvm t arg v e
        → IsSizeOf t arg spec e size
        → IsSymbolic t (bytes "sym.in1.") i v size l
        → length s ≤ size
        → size < l
        → IsDeclared s t i arg
    input_and_output :
        (spec : ArgSpec) (e : Ty) (v w : Value) (size l m n : ℕ)
        → get_elem? specs i ≡ some spec
        → is_only_outbound spec.direction ≡ false
        → is_outbound spec.direction ≡ true
        → get_elem? values1 i ≡ some v
        → get_elem? values2 i ≡ some w
        → HasElement llvm t arg v e
        → IsSizeOf t arg spec e size
        → IsSymbolic t (bytes "sym.in1.") i v size l
        → IsSymbolic t (bytes "sym.in2.") i w size m
        → call_at t n ≡ some (insert (end_of block) (call memcpy (w ∷ v ∷ result size ∷ [])))
        → length s ≤ size
        → size < l
        → l < m
        → m < n
        → IsDeclared s t i arg

  -- what one round leaves
  abbrev pub Declares : Trace → ℕ → Argument → Trace → Type 0
  Declares s i arg t = IsDeclared s t i arg × Extends s t

  symbolized : Text → Value → ℕ → ℕ → Trace → Trace
  symbolized prefix v size i t =
      insert (end_of block) (call symbolize (v ∷ result size ∷ result (length t) ∷ []))
      ∷ global_string_ptr (prefix ++ (llvm.name_of t v ++ to_string i))
      ∷ t

  symbolized-IsSymbolic :
      (prefix : Text) (v : Value) (size i : ℕ) (t : Trace)
      → IsSymbolic (symbolized prefix v size i t) prefix i v size (suc (length t))
  unfolding symbolized
  symbolized-IsSymbolic prefix v size i t = (
    length t,
    llvm.name_of t v,
    call_at-old _ _ (length t) (omega arith) ∙ call_at-new _ t,
    call_at-new _ _,
  )

  symbolized-Extends :
      (prefix : Text) (v : Value) (size i : ℕ) (t : Trace)
      → Extends t (symbolized prefix v size i t)
  unfolding symbolized
  symbolized-Extends prefix v size i t = Extends-cons t _ _ (Extends-cons t t _ (λ k c h. h))

  pub symbolize_argument-Declares :
      (arg : Argument) (spec : ArgSpec) (e : Ty) (v w : Value) (size i : ℕ) (s t : Trace)
      → Extends s t
      → length s ≤ size
      → size < length t
      → get_elem? specs i ≡ some spec
      → is_only_outbound spec.direction ≡ false
      → get_elem? values1 i ≡ some v
      → get_elem? values2 i ≡ some w
      → HasElement llvm t arg v e
      → IsSizeOf t arg spec e size
      → Succeeds
          (symbolize_argument llvm ndebug iterations_num specs block values1 values2 symbolize
            memcpy v size i t)
          (λ _. Declares s i arg)
  unfolding symbolize_argument symbolize_value symbolized
  symbolize_argument-Declares arg spec e v w size i s t x₀ new below f o g h el z =
      let t₁ : Trace = symbolized (bytes "sym.in1.") v size i t in
      let x₁ : Extends t t₁ = symbolized-Extends (bytes "sym.in1.") v size i t in
      let s₁ = symbolized-IsSymbolic (bytes "sym.in1.") v size i t in
      elim (Bool-cases (is_outbound spec.direction)) [
        | inr input ↦
            rw (f, input)
              (
                only_input spec e v size (suc (length t)) f o input g
                    (HasElement-Extends llvm t t₁ arg v e x₁ el) (x₁ _ _ z) s₁ new (omega arith),
                λ k c y. x₁ k c (x₀ k c y),
              )
        | inl output ↦
            let t₂ : Trace = symbolized (bytes "sym.in2.") w size i t₁ in
            let x₂ : Extends t₁ t₂ = symbolized-Extends (bytes "sym.in2.") w size i t₁ in
            let s₂ = symbolized-IsSymbolic (bytes "sym.in2.") w size i t₁ in
            let copy : Call = insert (end_of block) (call memcpy (w ∷ v ∷ result size ∷ [])) in
            let x₃ : Extends t₂ (copy ∷ t₂) = Extends-cons t₂ t₂ copy (λ k c h. h) in
            rw (f, output, h)
              (
                input_and_output spec e v w size (suc (length t)) (suc (length t₁)) (length t₂) f o
                    output g h
                    (HasElement-Extends llvm t (copy ∷ t₂) arg v e
                      (λ k c y. x₃ k c (x₂ k c (x₁ k c y))) el)
                    (x₃ _ _ (x₂ _ _ (x₁ _ _ z)))
                    (IsSymbolic-Extends t₁ (copy ∷ t₂) (bytes "sym.in1.") i v size _
                      (λ k c y. x₃ k c (x₂ k c y)) s₁)
                    (IsSymbolic-Extends t₂ (copy ∷ t₂) (bytes "sym.in2.") i w size _ x₃ s₂)
                    (call_at-new copy t₂) new (omega arith) (omega arith) (omega arith),
                λ k c y. x₃ k c (x₂ k c (x₁ k c (x₀ k c y))),
              )
      ]
