-- ===== src/Encapsulation/Calls/Passed.antt =====
-- The arguments that `createCall` of SymbolicEncapsulation.cpp passes on.
use ephippion.Prelude.{
  ℕ, suc, ◌+◌, ◌≤◌, ◌≡◌, sym, subst, ◌∙◌, true, false, some, List, [], ◌∷◌, ◌++◌, append_assoc,
  append-nil, length, get_elem?, get_elem?-below, Bool-cases, inl, inr, arith,
}
use ephippion.Llvm.{
  Ty, ty_eq, is_pointer, Function, type_of_function, callee, Block, Value, result, call, load,
  bit_cast, Point, Call, insert, zext_or_bit_cast, call_at, Llvm, Trace, build, pure, ◌>>◌,
  Succeeds, Succeeds-and_then, Succeeds-map,
}
use ephippion.Ir.Positions.{Extends, Extends-cons, call_at-new}
use ephippion.Encapsulation.Calls.{
  insert_point, pass_argument, pass_arguments, pass_pointer, pass_value, create_call,
}

module _ (llvm : Llvm) (func : Function) where
  -- What is passed for the value `v` of parameter `i`, by what LLVM says of it at a point `u` of the
  -- run from `t₀` to `t`: what is stored at a place on the stack; any other pointer cast to the
  -- parameter's type; a value of the parameter's type itself; and any other value cast, by an
  -- instruction that is in no block.
  pub data IsPassed (t₀ t : Trace) (p : Point) (i : ℕ) (v : Value) : Value → Type 0 where
    loaded :
        (u : Trace) (k : ℕ)
        → Extends t₀ u
        → Extends u t
        → is_pointer (llvm.type_of u v) ≡ true
        → llvm.is_alloca u v ≡ true
        → call_at t k ≡ some (insert p (load v))
        → IsPassed t₀ t p i v (result k)
    pointer_cast :
        (u : Trace) (k : ℕ) (type : Ty)
        → Extends t₀ u
        → Extends u t
        → is_pointer (llvm.type_of u v) ≡ true
        → llvm.is_alloca u v ≡ false
        → get_elem? (type_of_function func).params i ≡ some type
        → call_at t k ≡ some (insert p (bit_cast v type))
        → IsPassed t₀ t p i v (result k)
    value_itself :
        (u : Trace) (type : Ty)
        → Extends t₀ u
        → Extends u t
        → is_pointer (llvm.type_of u v) ≡ false
        → get_elem? (type_of_function func).params i ≡ some type
        → ty_eq type (llvm.type_of u v) ≡ true
        → IsPassed t₀ t p i v v
    value_cast :
        (u : Trace) (k : ℕ) (type : Ty)
        → Extends t₀ u
        → Extends u t
        → is_pointer (llvm.type_of u v) ≡ false
        → get_elem? (type_of_function func).params i ≡ some type
        → ty_eq type (llvm.type_of u v) ≡ false
        → call_at t k ≡ some (zext_or_bit_cast v type)
        → IsPassed t₀ t p i v (result k)

  -- A run that begins earlier and ends later.
  IsPassed-Extends :
      (s t₀ t t' : Trace) (p : Point) (i : ℕ) (v a : Value)
      → Extends s t₀
      → Extends t t'
      → IsPassed t₀ t p i v a
      → IsPassed s t' p i v a
  IsPassed-Extends s t₀ t t' p i v a x y (loaded u k f g b c h) =
      loaded u k (λ j d q. f j d (x j d q)) (λ j d q. y j d (g j d q)) b c (y _ _ h)
  IsPassed-Extends s t₀ t t' p i v a x y (pointer_cast u k ty f g b c e h) =
      pointer_cast u k ty (λ j d q. f j d (x j d q)) (λ j d q. y j d (g j d q)) b c e (y _ _ h)
  IsPassed-Extends s t₀ t t' p i v a x y (value_itself u ty f g b c e) =
      value_itself u ty (λ j d q. f j d (x j d q)) (λ j d q. y j d (g j d q)) b c e
  IsPassed-Extends s t₀ t t' p i v a x y (value_cast u k ty f g b c e h) =
      value_cast u k ty (λ j d q. f j d (x j d q)) (λ j d q. y j d (g j d q)) b c e (y _ _ h)

  abbrev Passes : Point → ℕ → Value → Trace → Value → Trace → Type 0
  Passes p i v t a t' = IsPassed t t' p i v a × Extends t t'

  -- one more call
  one_call : (t : Trace) (c : Call) → Extends t (c ∷ t)
  one_call t c = Extends-cons t t c (λ k d h. h)

  pass_argument-Passes :
      (p : Point) (v : Value) (i : ℕ) (type : Ty) (t : Trace)
      → get_elem? (type_of_function func).params i ≡ some type
      → Succeeds (pass_argument llvm func p v i t) (Passes p i v t)
  unfolding pass_argument pass_pointer pass_value
  pass_argument-Passes p v i type t f = elim (Bool-cases (is_pointer (llvm.type_of t v))) [
    | inl pointer ↦ elim (Bool-cases (llvm.is_alloca t v)) [
      | inl stack ↦
          rw (pointer, stack)
            (
              loaded t (length t) (λ k c h. h) (one_call t _) pointer stack (call_at-new _ t),
              one_call t _,
            )
      | inr heap ↦
          rw (pointer, heap, f)
            (
              pointer_cast t (length t) type (λ k c h. h) (one_call t _) pointer heap f
                  (call_at-new _ t),
              one_call t _,
            )
    ]
    | inr scalar ↦ elim (Bool-cases (ty_eq type (llvm.type_of t v))) [
      | inl same ↦
          rw (scalar, f, same)
            (value_itself t type (λ k c h. h) (λ k c h. h) scalar f same, λ k c h. h)
      | inr other_type ↦
          rw (scalar, f, other_type)
            (
              value_cast t (length t) type (λ k c h. h) (one_call t _) scalar f other_type
                  (call_at-new _ t),
              one_call t _,
            )
    ]
  ]

  -- the arguments for the parameters from `i` on, in order
  pub data ArePassed (t₀ t : Trace) (p : Point) : ℕ → List Value → List Value → Type 0 where
    none_left : {i : ℕ} → ArePassed t₀ t p i [] []
    one_more :
        {i : ℕ} {v a : Value} {vs bs : List Value}
        → IsPassed t₀ t p i v a
        → ArePassed t₀ t p (suc i) vs bs
        → ArePassed t₀ t p i (v ∷ vs) (a ∷ bs)

  pub ArePassed-Extends :
      (s t₀ t t' : Trace) (p : Point) (i : ℕ) (vs bs : List Value)
      → Extends s t₀
      → Extends t t'
      → ArePassed t₀ t p i vs bs
      → ArePassed s t' p i vs bs
  ArePassed-Extends s t₀ t t' p i vs bs x y none_left = none_left
  ArePassed-Extends s t₀ t t' p i (v ∷ vs) (a ∷ bs) x y (one_more first others) =
      one_more (IsPassed-Extends s t₀ t t' p i v a x y first)
        (ArePassed-Extends s t₀ t t' p (suc i) vs bs x y others)

  abbrev pub PassesAll : Point → ℕ → List Value → List Value → Trace → List Value → Trace → Type 0
  PassesAll p i vs actual t actual' t' =
      (new : List Value) × (actual' ≡ actual ++ new) × ArePassed t t' p i vs new × Extends t t'

  pub pass_arguments-PassesAll :
      (p : Point) (vs : List Value) (i : ℕ) (actual : List Value) (t : Trace)
      → i + length vs ≤ length (type_of_function func).params
      → Succeeds (pass_arguments llvm func p vs i actual t) (PassesAll p i vs actual t)
  unfolding pass_arguments
  pass_arguments-PassesAll p [] i actual t enough =
      ([], sym (append-nil actual), none_left, λ k c h. h)
  pass_arguments-PassesAll p (v ∷ vs) i actual t enough =
      let (type, f) = get_elem?-below (type_of_function func).params i (omega arith) in
      Succeeds-and_then (Passes p i v t) (PassesAll p i (v ∷ vs) actual t)
        (pass_argument llvm func p v i t) _ (pass_argument-Passes p v i type t f)
        (λ a t₁ (first, before).
          Succeeds-map (PassesAll p (suc i) vs (actual ++ a ∷ []) t₁)
            (PassesAll p i (v ∷ vs) actual t)
            (pass_arguments llvm func p vs (suc i) (actual ++ a ∷ []) t₁)
            (λ actual' t' (new, e, others, after). (
              a ∷ new,
              e ∙ append_assoc actual (a ∷ []) new,
              one_more (IsPassed-Extends t t t₁ t' p i v a (λ k c h. h) after first)
                  (ArePassed-Extends t t₁ t' t' p (suc i) vs new before (λ k c h. h) others),
              λ k c h. after k c (before k c h),
            ))
            (pass_arguments-PassesAll p vs (suc i) (actual ++ a ∷ []) t₁ (omega arith)))

  -- The call of the function at `p`, with what is passed for each argument.
  abbrev pub IsCalled : Trace → Point → List Value → Trace → Type 0
  IsCalled t p args t' =
      (actual : List Value) × (k : ℕ) × (call_at t' k
        ≡ some (insert p (call (callee func.name (type_of_function func)) actual)))
      × ArePassed t t' p 0 args actual

  -- For no more arguments than parameters: `createCall` returns, and has made a call of the function
  -- in front of the terminator of the block, or at its end if it has none, that passes for each
  -- argument, in order and by what LLVM says of it during the run: what is stored at it, if it is a place on the stack; any other pointer cast
  -- to the parameter's type; a value of the parameter's type itself; any other value cast by an
  -- instruction in no block.
  pub create_call-IsCalled :
      (block : Block) (args : List Value) (t : Trace)
      → length args ≤ length (type_of_function func).params
      → Succeeds
          (create_call llvm func block args t)
          (λ _. IsCalled t (insert_point block (llvm.terminator t block)) args)
  unfolding create_call
  create_call-IsCalled block args t enough =
      Succeeds-and_then (PassesAll p 0 args [] t) (λ _. IsCalled t p args)
        (pass_arguments llvm func p args 0 [] t)
        (λ actual. build p (call (callee func.name (type_of_function func)) actual) >> pure tt)
        (pass_arguments-PassesAll p args 0 [] t (omega arith))
        (λ actual t₁ (new, e, passed, after). (
          actual,
          length t₁,
          call_at-new _ t₁,
          ArePassed-Extends t t t₁ _ p 0 args actual (λ k c h. h) (one_call t₁ _)
              (subst (λ bs. ArePassed t t₁ p 0 args bs) (sym e) passed),
        ))
    where
      p : Point
      p = insert_point block (llvm.terminator t block)
