-- ===== src/Encapsulation/Arguments/Counts.antt =====
-- How much `setupHarnessArgs` of SymbolicEncapsulation.cpp pushes onto its three lists.
use ephippion.Prelude.{
  ℕ, suc, ◌+◌, ◌*◌, ◌≤◌, ◌≡◌, refl, subst, Bool, true, false, not, if◌then◌else◌, List, [], ◌∷◌,
  length, length-append, arith, reverse,
}
use ephippion.Direction.{ArgSpec, ArgDirection}
use ephippion.Llvm.{
  Argument, Callee, Block, Value, Llvm, Run, ok, fault, Trace, M, is_pointer, pure, ◌>>=◌, ◌>>◌,
}
use ephippion.Llvm.Keeps.{Post, Post-and_then}
use ephippion.Encapsulation.Arguments.{
  Pushed, push, nothing_pushed, direction_at, setup_scalar, setup_pointer, setup_argument,
  setup_arguments, setup_harness_args, release_all,
}

-- After `n` arguments: a value for each of them and each call, and at most two blocks to free for each.
abbrev pub IsCounted : ℕ → Pushed → Type 0
IsCounted n s =
    (length s.call_args1 ≡ n) × (length s.call_args2 ≡ n) × (length s.heap_allocs ≤ 2 * n)

push-IsCounted :
    (n : ℕ) (s : Pushed) (v w : Value) (hs : List Value)
    → length hs ≤ 2
    → IsCounted n s
    → IsCounted (suc n) (push s v w hs)
push-IsCounted n s v w hs two (one, other, heap) = (
  omega (arith, length-append s.call_args1 (v ∷ []), one),
  omega (arith, length-append s.call_args2 (w ∷ []), other),
  omega (arith, length-append s.heap_allocs hs, two, heap),
)

-- Every run of `m` that returns gives a value for which `Q` holds.
record Returns {A : Type 0} (Q : A → Type 0) (m : M A) : Type 0 where
  at : (t : Trace) → Post (λ a _. Q a) (m t)

Returns-pure : {A : Type 0} {Q : A → Type 0} (a : A) → Q a → Returns Q (pure a)
Returns-pure a q = record { at = λ t. q }

Returns-if :
    {A : Type 0} {Q : A → Type 0} (b : Bool) (m n : M A)
    → Returns Q m
    → Returns Q n
    → Returns Q (if b then m else n)
Returns-if true m n rm rn = rm
Returns-if false m n rm rn = rn

module _ {A B : Type 0} {P : A → Type 0} {Q : B → Type 0} where
  Returns-from :
      (m : M A) (k : A → M B)
      → Returns P m
      → ((a : A) → P a → Returns Q (k a))
      → Returns Q (m >>= k)
  Returns-from m k rm rk = record {
    at = λ t. Post-and_then (λ a _. P a) (λ b _. Q b) (m t) k (rm.at t) (λ a t' p. (rk a p).at t');
  }

Post-any : {A : Type 0} (r : Run A) → Post (λ _ _. Unit {0}) r
Post-any (ok a t) = tt
Post-any (fault e) = tt

module _ {A B : Type 0} {Q : B → Type 0} where
  Returns-bind : (m : M A) (k : A → M B) → ((a : A) → Returns Q (k a)) → Returns Q (m >>= k)
  Returns-bind m k rk = record {
    at = λ t.
        Post-and_then (λ _ _. Unit {0}) (λ b _. Q b) (m t) k (Post-any (m t))
          (λ a t' u. (rk a).at t');
  }

  Returns-then : (m : M A) (n : M B) → Returns Q n → Returns Q (m >> n)
  Returns-then m n rn = record {
    at = λ t.
        Post-and_then (λ _ _. Unit {0}) (λ b _. Q b) (m t) (λ _. n) (Post-any (m t))
          (λ a t' u. rn.at t');
  }

ruleset returns_rules = (Returns-bind, Returns-then, Returns-if, Returns-pure)

module _ (llvm : Llvm) (ndebug : Bool) (iterations : ℕ) (specs : List ArgSpec) (setup : Block) where
  setup_scalar-IsCounted :
      (n : ℕ) (arg : Argument) (dir : ArgDirection) (s : Pushed)
      → IsCounted n s
      → Returns (IsCounted (suc n)) (setup_scalar llvm ndebug iterations specs setup arg dir s)
  unfolding setup_scalar
  setup_scalar-IsCounted n arg dir s c =
      let none_freed : (v w : Value) → IsCounted (suc n) (push s v w []) =
        λ v w. push-IsCounted n s v w [] (omega arith) c in
      search (returns_rules, none_freed)

  setup_pointer-IsCounted :
      (n : ℕ) (heap_alloc : Callee) (arg : Argument) (i : ℕ) (dir : ArgDirection) (s : Pushed)
      → IsCounted n s
      → Returns
          (IsCounted (suc n))
          (setup_pointer llvm ndebug iterations specs setup heap_alloc arg i dir s)
  unfolding setup_pointer
  setup_pointer-IsCounted n heap_alloc arg i dir s c =
      let one_freed : (v w x : Value) → IsCounted (suc n) (push s v w (x ∷ [])) =
        λ v w x. push-IsCounted n s v w (x ∷ []) (omega arith) c in
      let two_freed : (v w x y : Value) → IsCounted (suc n) (push s v w (x ∷ y ∷ [])) =
        λ v w x y. push-IsCounted n s v w (x ∷ y ∷ []) (omega arith) c in
      search (returns_rules, one_freed, two_freed) depth 20

  setup_argument-IsCounted :
      (n : ℕ) (heap_alloc : Callee) (arg : Argument) (i : ℕ) (s : Pushed)
      → IsCounted n s
      → Returns
          (IsCounted (suc n))
          (setup_argument llvm ndebug iterations specs setup heap_alloc arg i s)
  unfolding setup_argument
  setup_argument-IsCounted n heap_alloc arg i s c =
      Returns-if (not (is_pointer arg.type)) _ _
        (setup_scalar-IsCounted n arg (direction_at specs i) s c)
        (setup_pointer-IsCounted n heap_alloc arg i (direction_at specs i) s c)

  setup_arguments-IsCounted :
      (n : ℕ) (heap_alloc : Callee) (args : List Argument) (i : ℕ) (s : Pushed)
      → IsCounted n s
      → Returns
          (IsCounted (n + length args))
          (setup_arguments llvm ndebug iterations specs setup heap_alloc args i s)
  unfolding setup_arguments
  setup_arguments-IsCounted n heap_alloc [] i s c =
      let same : n ≡ n + 0 = omega arith in Returns-pure _ (subst (λ k. IsCounted k s) same c)
  setup_arguments-IsCounted n heap_alloc (arg ∷ args) i s c =
      let next : suc n + length args ≡ n + length (arg ∷ args) = omega arith in
      Returns-from _ _ (setup_argument-IsCounted n heap_alloc arg i s c) (λ s' c'.
        subst
          (λ k.
            Returns (IsCounted k)
              (setup_arguments llvm ndebug iterations specs setup heap_alloc args (suc i) s'))
          next (setup_arguments-IsCounted (suc n) heap_alloc args (suc i) s' c'))

  released :
      (teardown : Block) (args : List Argument) (heap_alloc heap_dealloc : Callee)
      → Returns (IsCounted (length args)) (
          setup_arguments llvm ndebug iterations specs setup heap_alloc args 0 nothing_pushed
          >>= λ s. release_all teardown heap_dealloc (reverse s.heap_allocs) >> pure s)
  released teardown args heap_alloc heap_dealloc =
      let same : 0 + length args ≡ length args = omega arith in
      Returns-from
        (setup_arguments llvm ndebug iterations specs setup heap_alloc args 0 nothing_pushed)
        (λ s. release_all teardown heap_dealloc (reverse s.heap_allocs) >> pure s)
        (subst
          (λ k.
            Returns (IsCounted k)
              (setup_arguments llvm ndebug iterations specs setup heap_alloc args 0 nothing_pushed))
          same
          (setup_arguments-IsCounted 0 heap_alloc args 0 nothing_pushed (refl, refl, omega arith)))
        (λ s c.
          Returns-then (release_all teardown heap_dealloc (reverse s.heap_allocs)) (pure s)
            (Returns-pure s c))

module _ (llvm : Llvm) (ndebug : Bool) (iterations : ℕ) where
  -- Every run of `setupHarnessArgs` that returns has pushed a value for each parameter and each call,
  -- and no more blocks to free than two for each parameter, whatever the descriptions are.
  pub setup_harness_args-IsCounted :
      (args : List Argument) (specs : List ArgSpec) (setup teardown : Block) (t : Trace)
      → Post
          (λ s _. IsCounted (length args) s)
          (setup_harness_args llvm ndebug iterations args specs setup teardown t)
  unfolding setup_harness_args
  setup_harness_args-IsCounted [] specs setup teardown t = (refl, refl, omega arith)
  setup_harness_args-IsCounted (arg ∷ args) specs setup teardown t =
      let counted : Returns (IsCounted (length (arg ∷ args)))
          (setup_harness_args llvm ndebug iterations (arg ∷ args) specs setup teardown) =
        search (returns_rules, released llvm ndebug iterations specs setup teardown (arg ∷ args)) in
      counted.at t
