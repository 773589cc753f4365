-- ===== src/Encapsulation/Defaults.antt =====
-- When `encapsulateImpl` of SymbolicEncapsulation.cpp stops at a fault.
use ephippion.Prelude.{
  ℕ, zero, suc, ◌≤◌, ◌≡◌, Bool, false, List, [], ◌∷◌, length, Text, arith, ==_refl,
}
use ephippion.Direction.{ArgSpec}
use ephippion.Llvm.{Function, Block, Llvm, Run, ok, fault, Trace, M, and_then, ◌>>=◌, ◌>>◌, IsFault}
use ephippion.LoopBuilder.{create_loop}
use ephippion.Encapsulation.Arguments.{Pushed, setup_harness_args, nothing_pushed}
use ephippion.Encapsulation.Harness.{
  Blocks, create_calls, create_harness, fill_specs, encapsulate_impl, encapsulate_with,
}

-- Every run of `m` stops at a fault.
record Fails {A : Type 0} (m : M A) : Type 0 where
  at : (t : Trace) → IsFault (m t)

and_then-IsFault :
    {A B : Type 0} (r : Run A) (k : A → M B) → ((a : A) → Fails (k a)) → IsFault (and_then r k)
and_then-IsFault (ok a t) k f = (f a).at t
and_then-IsFault (fault e) k f = tt

pub and_then-IsFault_first :
    {A B : Type 0} (r : Run A) (k : A → M B) → IsFault r → IsFault (and_then r k)
and_then-IsFault_first (ok a t) k f = absurd f
and_then-IsFault_first (fault e) k f = tt

module _ {A B : Type 0} where
  Fails-bind : (m : M A) (k : A → M B) → ((a : A) → Fails (k a)) → Fails (m >>= k)
  Fails-bind m k f = record { at = λ t. and_then-IsFault (m t) k f }

  Fails-then : (m : M A) (n : M B) → Fails n → Fails (m >> n)
  Fails-then m n f = record { at = λ t. and_then-IsFault (m t) (λ _. n) (λ _. f) }

  Fails-bind_first : (m : M A) (k : A → M B) → Fails m → Fails (m >>= k)
  Fails-bind_first m k f = record { at = λ t. and_then-IsFault_first (m t) k (f.at t) }

  Fails-then_first : (m : M A) (n : M B) → Fails m → Fails (m >> n)
  Fails-then_first m n f = record { at = λ t. and_then-IsFault_first (m t) (λ _. n) (f.at t) }

module _ (llvm : Llvm) where
  -- "Loop bounds are equal!"
  create_loop-equal_bounds :
      (body : Block) (pre post : Block) (n step : ℕ)
      → Fails (create_loop llvm false (body ∷ []) pre post n n step)
  unfolding create_loop
  create_loop-equal_bounds body pre post n step = record { at = λ t. rw (==_refl n) tt }

  module _ (name : Text) (func : Function) where
    create_calls-Fails :
        (n : ℕ) (b : Blocks) (args : Pushed)
        → n ≤ 1
        → Fails (create_calls llvm false name n func b args)
    unfolding create_calls
    create_calls-Fails zero b args h = record { at = λ t. tt }
    create_calls-Fails (suc zero) b args h =
        search (Fails-bind, Fails-bind_first, create_loop-equal_bounds)
    create_calls-Fails (suc (suc n)) b args h = absurd (omega arith)

    create_harness-Fails :
        (n : ℕ) (specs : List ArgSpec) → n ≤ 1 → Fails (create_harness llvm false name n func specs)
    unfolding create_harness
    create_harness-Fails n specs h =
        search (Fails-bind, Fails-then, Fails-then_first, create_calls-Fails) depth 12

    -- `callArgs1[0]`
    calls-Fails :
        (ndebug : Bool) (n : ℕ) (b : Blocks)
        → Fails (create_calls llvm ndebug name n func b nothing_pushed)
    unfolding create_calls
    calls-Fails ndebug n b = search (Fails-bind)

    no_arguments-harness :
        (ndebug : Bool) (n : ℕ) (specs : List ArgSpec)
        → func.args ≡ []
        → Fails (create_harness llvm ndebug name n func specs)
    unfolding create_harness setup_harness_args
    no_arguments-harness ndebug n specs empty =
        rw empty (search (Fails-bind, Fails-then, Fails-then_first, calls-Fails) depth 12)

    -- With its assertions on, `encapsulateImpl` stops at a fault for every function that has a body,
    -- whatever its parameters, when `IterationsNum` is 0 or 1. One is the default of the option.
    pub few_iterations-Fails :
        (n : ℕ) (specs : List ArgSpec) (t : Trace)
        → n ≤ 1
        → func.is_declaration ≡ false
        → IsFault (encapsulate_with llvm false name n func specs t)
    unfolding encapsulate_with encapsulate_impl
    few_iterations-Fails n specs t h body = rw body (
        (Fails-then_first _ _
            (create_harness-Fails n (fill_specs (length func.args) (length func.args) specs) h)).at
          t)

    -- `encapsulateImpl` stops at a fault for every function without a parameter that has a body,
    -- whatever the number of iterations, with assertions or without.
    pub no_arguments-Fails :
        (ndebug : Bool) (n : ℕ) (specs : List ArgSpec) (t : Trace)
        → func.args ≡ []
        → func.is_declaration ≡ false
        → IsFault (encapsulate_with llvm ndebug name n func specs t)
    unfolding encapsulate_with encapsulate_impl
    no_arguments-Fails ndebug n specs t empty body = rw body (
        (Fails-then_first _ _ (
            no_arguments-harness ndebug n (fill_specs (length func.args) (length func.args) specs)
              empty)).at
          t)
