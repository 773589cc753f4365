-- ===== src/Encapsulation/Keeps/Whole.antt =====
-- The assertions, the calls and the whole harness of SymbolicEncapsulation.cpp only add calls.
use ephippion.Prelude.{
  ℕ, ◌<◌, ◌≡◌, refl, ◌⊎◌, inl, inr, true, false, Bool-cases, length, suc, Bool, Option, none, some,
  List, [], ◌∷◌, Text,
}
use ephippion.Direction.{ArgSpec}
use ephippion.Llvm.{Callee, Function, Block, Value, Llvm, Trace, pure}
use ephippion.Llvm.Keeps.{
  Post, Post-and_then, Keeps, IsMonotone, IsMonotone-MayDeclare, IsMonotone-MayFill, keeps_rules,
  Keeps-pure, Keeps-fail, Keeps-emit, Keeps-bind, Keeps-then, Keeps-ask, Emits, Emits-bind,
  longer-IsMonotone,
}
use ephippion.FuncUtils.Keeps.{declares, declare_func_no_args-Emits}
use ephippion.LoopBuilder.Keeps.{create_loop-Keeps}
use ephippion.Encapsulation.Arguments.{Pushed}
use ephippion.Encapsulation.Assertions.{
  Check, Report, create_check, compare_values, compare_memory, create_checks, end_failures,
  link_failures, redirect_terminator, set_true_successor, link_successes, hook_up, link_checks,
  create_symbolic_assertions,
}
use ephippion.Encapsulation.Calls.{create_call}
use ephippion.Encapsulation.Calls.Keeps.{IsMonotone-MayPlace, pass_arguments-Keeps}
use ephippion.Encapsulation.Harness.{
  Blocks, set_first, create_blocks, link_blocks, create_calls, create_harness, encapsulate_impl,
  encapsulate, encapsulate_with, fill_specs,
}
use ephippion.Encapsulation.Harness.Created.{after_blocks}
use ephippion.Encapsulation.Keeps.{
  pointer_element-Keeps, setup_harness_args-Keeps, create_symbolic_declarations-Keeps,
}

module _ {P : Trace → Type 0} (mono : IsMonotone P) where
  end_failures-Keeps : (cs : List Check) → Keeps P (end_failures cs)
  unfolding end_failures
  end_failures-Keeps [] = Keeps-pure tt
  end_failures-Keeps (c ∷ cs) = Keeps-bind _ _ (Keeps-emit _ mono) (λ _. end_failures-Keeps cs)

  link_failures-Keeps : (end : Block) (cs : List Check) → Keeps P (link_failures end cs)
  unfolding link_failures
  link_failures-Keeps end [] = Keeps-pure tt
  link_failures-Keeps end (c ∷ cs) =
      Keeps-bind _ _ (Keeps-emit _ mono) (λ _. link_failures-Keeps end cs)

module _ (llvm : Llvm) (ndebug : Bool) (n : ℕ) {P : Trace → Type 0} (mono : IsMonotone P) where
  redirect_terminator-Keeps :
      (target : Block) (o : Option ℕ) → Keeps P (redirect_terminator llvm target o)
  redirect_terminator-Keeps target none = Keeps-fail _
  redirect_terminator-Keeps target (some k) = search keeps_rules depth 20

  set_true_successor-Keeps : (b target : Block) → Keeps P (set_true_successor llvm b target)
  unfolding set_true_successor
  set_true_successor-Keeps b target =
      Keeps-bind _ _ (Keeps-ask _) (redirect_terminator-Keeps target)

  link_successes-Keeps : (cs : List Check) → Keeps P (link_successes llvm cs)
  unfolding link_successes
  link_successes-Keeps [] = Keeps-pure tt
  link_successes-Keeps (c ∷ []) = Keeps-pure tt
  link_successes-Keeps (c ∷ c' ∷ cs) =
      Keeps-then _ _ (set_true_successor-Keeps _ _) (link_successes-Keeps (c' ∷ cs))

  hook_up-Keeps : (start end : Block) (cs : List Check) → Keeps P (hook_up llvm start end cs)
  unfolding hook_up
  hook_up-Keeps start end [] = search keeps_rules
  hook_up-Keeps start end (c ∷ cs) = search (keeps_rules, set_true_successor-Keeps)

  link_checks-Keeps :
      (start end : Block) (cs : List Check) → Keeps P (link_checks llvm start end cs)
  unfolding link_checks
  link_checks-Keeps start end cs =
      search
        (keeps_rules, end_failures-Keeps, link_failures-Keeps, link_successes-Keeps, hook_up-Keeps)

  module _ (specs : List ArgSpec) (func : Text) (values1 values2 : List Value)
      (assert_func memcmp : Callee) (r : Report) where
    create_check-Keeps :
        (v : Value) (i : ℕ)
        → Keeps P (create_check llvm ndebug n specs func values1 values2 assert_func memcmp r v i)
    unfolding create_check compare_values compare_memory
    create_check-Keeps v i = search (keeps_rules, pointer_element-Keeps) depth 30

    create_checks-Keeps :
        (vs : List Value) (i : ℕ) (cs : List Check)
        → Keeps P
            (create_checks llvm ndebug n specs func values1 values2 assert_func memcmp r vs i cs)
    unfolding create_checks
    create_checks-Keeps [] i cs = Keeps-pure cs
    create_checks-Keeps (v ∷ vs) i cs =
        search (keeps_rules, create_check-Keeps, create_checks-Keeps vs (suc i)) depth 20

  create_symbolic_assertions-Keeps :
      (name : Text) (start end : Block) (values1 values2 : List Value) (specs : List ArgSpec)
      → Keeps P (create_symbolic_assertions llvm ndebug n name start end values1 values2 specs)
  unfolding create_symbolic_assertions
  create_symbolic_assertions-Keeps name start end values1 values2 specs =
      search (keeps_rules, declares, IsMonotone-MayDeclare, create_checks-Keeps, link_checks-Keeps)
        depth 30

  module _ (func : Function) where
    create_call-Keeps : (b : Block) (args : List Value) → Keeps P (create_call llvm func b args)
    unfolding create_call
    create_call-Keeps b args =
        search (keeps_rules, pass_arguments-Keeps, IsMonotone-MayPlace) depth 20

  set_first-Keeps : (vs : List Value) (v : Value) → Keeps P (set_first vs v)
  set_first-Keeps [] v = Keeps-fail _
  set_first-Keeps (w ∷ vs) v = Keeps-pure _

  create_blocks-Keeps : (name : Text) → Keeps P (create_blocks name)
  unfolding create_blocks
  create_blocks-Keeps name = search keeps_rules depth 40

  link_blocks-Keeps : (b : Blocks) → Keeps P (link_blocks b)
  unfolding link_blocks
  link_blocks-Keeps b = search keeps_rules depth 30

  module _ (name : Text) (func : Function) where
    create_calls-Keeps :
        (b : Blocks) (args : Pushed) → Keeps P (create_calls llvm ndebug name n func b args)
    unfolding create_calls
    create_calls-Keeps b args =
        search (keeps_rules, create_loop-Keeps, set_first-Keeps, create_call-Keeps) depth 30

    pub after_blocks-Keeps :
        (specs : List ArgSpec) (b : Blocks) → Keeps P (after_blocks llvm ndebug name n func specs b)
    unfolding after_blocks
    after_blocks-Keeps specs b =
        search
          (
            keeps_rules, IsMonotone-MayDeclare, IsMonotone-MayFill, setup_harness_args-Keeps,
            create_symbolic_declarations-Keeps, create_symbolic_assertions-Keeps,
            create_calls-Keeps, link_blocks-Keeps,
          )
          depth 30

    create_harness-Keeps :
        (specs : List ArgSpec) → Keeps P (create_harness llvm ndebug name n func specs)
    unfolding create_harness after_blocks
    create_harness-Keeps specs =
        search
          (keeps_rules, declares, IsMonotone-MayDeclare, create_blocks-Keeps, after_blocks-Keeps)
          depth 12

    pub encapsulate-Keeps : Keeps P (encapsulate llvm ndebug name n func)
    unfolding encapsulate encapsulate_impl
    encapsulate-Keeps = search (keeps_rules, create_harness-Keeps)

module _ (llvm : Llvm) (ndebug : Bool) (n : ℕ) (name : Text) (func : Function) where
  pub create_harness-Emits :
      (specs : List ArgSpec) → Emits (create_harness llvm ndebug name n func specs)
  unfolding create_harness
  create_harness-Emits specs =
      search
        (
          Emits-bind, declare_func_no_args-Emits, keeps_rules, declares, IsMonotone-MayDeclare,
          IsMonotone-MayFill, create_blocks-Keeps, setup_harness_args-Keeps,
          create_symbolic_declarations-Keeps, create_symbolic_assertions-Keeps, create_calls-Keeps,
          link_blocks-Keeps, longer-IsMonotone,
        )
        depth 30

  -- What `encapsulateImpl` leaves: a declaration is left alone, any other function gets a harness.
  abbrev pub Encapsulates : Trace → Bool → Trace → Type 0
  Encapsulates t done t' = ((done ≡ false) × (t' ≡ t)) ⊎ ((done ≡ true) × (length t < length t'))

  pub encapsulate_with-Encapsulates :
      (specs : List ArgSpec) (t : Trace)
      → Post (Encapsulates t) (encapsulate_with llvm ndebug name n func specs t)
  unfolding encapsulate_with encapsulate_impl
  encapsulate_with-Encapsulates specs t = elim (Bool-cases func.is_declaration) [
    | inl decl ↦ rw decl (inl (refl, refl))
    | inr body ↦ rw body (
        Post-and_then (λ _ t'. length t < length t') (Encapsulates t) _ (λ _. pure true)
          ((create_harness-Emits (fill_specs (length func.args) (length func.args) specs)).at t)
          (λ _ t' p. inr (refl, p)))
  ]
