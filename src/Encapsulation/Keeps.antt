-- ===== src/Encapsulation/Keeps.antt =====
-- The harness builder of SymbolicEncapsulation.cpp only adds calls.
pub mod Whole
use ephippion.Prelude.{refl, ℕ, suc, Bool, Option, none, some, List, [], ◌∷◌, Text}
use ephippion.Direction.{ArgDirection, ArgSpec}
use ephippion.Llvm.{
  Ty, int, ptr, void, other, Argument, Callee, Function, Point, Block, Value, Llvm, Trace,
}
use ephippion.Llvm.Keeps.{
  Keeps, MayDeclare, MayFill, work_rules, Keeps-pure, Keeps-if, Keeps-work, Keeps-bind, Keeps-then,
  Keeps-ask,
}
use ephippion.FuncUtils.Keeps.{declares}
use ephippion.LoopBuilder.Keeps.{create_loop-Keeps}
use ephippion.Encapsulation.Sizes.{pointer_element}
use ephippion.Encapsulation.Arguments.{
  Pushed, setup_scalar, setup_pointer, setup_argument, setup_arguments, release_all,
  setup_harness_args,
}
use ephippion.Encapsulation.Declarations.{
  symbolize_value, symbolize_argument, declare_scalar, declare_pointer, declare_argument,
  declare_arguments, create_symbolic_declarations,
}

module _ {P : Trace → Type 0} where
  pub pointer_element-Keeps : (ty : Ty) → Keeps P (pointer_element ty)
  pointer_element-Keeps (ptr t) = search work_rules
  pointer_element-Keeps (int w) = search work_rules
  pointer_element-Keeps void = search work_rules
  pointer_element-Keeps (other n) = search work_rules

module _ (llvm : Llvm) (ndebug : Bool) (n : ℕ) {P : Trace → Type 0} (may : MayDeclare P) where
  setup_scalar-Keeps :
      (specs : List ArgSpec) (setup : Block) (arg : Argument) (dir : ArgDirection) (s : Pushed)
      → MayFill P setup
      → Keeps P (setup_scalar llvm ndebug n specs setup arg dir s)
  unfolding setup_scalar
  setup_scalar-Keeps specs setup arg dir s fill = search work_rules depth 20

  setup_pointer-Keeps :
      (specs : List ArgSpec) (setup : Block) (f : Callee) (arg : Argument) (i : ℕ)
      (dir : ArgDirection) (s : Pushed)
      → MayFill P setup
      → Keeps P (setup_pointer llvm ndebug n specs setup f arg i dir s)
  unfolding setup_pointer
  setup_pointer-Keeps specs setup f arg i dir s fill =
      search (work_rules, pointer_element-Keeps) depth 20

  setup_argument-Keeps :
      (specs : List ArgSpec) (setup : Block) (f : Callee) (arg : Argument) (i : ℕ) (s : Pushed)
      → MayFill P setup
      → Keeps P (setup_argument llvm ndebug n specs setup f arg i s)
  unfolding setup_argument
  setup_argument-Keeps specs setup f arg i s fill =
      Keeps-if _ _ _ (setup_scalar-Keeps specs setup arg _ s fill)
        (setup_pointer-Keeps specs setup f arg i _ s fill)

  setup_arguments-Keeps :
      (specs : List ArgSpec) (setup : Block) (f : Callee) (args : List Argument) (i : ℕ)
      (s : Pushed)
      → MayFill P setup
      → Keeps P (setup_arguments llvm ndebug n specs setup f args i s)
  unfolding setup_arguments
  setup_arguments-Keeps specs setup f [] i s fill = Keeps-pure s
  setup_arguments-Keeps specs setup f (arg ∷ args) i s fill =
      Keeps-bind _ _ (setup_argument-Keeps specs setup f arg i s fill)
        (λ s'. setup_arguments-Keeps specs setup f args (suc i) s' fill)

  release_all-Keeps :
      (teardown : Block) (f : Callee) (allocs : List Value)
      → MayFill P teardown
      → Keeps P (release_all teardown f allocs)
  unfolding release_all
  release_all-Keeps teardown f [] fill = Keeps-pure tt
  release_all-Keeps teardown f (a ∷ allocs) fill =
      Keeps-bind _ _ (Keeps-work _ _ refl fill) (λ _. release_all-Keeps teardown f allocs fill)

  pub setup_harness_args-Keeps :
      (args : List Argument) (specs : List ArgSpec) (setup teardown : Block)
      → MayFill P setup
      → MayFill P teardown
      → Keeps P (setup_harness_args llvm ndebug n args specs setup teardown)
  unfolding setup_harness_args
  setup_harness_args-Keeps [] specs setup teardown fill fill' = Keeps-pure _
  setup_harness_args-Keeps (arg ∷ args) specs setup teardown fill fill' =
      search (work_rules, declares, setup_arguments-Keeps, release_all-Keeps) depth 20

  module _ (specs : List ArgSpec) (block : Block) (values1 values2 : List Value)
      (symbolize memcpy : Callee) (fill : MayFill P block) where
    symbolize_value-Keeps :
        (prefix : Text) (v : Value) (size i : ℕ)
        → Keeps P (
            symbolize_value llvm ndebug n specs block values1 values2 symbolize memcpy prefix v size
              i)
    unfolding symbolize_value
    symbolize_value-Keeps prefix v size i = search work_rules depth 20

    symbolize_argument-Keeps :
        (v : Value) (size i : ℕ)
        → Keeps P
            (symbolize_argument llvm ndebug n specs block values1 values2 symbolize memcpy v size i)
    unfolding symbolize_argument
    symbolize_argument-Keeps v size i = search (work_rules, symbolize_value-Keeps) depth 20

    declare_argument-Keeps :
        (arg : Argument) (i : ℕ)
        → Keeps P
            (declare_argument llvm ndebug n specs block values1 values2 symbolize memcpy arg i)
    unfolding declare_argument declare_scalar declare_pointer
    declare_argument-Keeps arg i =
        search (work_rules, pointer_element-Keeps, symbolize_argument-Keeps) depth 20

    declare_arguments-Keeps :
        (args : List Argument) (i : ℕ)
        → Keeps P
            (declare_arguments llvm ndebug n specs block values1 values2 symbolize memcpy args i)
    unfolding declare_arguments
    declare_arguments-Keeps [] i = Keeps-pure tt
    declare_arguments-Keeps (arg ∷ args) i =
        Keeps-then _ _ (declare_argument-Keeps arg i) (declare_arguments-Keeps args (suc i))

  pub create_symbolic_declarations-Keeps :
      (block : Block) (args : List Argument) (values1 values2 : List Value) (specs : List ArgSpec)
      → MayFill P block
      → Keeps P (create_symbolic_declarations llvm ndebug n block args values1 values2 specs)
  unfolding create_symbolic_declarations
  create_symbolic_declarations-Keeps block args values1 values2 specs fill =
      search (work_rules, declares, declare_arguments-Keeps) depth 20
