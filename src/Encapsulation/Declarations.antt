-- ===== src/Encapsulation/Declarations.antt =====
-- `createSymbolicDeclarations` of lib/Transforms/SymbolicEncapsulation.cpp: the inputs are made
-- symbolic, and the second copy of an argument starts as the first.
pub mod Symbolic
pub mod Declared
pub mod Correct
mod Tests
use ephippion.Prelude.{
  ℕ, suc, Bool, false, not, List, [], ◌∷◌, ◌++◌, length, ◌&&◌, ◌==◌, if◌then◌else◌, Text, bytes,
  to_string,
}
use ephippion.Direction.{ArgSpec, is_outbound, is_only_outbound}
use ephippion.Llvm.{
  is_pointer, Argument, Callee, Block, Value, result, call, end_of, global_string_ptr, Llvm, M,
  pure, ◌>>=◌, ◌>>◌, emit, build, ask, check_that, at_index,
}
use ephippion.FuncUtils.{declare_klee_like_func, declare_memcpy_like_func}
use ephippion.Encapsulation.Sizes.{pointer_element, multiplier, check_size, build_size, get_int64}

module _ (llvm : Llvm) (ndebug : Bool) (iterations_num : ℕ) (specs : List ArgSpec) (block : Block)
    (values1 values2 : List Value) (symbolize memcpy : Callee) where
  -- `ArgSpecs.size() && isOnlyOutbound(ArgSpecs[argIdx].Direction)`
  abbrev pub skips_declaration : ℕ → M Bool
  skips_declaration i =
      if length specs == 0
      then pure false
      else (do spec ← at_index specs i; pure (is_only_outbound spec.direction))

  -- one call of the function that makes `v` symbolic, under a name made of prefix, name and index
  unfoldable pub symbolize_value : Text → Value → ℕ → ℕ → M (Unit {0})
  symbolize_value prefix v size i = do
    name ← ask (λ t. llvm.name_of t v)
    sym_name ← emit (global_string_ptr (prefix ++ (name ++ to_string i)))
    build (end_of block) (call symbolize (v ∷ result size ∷ result sym_name ∷ []))
    pure tt

  -- the end of both branches: the first copy, and the second if the argument is an output
  unfoldable pub symbolize_argument : Value → ℕ → ℕ → M (Unit {0})
  unfolding symbolize_value
  symbolize_argument v1 size i = do
    symbolize_value (bytes "sym.in1.") v1 size i
    spec ← at_index specs i
    if is_outbound spec.direction
        then (do
          v2 ← at_index values2 i
          symbolize_value (bytes "sym.in2.") v2 size i
          build (end_of block) (call memcpy (v2 ∷ v1 ∷ result size ∷ []))
          pure tt)
        else pure tt

  unfoldable pub declare_scalar : ℕ → M (Unit {0})
  unfolding symbolize_argument
  declare_scalar i = do
    v1 ← at_index values1 i
    type ← ask (λ t. llvm.type_of t v1)
    element ← pointer_element type
    let type_size = llvm.alloc_size element
    check_size ndebug type_size
    size ← build_size (end_of block) (get_int64 1) type_size
    symbolize_argument v1 size i

  unfoldable pub declare_pointer : Argument → ℕ → M (Unit {0})
  unfolding symbolize_argument
  declare_pointer arg i = do
    element ← pointer_element arg.type
    let type_size = llvm.alloc_size element
    check_size ndebug type_size
    spec ← at_index specs i
    size ← build_size (end_of block) (multiplier spec.iterator_dependent iterations_num) type_size
    v1 ← at_index values1 i
    symbolize_argument v1 size i

  unfoldable pub declare_argument : Argument → ℕ → M (Unit {0})
  unfolding declare_scalar declare_pointer
  declare_argument arg i = do
    skipped ← skips_declaration i
    if skipped
        then pure tt
        else if not (is_pointer arg.type)
        then declare_scalar i
        else declare_pointer arg i

  unfoldable pub declare_arguments : List Argument → ℕ → M (Unit {0})
  unfolding declare_argument
  declare_arguments [] i = pure tt
  declare_arguments (arg ∷ args) i = declare_argument arg i >> declare_arguments args (suc i)

module _ (llvm : Llvm) (ndebug : Bool) (iterations_num : ℕ) where
  unfoldable pub create_symbolic_declarations :
      Block → List Argument → (values1 values2 : List Value) → List ArgSpec → M (Unit {0})
  unfolding declare_klee_like_func declare_memcpy_like_func declare_arguments
  create_symbolic_declarations block args values1 values2 specs = do
    check_that ndebug (not (length values1 == 0) && not (length values2 == 0))
    symbolize ← declare_klee_like_func llvm (bytes "klee_make_symbolic")
    memcpy ← declare_memcpy_like_func llvm (bytes "memcpy")
    declare_arguments llvm ndebug iterations_num specs block values1 values2 symbolize memcpy args 0
