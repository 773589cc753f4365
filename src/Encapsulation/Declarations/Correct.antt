-- ===== src/Encapsulation/Declarations/Correct.antt =====
-- `createSymbolicDeclarations` of SymbolicEncapsulation.cpp from end to end.
use ephippion.Prelude.{
  ℕ, ◌<◌, ◌≤◌, ◌≡◌, Bool, true, false, ==_ne, List, [], ◌∷◌, length, bytes, arith,
}
use ephippion.Direction.{ArgSpec}
use ephippion.Llvm.{
  int, FunctionType, function_type, Argument, Callee, callee, Block, Value, get_or_insert_function,
  Llvm, Trace, Succeeds, Succeeds-map,
}
use ephippion.Ir.Positions.{Extends, Extends-cons}
use ephippion.FuncUtils.{
  int8_ptr, declare_klee_like_func, declare_memcpy_like_func, declare_func, get_function,
}
use ephippion.Encapsulation.Declarations.{declare_arguments, create_symbolic_declarations}
use ephippion.Encapsulation.Declarations.Declared.{
  AreDeclarable, AreDeclarable-Extends, AreDeclared, declare_arguments-AreDeclared,
}

abbrev pub symbolic_type : FunctionType
symbolic_type = function_type (int 32) [] true

abbrev pub memcpy_type : FunctionType
memcpy_type = function_type int8_ptr (int8_ptr ∷ int8_ptr ∷ int 64 ∷ []) false

abbrev pub symbolic_func : Callee
symbolic_func = callee (bytes "klee_make_symbolic") symbolic_type

abbrev pub memcpy_func : Callee
memcpy_func = callee (bytes "memcpy") memcpy_type

-- the calls in front of the first round
abbrev pub with_declarations : Trace → Trace
with_declarations t =
    get_or_insert_function (bytes "memcpy") memcpy_type
    ∷ get_or_insert_function (bytes "klee_make_symbolic") symbolic_type
    ∷ t

module _ (llvm : Llvm) (ndebug : Bool) (iterations_num : ℕ) (specs : List ArgSpec) (block : Block)
    (values1 values2 : List Value) where
  -- No function of the module has the name of one of the two and another type.
  abbrev pub HasSymbolic : Type 0
  HasSymbolic =
      ((u : Trace) → llvm.declares u (bytes "klee_make_symbolic") symbolic_type ≡ true)
      × ((u : Trace) → llvm.declares u (bytes "memcpy") memcpy_type ≡ true)

  -- For arguments whose first values have memory of a size that is not zero (or without assertions),
  -- values for both calls, with descriptions and second values for all arguments, and a module where
  -- `klee_make_symbolic` and `memcpy` have no other type: `createSymbolicDeclarations` returns. It
  -- declares the two functions, and then goes through the arguments in order: for one that is only an
  -- output it makes no call of LLVM at all; for any other it makes the memory symbolic, of the size of
  -- what it points to and for a pointer as often as there are iterations where its description says
  -- so, under a name with its index, and if the argument is an output as well it does the same for the
  -- second call, and then copies the first memory into the second. All that was there is kept.
  pub create_symbolic_declarations-AreDeclared :
      (args : List Argument) (t : Trace)
      → HasSymbolic
      → 0 < length values1
      → 0 < length values2
      → AreDeclarable llvm ndebug iterations_num specs block values1 values2 symbolic_func
          memcpy_func t 0 args
      → length args ≤ length specs
      → length args ≤ length values2
      → Succeeds
          (create_symbolic_declarations llvm ndebug iterations_num block args values1 values2 specs
            t)
          (λ _ t'.
            AreDeclared llvm ndebug iterations_num specs block values1 values2 symbolic_func
              memcpy_func
              (with_declarations t)
              0
              args
              t'
            × Extends t t')
  unfolding create_symbolic_declarations declare_klee_like_func declare_memcpy_like_func
      declare_func get_function
  create_symbolic_declarations-AreDeclared args t has some1 some2 a enough enough2 =
      rw
        (
          ==_ne (length values1) 0 (λ z. omega arith),
          ==_ne (length values2) 0 (λ z. omega arith),
          has.0,
          has.1,
        )
        (Succeeds-map
          (λ _ t'.
            AreDeclared llvm ndebug iterations_num specs block values1 values2 symbolic_func
              memcpy_func t₀ 0 args t'
            × Extends t₀ t')
          (λ _ t'.
            AreDeclared llvm ndebug iterations_num specs block values1 values2 symbolic_func
              memcpy_func t₀ 0 args t'
            × Extends t t')
          (declare_arguments llvm ndebug iterations_num specs block values1 values2 symbolic_func
            memcpy_func args 0 t₀)
          (λ _ t' (done, after). (done, λ k c x. after k c (begun k c x)))
          (declare_arguments-AreDeclared llvm ndebug iterations_num specs block values1 values2
            symbolic_func memcpy_func args 0 t₀
            (AreDeclarable-Extends llvm ndebug iterations_num specs block values1 values2
              symbolic_func memcpy_func t t₀ 0 args begun a)
            (omega arith) (omega arith)))
    where
      t₀ : Trace
      t₀ = with_declarations t

      begun : Extends t t₀
      begun = Extends-cons t _ _ (Extends-cons t t _ (λ k c x. x))
