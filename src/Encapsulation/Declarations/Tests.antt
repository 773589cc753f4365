-- ===== src/Encapsulation/Declarations/Tests.antt =====
-- The theorem on the symbolic inputs of a harness at a concrete function.
use ephippion.Prelude.{◌≡◌, refl, true, false, some, List, [], ◌∷◌, bytes, arith}
use ephippion.Direction.{ArgSpec, arg_spec}
use ephippion.Llvm.{
  int, ptr, Argument, Value, result, const, alloca, call, insert, end_of, create_block, call_at,
  Trace, Succeeds,
}
use ephippion.Llvm.Concrete.{concrete, concrete-IsLlvm}
use ephippion.Ir.Positions.{Extends}
use ephippion.Encapsulation.Arguments.Released.{malloc_func}
use ephippion.Encapsulation.Declarations.{create_symbolic_declarations}
use ephippion.Encapsulation.Declarations.Symbolic.{of_pointer, of_value}
use ephippion.Encapsulation.Declarations.Declared.{AreDeclarable, AreDeclared}
use ephippion.Encapsulation.Declarations.Correct.{
  symbolic_func, memcpy_func, with_declarations, create_symbolic_declarations-AreDeclared,
}

-- i64 i, i32* p, with `p` an input and an output
abbrev params : List Argument
params =
    (record { name = bytes "i"; type = int 64 })
    ∷ (record { name = bytes "p"; type = ptr (int 32) })
    ∷ []

abbrev param_specs : List ArgSpec
param_specs = arg_spec [] 1 false ∷ arg_spec [] 3 true ∷ []

-- the storage of the two: one place on the stack, and two blocks on the heap
abbrev stored : Trace
stored =
    insert (end_of 0) (call malloc_func (const 64 16 ∷ []))
    ∷ insert (end_of 0) (call malloc_func (const 64 16 ∷ []))
    ∷ insert (end_of 0) (alloca (int 64) (bytes "i"))
    ∷ create_block (bytes "se.setup") (bytes "h")
    ∷ create_block (bytes "setup") (bytes "h")
    ∷ []

abbrev first_values : List Value
first_values = result 2 ∷ result 3 ∷ []

abbrev second_values : List Value
second_values = result 2 ∷ result 4 ∷ []

place_of_i : call_at stored 2 ≡ some (insert (end_of 0) (alloca (int 64) (bytes "i")))
unfolding call_at
place_of_i = refl

params-AreDeclarable :
    AreDeclarable concrete false 4 param_specs 1 first_values second_values symbolic_func
      memcpy_func stored 0 params
unfolding concrete
params-AreDeclarable = (
  (
    result 2,
    int 64,
    refl,
    of_value refl (λ u x. concrete-IsLlvm.type_of-alloca u 2 _ _ _ (x 2 _ place_of_i)),
    refl,
  ),
  ((result 3, int 32, refl, of_pointer refl, refl), tt),
)

create_symbolic_declarations-AreDeclared_example :
    Succeeds
      (create_symbolic_declarations concrete false 4 1 params first_values second_values param_specs
        stored)
      (λ _ t'.
        AreDeclared concrete false 4 param_specs 1 first_values second_values symbolic_func
          memcpy_func
          (with_declarations stored)
          0
          params
          t'
        × Extends stored t')
unfolding concrete
create_symbolic_declarations-AreDeclared_example =
    create_symbolic_declarations-AreDeclared concrete false 4 param_specs 1 first_values
      second_values params stored (λ u. refl, λ u. refl) (omega arith) (omega arith)
      params-AreDeclarable (omega arith) (omega arith)
