-- ===== src/Encapsulation/Calls.antt =====
-- `createCall` of lib/Transforms/SymbolicEncapsulation.cpp: the call of the encapsulated function.
pub mod Passed
pub mod Keeps
pub mod Placed
use ephippion.Prelude.{ℕ, suc, not, Option, none, some, List, [], ◌∷◌, ◌++◌, if◌then◌else◌}
use ephippion.Llvm.{
  Ty, ty_eq, is_pointer, Function, type_of_function, callee, Block, Value, result, call, load,
  bit_cast, Point, end_of, before, zext_or_bit_cast, Llvm, M, pure, ◌>>=◌, ◌>>◌, emit, build, ask,
  at_index,
}

-- in front of the block's terminator, or at its end
abbrev pub insert_point : Block → Option ℕ → Point
insert_point block none = end_of block
insert_point block (some k) = before k

module _ (llvm : Llvm) (func : Function) where
  abbrev param_type : ℕ → M Ty
  param_type i = at_index (type_of_function func).params i

  unfoldable pub pass_pointer : Point → Value → ℕ → M Value
  pass_pointer p v i = do
    is_alloca ← ask (λ t. llvm.is_alloca t v)
    if is_alloca
        then (do loaded ← build p (load v); pure (result loaded))
        else (do type ← param_type i; cast ← build p (bit_cast v type); pure (result cast))

  -- the cast is made with no place to put it
  unfoldable pub pass_value : Ty → Value → ℕ → M Value
  pass_value own v i = do
    type ← param_type i
    if not (ty_eq type own)
        then (do cast ← emit (zext_or_bit_cast v type); pure (result cast))
        else pure v

  unfoldable pub pass_argument : Point → Value → ℕ → M Value
  unfolding pass_pointer pass_value
  pass_argument p v i = do
    type ← ask (λ t. llvm.type_of t v)
    if is_pointer type then pass_pointer p v i else pass_value type v i

  unfoldable pub pass_arguments : Point → List Value → ℕ → List Value → M (List Value)
  unfolding pass_argument
  pass_arguments p [] i actual = pure actual
  pass_arguments p (v ∷ vs) i actual =
      pass_argument p v i >>= λ a. pass_arguments p vs (suc i) (actual ++ a ∷ [])

  unfoldable pub create_call : Block → List Value → M (Unit {0})
  unfolding pass_arguments
  create_call block args = do
    terminator ← ask (λ t. llvm.terminator t block)
    let p = insert_point block terminator
    actual ← pass_arguments p args 0 []
    build p (call (callee func.name (type_of_function func)) actual)
    pure tt
