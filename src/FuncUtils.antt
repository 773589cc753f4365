-- ===== src/FuncUtils.antt =====
-- lib/Support/Utils/FuncUtils.cpp: declarations of the functions that a harness calls.
pub mod Keeps
use ephippion.Prelude.{Bool, true, false, List, [], ◌∷◌, if◌then◌else◌, Text}
use ephippion.Llvm.{
  Ty, int, ptr, void, FunctionType, function_type, Callee, callee, get_or_insert_function, Llvm,
  bad_cast, M, pure, ◌>>=◌, ◌>>◌, emit, ask, fail,
}

abbrev pub int8_ptr : Ty
int8_ptr = ptr (int 8)

module _ (llvm : Llvm) where
  -- `cast<Function>(M.getOrInsertFunction(Name, type))`: LLVM answers with a cast of the existing
  -- function where that has another type.
  unfoldable pub get_function : Text → FunctionType → M Callee
  get_function name type = do
    emit (get_or_insert_function name type)
    known ← ask (λ t. llvm.declares t name type)
    if known then pure (callee name type) else fail bad_cast

  -- `DeclareFunc`, with and without arguments
  unfoldable pub declare_func : Text → Ty → List Ty → M Callee
  unfolding get_function
  declare_func name ret_ty args_ty = get_function name (function_type ret_ty args_ty false)

  unfoldable pub declare_func_no_args : Text → Ty → M Callee
  unfolding get_function
  declare_func_no_args name ret_ty = get_function name (function_type ret_ty [] false)

  unfoldable pub declare_malloc_like_func : Text → M Callee
  unfolding declare_func
  declare_malloc_like_func name = declare_func name int8_ptr (int 64 ∷ [])

  unfoldable pub declare_free_like_func : Text → M Callee
  unfolding declare_func
  declare_free_like_func name = declare_func name void (int8_ptr ∷ [])

  unfoldable pub declare_memcmp_like_func : Text → M Callee
  unfolding declare_func
  declare_memcmp_like_func name = declare_func name (int 32) (int8_ptr ∷ int8_ptr ∷ int 64 ∷ [])

  unfoldable pub declare_memcpy_like_func : Text → M Callee
  unfolding declare_func
  declare_memcpy_like_func name = declare_func name int8_ptr (int8_ptr ∷ int8_ptr ∷ int 64 ∷ [])

  -- no named parameters and variable arguments
  unfoldable pub declare_klee_like_func : Text → M Callee
  unfolding get_function
  declare_klee_like_func name = get_function name (function_type (int 32) [] true)

  unfoldable pub declare_assert_like_func : Text → M Callee
  unfolding get_function
  declare_assert_like_func name =
      get_function name (function_type void (int8_ptr ∷ int8_ptr ∷ int 32 ∷ int8_ptr ∷ []) false)
