-- ===== src/FuncUtils/Keeps.antt =====
-- The declarations of FuncUtils.cpp only add calls.
use ephippion.Prelude.{Text}
use ephippion.Llvm.{Ty, FunctionType, Llvm, Trace}
use ephippion.Llvm.Keeps.{Keeps, MayDeclare, work_rules, keeps_rules, Emits, Emits-emit, Emits-bind}
use ephippion.FuncUtils.{
  get_function, declare_func_no_args, declare_malloc_like_func, declare_free_like_func,
  declare_memcpy_like_func, declare_klee_like_func, declare_assert_like_func,
}

module _ (llvm : Llvm) {P : Trace → Type 0} (may : MayDeclare P) where
  get_function-Keeps : (name : Text) (type : FunctionType) → Keeps P (get_function llvm name type)
  unfolding get_function
  get_function-Keeps name type = search (work_rules, may)

  pub declare_func_no_args-Keeps :
      (name : Text) (ret : Ty) → Keeps P (declare_func_no_args llvm name ret)
  unfolding declare_func_no_args
  declare_func_no_args-Keeps name ret = get_function-Keeps name _

  pub declare_malloc_like_func-Keeps : (name : Text) → Keeps P (declare_malloc_like_func llvm name)
  unfolding declare_malloc_like_func
  declare_malloc_like_func-Keeps name = get_function-Keeps name _

  pub declare_free_like_func-Keeps : (name : Text) → Keeps P (declare_free_like_func llvm name)
  unfolding declare_free_like_func
  declare_free_like_func-Keeps name = get_function-Keeps name _

  pub declare_memcpy_like_func-Keeps : (name : Text) → Keeps P (declare_memcpy_like_func llvm name)
  unfolding declare_memcpy_like_func
  declare_memcpy_like_func-Keeps name = get_function-Keeps name _

  pub declare_klee_like_func-Keeps : (name : Text) → Keeps P (declare_klee_like_func llvm name)
  unfolding declare_klee_like_func
  declare_klee_like_func-Keeps name = get_function-Keeps name _

  pub declare_assert_like_func-Keeps : (name : Text) → Keeps P (declare_assert_like_func llvm name)
  unfolding declare_assert_like_func
  declare_assert_like_func-Keeps name = get_function-Keeps name _

pub ruleset declares = (
  declare_func_no_args-Keeps, declare_malloc_like_func-Keeps, declare_free_like_func-Keeps,
  declare_memcpy_like_func-Keeps, declare_klee_like_func-Keeps, declare_assert_like_func-Keeps,
)

module _ (llvm : Llvm) where
  pub declare_func_no_args-Emits :
      (name : Text) (ret : Ty) → Emits (declare_func_no_args llvm name ret)
  unfolding declare_func_no_args get_function
  declare_func_no_args-Emits name ret = search (Emits-bind, Emits-emit, keeps_rules)
