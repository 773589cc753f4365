-- ===== src/Encapsulation/Assertions.antt =====
-- `createSymbolicAssertions` of lib/Transforms/SymbolicEncapsulation.cpp: a chain of blocks that
-- compare the outputs of the two calls, each with a block where its failure ends.
pub mod Links
pub mod Chain
pub mod Linking
pub mod Walk
pub mod Fresh
pub mod Created
pub mod Compared
pub mod Correct
mod Tests
use ephippion.Prelude.{
  ℕ, suc, ◌-◌, Bool, true, false, not, Option, none, some, List, [], ◌∷◌, ◌++◌, length, ◌&&◌, ◌==◌,
  if◌then◌else◌, Text, bytes, to_string,
}
use ephippion.Direction.{ArgSpec, is_outbound}
use ephippion.Llvm.{
  is_pointer, Ty, Callee, Block, Value, result, const, eq, call, icmp, br, cond_br, unreachable,
  end_of, create_block, global_string_ptr, set_successor, null_pointer, Llvm, M, pure, ◌>>=◌, ◌>>◌,
  emit, build, ask, check_that, at_index, fail,
}
use ephippion.FuncUtils.{declare_klee_like_func, declare_assert_like_func}
use ephippion.Encapsulation.Sizes.{pointer_element, multiplier, check_size, build_size}

-- One entry of `condBlocks`, `failBlocks` and `conditions`, which grow together.
pub record Check : Type 0 where
  pub cond_block : Block
  pub fail_block : Block
  pub condition : Value

abbrev pub check : Block → Block → Value → Check
check c f v = record { cond_block = c; fail_block = f; condition = v }

-- The texts that a failing assertion reports, as global strings.
pub record Report : Type 0 where
  pub func_name : Value
  pub mod_name : Value
  pub assert_text : Value

module _ (llvm : Llvm) (ndebug : Bool) (iterations_num : ℕ) (specs : List ArgSpec) (cur_func : Text)
    (values1 values2 : List Value) (assert_func memcmp : Callee) (report : Report) where
  -- `ArgSpecs.size() && !isOutbound(ArgSpecs[i].Direction)`
  abbrev pub skips_assertion : ℕ → M Bool
  skips_assertion i =
      if length specs == 0
      then pure false
      else (do spec ← at_index specs i; pure (not (is_outbound spec.direction)))

  -- the call that reports the failure
  abbrev pub report_failure : Block → M ℕ
  report_failure fail_block =
      build (end_of fail_block) (
        call assert_func
          (report.assert_text ∷ report.mod_name ∷ const 32 0 ∷ report.func_name ∷ []))

  unfoldable pub compare_values : Block → Block → Value → ℕ → M Value
  compare_values cond_block fail_block v1 i = do
    v2 ← at_index values2 i
    condition ← build (end_of cond_block) (icmp eq v1 v2)
    report_failure fail_block
    pure (result condition)

  unfoldable pub compare_memory : Block → Block → Ty → Value → ℕ → M Value
  compare_memory cond_block fail_block type v1 i = do
    element ← pointer_element type
    let type_size = llvm.alloc_size element
    check_size ndebug type_size
    spec ← at_index specs i
    size ←
        build_size (end_of cond_block) (multiplier spec.iterator_dependent iterations_num) type_size
    v2 ← at_index values2 i
    order ← build (end_of cond_block) (call memcmp (v1 ∷ v2 ∷ result size ∷ []))
    condition ← build (end_of cond_block) (icmp eq (result order) (const 32 0))
    report_failure fail_block
    pure (result condition)

  unfoldable pub create_check : Value → ℕ → M Check
  unfolding compare_values compare_memory
  create_check v1 i = do
    cond_block ← emit (create_block (bytes "cond" ++ to_string i) cur_func)
    fail_block ← emit (create_block (bytes "fail" ++ to_string i) cur_func)
    type ← ask (λ t. llvm.type_of t v1)
    condition ←
        if not (is_pointer type)
        then compare_values cond_block fail_block v1 i
        else compare_memory cond_block fail_block type v1 i
    pure (check cond_block fail_block condition)

  -- the first loop, over the values that are left, from index `i`
  unfoldable pub create_checks : List Value → ℕ → List Check → M (List Check)
  unfolding create_check
  create_checks [] i checks = pure checks
  create_checks (v1 ∷ vs) i checks = do
    skipped ← skips_assertion i
    checks' ← (if skipped then pure checks else (do c ← create_check v1 i; pure (checks ++ c ∷ [])))
    create_checks vs (suc i) checks'

-- "add unreachable terminator to fail assert blocks"
unfoldable pub end_failures : List Check → M (Unit {0})
end_failures [] = pure tt
end_failures (c ∷ cs) = build (end_of c.fail_block) unreachable >>= λ _. end_failures cs

-- "link condition blocks to their fail assert blocks"
unfoldable pub link_failures : Block → List Check → M (Unit {0})
link_failures end_block [] = pure tt
link_failures end_block (c ∷ cs) =
    build (end_of c.cond_block) (cond_br c.condition end_block c.fail_block) >>= λ _.
    link_failures end_block cs

module _ (llvm : Llvm) where
  -- `dyn_cast<BranchInst>(block->getTerminator())->setSuccessor(0, target)`
  abbrev pub redirect_terminator : Block → Option ℕ → M (Unit {0})
  redirect_terminator target none = fail null_pointer
  redirect_terminator target (some k) = do
    is_branch ← ask (λ t. llvm.is_branch t k)
    if is_branch then (do emit (set_successor k 0 target); pure tt) else fail null_pointer

  unfoldable pub set_true_successor : Block → Block → M (Unit {0})
  set_true_successor block target =
      ask (λ t. llvm.terminator t block) >>= redirect_terminator target

  -- "link condition blocks on truth"
  unfoldable pub link_successes : List Check → M (Unit {0})
  unfolding set_true_successor
  link_successes [] = pure tt
  link_successes (c ∷ []) = pure tt
  link_successes (c ∷ c' ∷ cs) =
      set_true_successor c.cond_block c'.cond_block >> link_successes (c' ∷ cs)

  -- `condBlocks.back()`
  abbrev pub last_block : Check → List Check → Block
  last_block c [] = c.cond_block
  last_block c (c' ∷ cs) = last_block c' cs

  -- "hook up start and end blocks"
  unfoldable pub hook_up : Block → Block → List Check → M (Unit {0})
  unfolding set_true_successor
  hook_up start_block end_block [] = do build (end_of start_block) (br end_block); pure tt
  hook_up start_block end_block (c ∷ cs) = do
    build (end_of start_block) (br c.cond_block)
    set_true_successor (last_block c cs) end_block

  -- the four loops behind the first
  unfoldable pub link_checks : Block → Block → List Check → M (Unit {0})
  unfolding end_failures link_failures link_successes hook_up
  link_checks start_block end_block checks = do
    end_failures checks
    link_failures end_block checks
    link_successes checks
    hook_up start_block end_block checks

module _ (llvm : Llvm) (ndebug : Bool) (iterations_num : ℕ) (mod_name : Text) where
  unfoldable pub create_symbolic_assertions :
      (start_block end_block : Block) (values1 values2 : List Value) → List ArgSpec → M (Unit {0})
  unfolding declare_assert_like_func declare_klee_like_func create_checks link_checks
  create_symbolic_assertions start_block end_block values1 values2 specs = do
    check_that ndebug (not (length values1 == 0) && not (length values2 == 0))
    check_that ndebug (length values1 == length values2)
    cur_func ← ask (λ t. llvm.parent t start_block)
    assert_func ← declare_assert_like_func llvm (bytes "__assert_fail")
    memcmp ← declare_klee_like_func llvm (bytes "memcmp")
    func_name ← emit (global_string_ptr cur_func)
    module_name ← emit (global_string_ptr mod_name)
    assert_text ← emit (global_string_ptr (bytes "FAILED"))
    let report : Report = record {
      func_name = result func_name;
      mod_name = result module_name;
      assert_text = result assert_text;
    }
    checks ←
        create_checks llvm ndebug iterations_num specs cur_func values1 values2 assert_func memcmp
          report values1 0 []
    link_checks llvm start_block end_block checks
