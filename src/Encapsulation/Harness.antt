-- ===== src/Encapsulation/Harness.antt =====
-- `encapsulateImpl` of lib/Transforms/SymbolicEncapsulation.cpp: the whole harness of one function.
pub mod Created
pub mod Calls
pub mod Prepared
pub mod Places
pub mod Handed
pub mod Linked
pub mod Shape
pub mod Shaped
pub mod Runs
pub mod Made
pub mod Stages
pub mod Correct
pub mod Within
mod Tests
use ephippion.Prelude.{
  ℕ, zero, suc, ◌+◌, ◌-◌, ◌%◌, ◌^◌, Bool, true, false, List, [], ◌∷◌, ◌++◌, length, ltb,
  if◌then◌else◌, Text, bytes,
}
use ephippion.Direction.{ArgSpec, arg_spec, ad_inbound}
use ephippion.Llvm.{
  int, Function, Block, Value, result, const, br, ret, end_of, create_block, Llvm, out_of_range, M,
  pure, ◌>>=◌, ◌>>◌, emit, build, fail,
}
use ephippion.FuncUtils.{declare_func_no_args}
use ephippion.LoopBuilder.{create_loop}
use ephippion.Encapsulation.Arguments.{Pushed, setup_harness_args}
use ephippion.Encapsulation.Declarations.{create_symbolic_declarations}
use ephippion.Encapsulation.Assertions.{create_symbolic_assertions}
use ephippion.Encapsulation.Calls.{create_call}

abbrev pub default_spec : ArgSpec
default_spec = arg_spec [] ad_inbound false

-- `while (argSpecs.size() < numParams) push_back(...)`, with the rounds that may be made.
unfoldable pub fill_specs : ℕ → ℕ → List ArgSpec → List ArgSpec
fill_specs zero num_params specs = specs
fill_specs (suc rounds) num_params specs =
    let more = fill_specs rounds num_params (specs ++ default_spec ∷ []) in
    if ltb (length specs) num_params then more else specs

-- `values[0] = v`
abbrev pub set_first : List Value → Value → M (List Value)
set_first [] v = fail out_of_range
set_first (_ ∷ vs) v = pure (v ∷ vs)

-- The blocks of a harness.
pub record Blocks : Type 0 where
  pub setup : Block
  pub se_setup : Block
  pub call1_setup : Block
  pub call2_setup : Block
  pub call1_body : Block
  pub call2_body : Block
  pub call1_teardown : Block
  pub call2_teardown : Block
  pub se_start_teardown : Block
  pub se_end_teardown : Block
  pub teardown : Block
  pub exit : Block

unfoldable pub create_blocks : Text → M Blocks
create_blocks harness = do
  setup ← emit (create_block (bytes "setup") harness)
  se_setup ← emit (create_block (bytes "se.setup") harness)
  call1_setup ← emit (create_block (bytes "call1.setup") harness)
  call2_setup ← emit (create_block (bytes "call2.setup") harness)
  call1_body ← emit (create_block (bytes "call1.body") harness)
  call2_body ← emit (create_block (bytes "call2.body") harness)
  call1_teardown ← emit (create_block (bytes "call1.teardown") harness)
  call2_teardown ← emit (create_block (bytes "call2.teardown") harness)
  se_start_teardown ← emit (create_block (bytes "se.start.teardown") harness)
  se_end_teardown ← emit (create_block (bytes "se.end.teardown") harness)
  teardown ← emit (create_block (bytes "teardown") harness)
  exit ← emit (create_block (bytes "exit") harness)
  pure (record {
    setup = setup;
    se_setup = se_setup;
    call1_setup = call1_setup;
    call2_setup = call2_setup;
    call1_body = call1_body;
    call2_body = call2_body;
    call1_teardown = call1_teardown;
    call2_teardown = call2_teardown;
    se_start_teardown = se_start_teardown;
    se_end_teardown = se_end_teardown;
    teardown = teardown;
    exit = exit;
  })

-- "setup control flow" and "set harness return"
unfoldable pub link_blocks : Blocks → M (Unit {0})
link_blocks b = do
  build (end_of b.setup) (br b.se_setup)
  build (end_of b.se_setup) (br b.call1_setup)
  build (end_of b.call1_teardown) (br b.call2_setup)
  build (end_of b.call2_teardown) (br b.se_start_teardown)
  build (end_of b.se_end_teardown) (br b.teardown)
  build (end_of b.teardown) (br b.exit)
  build (end_of b.exit) (ret (const 32 0))
  pure tt

-- `IterationsNum - 1` on a `uint32_t`
abbrev pub pred32 : ℕ → ℕ
pred32 n = (n + 2 ^ 32 - 1) % 2 ^ 32

-- `HarnessNamePrefix`, the default of the constructor
abbrev pub harness_name_prefix : Text
harness_name_prefix = bytes "symenc_"

module _ (llvm : Llvm) (ndebug : Bool) (mod_name : Text) (iterations_num : ℕ)
    (func : Function) where
  -- "setup calls": the two loops around the two calls
  unfoldable pub create_calls : Blocks → Pushed → M (Unit {0})
  unfolding create_loop create_call
  create_calls b args = do
    ind_var1 ←
        create_loop llvm ndebug (b.call1_body ∷ []) b.call1_setup b.call1_teardown 0 iterations_num
          1
    ind_var2 ←
        create_loop llvm ndebug (b.call2_body ∷ []) b.call2_setup b.call2_teardown
          (pred32 iterations_num) 0 1
    call_args1 ← set_first args.call_args1 (result ind_var1)
    call_args2 ← set_first args.call_args2 (result ind_var2)
    create_call llvm func b.call1_body call_args1
    create_call llvm func b.call2_body call_args2

  -- the harness, with a description for each parameter
  unfoldable pub create_harness : List ArgSpec → M (Unit {0})
  unfolding declare_func_no_args create_blocks setup_harness_args create_symbolic_declarations
      create_symbolic_assertions create_calls link_blocks
  create_harness specs = do
    harness ← declare_func_no_args llvm (harness_name_prefix ++ func.name) (int 32)
    b ← create_blocks harness.name
    args ← setup_harness_args llvm ndebug iterations_num func.args specs b.setup b.teardown
    create_symbolic_declarations llvm ndebug iterations_num b.se_setup func.args args.call_args1
        args.call_args2 specs
    create_symbolic_assertions llvm ndebug iterations_num mod_name b.se_start_teardown
        b.se_end_teardown args.call_args1 args.call_args2 specs
    create_calls b args
    link_blocks b

  unfoldable pub encapsulate_impl : List ArgSpec → M Bool
  unfolding fill_specs create_harness
  encapsulate_impl specs = if func.is_declaration then pure false else (do
    let num_params = length func.args
    create_harness (fill_specs num_params num_params specs)
    pure true)

  -- the two public methods on a function
  unfoldable pub encapsulate : M Bool
  unfolding encapsulate_impl
  encapsulate = encapsulate_impl []

  unfoldable pub encapsulate_with : List ArgSpec → M Bool
  unfolding encapsulate_impl
  encapsulate_with specs = encapsulate_impl specs
