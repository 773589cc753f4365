-- ===== src/Encapsulation/Arguments.antt =====
-- `setupHarnessArgs` of lib/Transforms/SymbolicEncapsulation.cpp: storage for the arguments of the
-- two calls, and its release.
pub mod Storage
pub mod Rounds
pub mod Released
pub mod Handover
pub mod Counts
use ephippion.Prelude.{
  ℕ, suc, Bool, not, none, some, List, [], ◌∷◌, ◌++◌, reverse, get_elem?, if◌then◌else◌, Text,
  bytes,
}
use ephippion.Direction.{ArgDirection, ad_inbound, is_outbound, ArgSpec}
use ephippion.Llvm.{
  is_pointer, Argument, Callee, Block, Value, result, alloca, call, end_of, Llvm, M, pure, ◌>>=◌,
  ◌>>◌, build, at_index,
}
use ephippion.FuncUtils.{declare_malloc_like_func, declare_free_like_func}
use ephippion.Encapsulation.Sizes.{pointer_element, multiplier, check_size, build_size}

-- The constructor's names for the functions of the heap.
abbrev pub heap_alloc_func_name : Text
heap_alloc_func_name = bytes "malloc"

abbrev pub heap_dealloc_func_name : Text
heap_dealloc_func_name = bytes "free"

-- What the loop has pushed onto `CallArgs1`, `CallArgs2` and `heapAllocs`.
pub record Pushed : Type 0 where
  pub call_args1 : List Value
  pub call_args2 : List Value
  pub heap_allocs : List Value

abbrev pub pushed : List Value → List Value → List Value → Pushed
pushed a b h = record { call_args1 = a; call_args2 = b; heap_allocs = h }

abbrev pub nothing_pushed : Pushed
nothing_pushed = pushed [] [] []

abbrev pub push : Pushed → Value → Value → List Value → Pushed
push s v w allocs =
    pushed (s.call_args1 ++ v ∷ []) (s.call_args2 ++ w ∷ []) (s.heap_allocs ++ allocs)

-- "ArgSpecs.size() && argIdx < ArgSpecs.size()"
abbrev pub direction_at : List ArgSpec → ℕ → ArgDirection
direction_at specs i = elim (get_elem? specs i) [ none ↦ ad_inbound | some s ↦ s.direction ]

module _ (llvm : Llvm) (ndebug : Bool) (iterations_num : ℕ) (specs : List ArgSpec)
    (setup : Block) where
  -- an argument passed by value: one `alloca`, or two
  unfoldable pub setup_scalar : Argument → ArgDirection → Pushed → M Pushed
  setup_scalar arg dir s = do
    arg1 ← build (end_of setup) (alloca arg.type arg.name)
    if is_outbound dir
        then (do
          arg2 ← build (end_of setup) (alloca arg.type arg.name)
          pure (push s (result arg1) (result arg2) []))
        else pure (push s (result arg1) (result arg1) [])

  -- a pointer: one heap block, or two, of the size of what it points to
  unfoldable pub setup_pointer : Callee → Argument → ℕ → ArgDirection → Pushed → M Pushed
  setup_pointer heap_alloc arg i dir s = do
    element ← pointer_element arg.type
    let type_size = llvm.alloc_size element
    check_size ndebug type_size
    spec ← at_index specs i
    size ← build_size (end_of setup) (multiplier spec.iterator_dependent iterations_num) type_size
    arg1 ← build (end_of setup) (call heap_alloc (result size ∷ []))
    if is_outbound dir
        then (do
          arg2 ← build (end_of setup) (call heap_alloc (result size ∷ []))
          pure (push s (result arg1) (result arg2) (result arg1 ∷ result arg2 ∷ [])))
        else pure (push s (result arg1) (result arg1) (result arg1 ∷ []))

  unfoldable pub setup_argument : Callee → Argument → ℕ → Pushed → M Pushed
  unfolding setup_scalar setup_pointer
  setup_argument heap_alloc arg i s =
      if not (is_pointer arg.type)
      then setup_scalar arg (direction_at specs i) s
      else setup_pointer heap_alloc arg i (direction_at specs i) s

  unfoldable pub setup_arguments : Callee → List Argument → ℕ → Pushed → M Pushed
  unfolding setup_argument
  setup_arguments heap_alloc [] i s = pure s
  setup_arguments heap_alloc (arg ∷ args) i s =
      setup_argument heap_alloc arg i s >>= setup_arguments heap_alloc args (suc i)

-- the loop over the reversed `heapAllocs`
unfoldable pub release_all : Block → Callee → List Value → M (Unit {0})
release_all teardown heap_dealloc [] = pure tt
release_all teardown heap_dealloc (a ∷ allocs) =
    build (end_of teardown) (call heap_dealloc (a ∷ [])) >>= λ _.
    release_all teardown heap_dealloc allocs

module _ (llvm : Llvm) (ndebug : Bool) (iterations_num : ℕ) where
  unfoldable pub setup_harness_args :
      List Argument → List ArgSpec → (setup teardown : Block) → M Pushed
  unfolding declare_malloc_like_func declare_free_like_func setup_arguments release_all
  setup_harness_args [] specs setup teardown = pure nothing_pushed
  setup_harness_args (arg ∷ args) specs setup teardown = do
    heap_alloc ← declare_malloc_like_func llvm heap_alloc_func_name
    heap_dealloc ← declare_free_like_func llvm heap_dealloc_func_name
    s ←
        setup_arguments llvm ndebug iterations_num specs setup heap_alloc (arg ∷ args) 0
          nothing_pushed
    release_all teardown heap_dealloc (reverse s.heap_allocs)
    pure s
