-- ===== src/Encapsulation/Arguments/Storage.antt =====
-- The storage that `setupHarnessArgs` of SymbolicEncapsulation.cpp makes for one argument.
use ephippion.Prelude.{ℕ, ◌≡◌, ◌≢◌, true, false, some, List, [], ◌∷◌, get_elem?}
use ephippion.Direction.{ArgSpec, is_outbound}
use ephippion.Llvm.{
  Ty, ptr, is_pointer, Argument, Callee, Block, Value, result, alloca, call, mul, insert, end_of,
  call_at, Llvm, Trace,
}
use ephippion.Ir.Positions.{Extends}
use ephippion.Encapsulation.Sizes.{multiplier, get_int64}
use ephippion.Encapsulation.Arguments.{Pushed, push, direction_at}

module _ (llvm : Llvm) (iterations_num : ℕ) (specs : List ArgSpec) (setup : Block)
    (heap_alloc : Callee) where
  -- the size of a block of memory: as many elements as iterations, or one
  abbrev pub IsSize : Trace → ArgSpec → Ty → ℕ → Type 0
  IsSize t spec element size =
      call_at t size
      ≡ some (
          insert (end_of setup) (
            mul (multiplier spec.iterator_dependent iterations_num)
              (get_int64 (llvm.alloc_size element))))

  abbrev pub IsStack : Trace → Argument → ℕ → Type 0
  IsStack t arg k = call_at t k ≡ some (insert (end_of setup) (alloca arg.type arg.name))

  abbrev pub IsHeap : Trace → ℕ → ℕ → Type 0
  IsHeap t size k = call_at t k ≡ some (insert (end_of setup) (call heap_alloc (result size ∷ [])))

  -- The values for the two calls, and what is to be freed. An argument passed by value lives on the
  -- stack and a pointer's target on the heap; an output has storage of its own for the second call,
  -- of the same size, and any other argument shares the storage of the first.
  pub data IsStored (t : Trace) (i : ℕ) (arg : Argument) : Value → Value → List Value → Type 0 where
    stack_shared :
        (k : ℕ)
        → is_pointer arg.type ≡ false
        → is_outbound (direction_at specs i) ≡ false
        → IsStack t arg k
        → IsStored t i arg (result k) (result k) []
    stack_apart :
        (k l : ℕ)
        → is_pointer arg.type ≡ false
        → is_outbound (direction_at specs i) ≡ true
        → k ≢ l
        → IsStack t arg k
        → IsStack t arg l
        → IsStored t i arg (result k) (result l) []
    heap_shared :
        (element : Ty) (spec : ArgSpec) (size k : ℕ)
        → arg.type ≡ ptr element
        → get_elem? specs i ≡ some spec
        → is_outbound spec.direction ≡ false
        → IsSize t spec element size
        → IsHeap t size k
        → IsStored t i arg (result k) (result k) (result k ∷ [])
    heap_apart :
        (element : Ty) (spec : ArgSpec) (size k l : ℕ)
        → arg.type ≡ ptr element
        → get_elem? specs i ≡ some spec
        → is_outbound spec.direction ≡ true
        → k ≢ l
        → IsSize t spec element size
        → IsHeap t size k
        → IsHeap t size l
        → IsStored t i arg (result k) (result l) (result k ∷ result l ∷ [])

  pub IsStored-Extends :
      (t t' : Trace) (i : ℕ) (arg : Argument) (v w : Value) (hs : List Value)
      → Extends t t'
      → IsStored t i arg v w hs
      → IsStored t' i arg v w hs
  IsStored-Extends t t' i arg v w hs e (stack_shared k p o a) = stack_shared k p o (e _ _ a)
  IsStored-Extends t t' i arg v w hs e (stack_apart k l p o ne a b) =
      stack_apart k l p o ne (e _ _ a) (e _ _ b)
  IsStored-Extends t t' i arg v w hs e (heap_shared el spec size k p s o z a) =
      heap_shared el spec size k p s o (e _ _ z) (e _ _ a)
  IsStored-Extends t t' i arg v w hs e (heap_apart el spec size k l p s o ne z a b) =
      heap_apart el spec size k l p s o ne (e _ _ z) (e _ _ a) (e _ _ b)

  -- What one round of the loop leaves.
  abbrev pub Stores : Trace → ℕ → Argument → Pushed → Pushed → Trace → Type 0
  Stores t i arg s s' t' =
      (v w : Value) × (hs : List Value) × (s' ≡ push s v w hs)
      × IsStored t' i arg v w hs
      × Extends t t'
