-- ===== src/Encapsulation/Harness/Places.antt =====
-- Where the values live that a harness of SymbolicEncapsulation.cpp passes to its two calls.
use ephippion.Prelude.{ℕ, suc, ◌≡◌, ◌⊎◌, inl, inr, refl, true, false, List, [], ◌∷◌}
use ephippion.Direction.{ArgSpec}
use ephippion.Llvm.{is_pointer, Argument, Block, Value, result, Llvm, Trace}
use ephippion.Encapsulation.Arguments.Storage.{
  IsStored, stack_shared, stack_apart, heap_shared, heap_apart, IsStack, IsHeap,
}
use ephippion.Encapsulation.Arguments.Released.{AreStored, none_left, one_more, malloc_func}

module _ (llvm : Llvm) (iterations : ℕ) (specs : List ArgSpec) (setup : Block) where
  -- a place on the stack for a value, a block on the heap for a pointer
  abbrev pub IsPlace : Trace → Argument → Value → Type 0
  IsPlace t arg v =
      ((k : ℕ) × (v ≡ result k)
        × (is_pointer arg.type ≡ false)
        × IsStack llvm iterations specs setup malloc_func t arg k)
      ⊎ ((size k : ℕ) × (v ≡ result k)
          × (is_pointer arg.type ≡ true)
          × IsHeap llvm iterations specs setup malloc_func t size k)

  pub data ArePlaces (t : Trace) : List Argument → List Value → Type 0 where
    no_places : ArePlaces t [] []
    one_place :
        {arg : Argument} {args : List Argument} {v : Value} {vs : List Value}
        → IsPlace t arg v
        → ArePlaces t args vs
        → ArePlaces t (arg ∷ args) (v ∷ vs)

  IsStored-IsPlace :
      (t : Trace) (i : ℕ) (arg : Argument) (v w : Value) (hs : List Value)
      → IsStored llvm iterations specs setup malloc_func t i arg v w hs
      → IsPlace t arg v × IsPlace t arg w
  IsStored-IsPlace t i arg v w hs (stack_shared k p o a) =
      (inl (k, refl, p, a), inl (k, refl, p, a))
  IsStored-IsPlace t i arg v w hs (stack_apart k l p o ne a b) =
      (inl (k, refl, p, a), inl (l, refl, p, b))
  IsStored-IsPlace t i arg v w hs (heap_shared e spec size k p f o z a) =
      (inr (size, k, refl, rw p refl, a), inr (size, k, refl, rw p refl, a))
  IsStored-IsPlace t i arg v w hs (heap_apart e spec size k l p f o ne z a b) =
      (inr (size, k, refl, rw p refl, a), inr (size, l, refl, rw p refl, b))

  pub AreStored-ArePlaces :
      (t : Trace) (i : ℕ) (args : List Argument) (vs ws hs : List Value)
      → AreStored llvm iterations specs setup malloc_func t i args vs ws hs
      → ArePlaces t args vs × ArePlaces t args ws
  AreStored-ArePlaces t i args vs ws hs none_left = (no_places, no_places)
  AreStored-ArePlaces t i args vs ws hs (one_more first others) =
      let (a, b) = IsStored-IsPlace t i _ _ _ _ first in
      let (firsts, seconds) = AreStored-ArePlaces t (suc i) _ _ _ _ others in
      (one_place a firsts, one_place b seconds)

  pub ArePlaces-rest :
      (t : Trace) (arg : Argument) (args : List Argument) (v : Value) (vs : List Value)
      → ArePlaces t (arg ∷ args) (v ∷ vs)
      → ArePlaces t args vs
  ArePlaces-rest t arg args v vs (one_place first others) = others
