-- ===== src/Encapsulation/Arguments/Handover.antt =====
-- The storage that `setupHarnessArgs` of SymbolicEncapsulation.cpp leaves is what
-- `createSymbolicDeclarations` and `createSymbolicAssertions` rely on.
use ephippion.Prelude.{
  ℕ, suc, ◌+◌, ◌<◌, ◌≡◌, refl, sym, ap, subst, ◌∙◌, Bool, true, false, not, ◌||◌, ◌==◌, List, ◌∷◌,
  length, get_elem?, All, arith,
}
use ephippion.Direction.{ArgSpec}
use ephippion.Llvm.{
  Ty, int, ptr, void, other, is_pointer, Argument, Callee, Block, Value, result, Llvm, IsLlvm,
  Trace,
}
use ephippion.Ir.Positions.{Extends}
use ephippion.FuncUtils.{int8_ptr}
use ephippion.Encapsulation.Arguments.Storage.{
  IsStored, IsStored-Extends, stack_shared, stack_apart, heap_shared, heap_apart, IsStack, IsHeap,
}
use ephippion.Encapsulation.Arguments.Rounds.{IsSized}
use ephippion.Encapsulation.Arguments.Released.{AreStored, none_left, one_more, malloc_func}
use ephippion.Encapsulation.Declarations.Symbolic.{HasElement, of_pointer, of_value}
use ephippion.Encapsulation.Declarations.Declared.{AreDeclarable}
use ephippion.Encapsulation.Assertions.Created.{IsPointing}

module _ (llvm : Llvm) (ndebug : Bool) where
  -- The size of the type is not zero, or that is not asserted.
  abbrev pub HasSize : Ty → Type 0
  HasSize ty = (not (llvm.alloc_size ty == 0) || ndebug) ≡ true

  -- of what a pointer points to, and of any other type itself
  abbrev pub IsUsable : Ty → Type 0
  IsUsable (ptr e) = HasSize e
  IsUsable ty = HasSize ty

  pub IsUsable-IsSized :
      (iterations_num : ℕ) (specs : List ArgSpec) (setup : Block) (ty : Ty)
      → IsUsable ty
      → IsSized llvm iterations_num specs setup malloc_func ndebug ty
  IsUsable-IsSized n specs setup (ptr e) h = h
  IsUsable-IsSized n specs setup (int w) h = tt
  IsUsable-IsSized n specs setup void h = tt
  IsUsable-IsSized n specs setup (other k) h = tt

  IsUsable-scalar : (ty : Ty) → is_pointer ty ≡ false → IsUsable ty → HasSize ty
  IsUsable-scalar (ptr e) p h = absurd (cc p)
  IsUsable-scalar (int w) p h = h
  IsUsable-scalar void p h = h
  IsUsable-scalar (other k) p h = h

  IsUsable-pointer : (ty e : Ty) → ty ≡ ptr e → IsUsable ty → HasSize e
  IsUsable-pointer ty e p h = subst (λ x. IsUsable x) p h

module _ {llvm : Llvm} (laws : IsLlvm llvm) (ndebug : Bool) (iterations_num : ℕ)
    (specs : List ArgSpec) (setup : Block) where
  -- a place on the stack, and a block on the heap
  stack-typed :
      (t : Trace) (arg : Argument) (k : ℕ)
      → IsStack llvm iterations_num specs setup malloc_func t arg k
      → (t' : Trace) → Extends t t'
      → llvm.type_of t' (result k) ≡ ptr arg.type
  stack-typed t arg k h t' x = laws.type_of-alloca t' k _ _ _ (x _ _ h)

  heap-typed :
      (t : Trace) (size k : ℕ)
      → IsHeap llvm iterations_num specs setup malloc_func t size k
      → (t' : Trace) → Extends t t'
      → llvm.type_of t' (result k) ≡ int8_ptr
  heap-typed t size k h t' x = laws.type_of-call t' k _ _ _ (x _ _ h)

  IsStored-IsPointing :
      (t : Trace) (i : ℕ) (arg : Argument) (v w : Value) (hs : List Value)
      → HasSize llvm ndebug (int 8)
      → IsUsable llvm ndebug arg.type
      → IsStored llvm iterations_num specs setup malloc_func t i arg v w hs
      → IsPointing llvm ndebug t v
  IsStored-IsPointing t i arg v w hs byte u (stack_shared k p o a) =
      (arg.type, stack-typed t arg k a, IsUsable-scalar llvm ndebug arg.type p u)
  IsStored-IsPointing t i arg v w hs byte u (stack_apart k l p o ne a b) =
      (arg.type, stack-typed t arg k a, IsUsable-scalar llvm ndebug arg.type p u)
  IsStored-IsPointing t i arg v w hs byte u (heap_shared e spec size k p f o z a) =
      (int 8, heap-typed t size k a, byte)
  IsStored-IsPointing t i arg v w hs byte u (heap_apart e spec size k l p f o ne z a b) =
      (int 8, heap-typed t size k a, byte)

  pub AreStored-IsPointing :
      (t : Trace) (i : ℕ) (args : List Argument) (vs ws hs : List Value)
      → HasSize llvm ndebug (int 8)
      → All (λ arg. IsUsable llvm ndebug arg.type) args
      → AreStored llvm iterations_num specs setup malloc_func t i args vs ws hs
      → All (IsPointing llvm ndebug t) vs
  AreStored-IsPointing t i args vs ws hs byte us none_left = tt
  AreStored-IsPointing t i args vs ws hs byte us (one_more first others) = (
    IsStored-IsPointing t i _ _ _ _ byte us.0 first,
    AreStored-IsPointing t (suc i) _ _ _ _ byte us.1 others,
  )

  IsStored-HasElement :
      (t : Trace) (i : ℕ) (arg : Argument) (v w : Value) (hs : List Value)
      → IsUsable llvm ndebug arg.type
      → IsStored llvm iterations_num specs setup malloc_func t i arg v w hs
      → (e : Ty) × HasElement llvm t arg v e × HasSize llvm ndebug e
  IsStored-HasElement t i arg v w hs u (stack_shared k p o a) =
      (arg.type, of_value p (stack-typed t arg k a), IsUsable-scalar llvm ndebug arg.type p u)
  IsStored-HasElement t i arg v w hs u (stack_apart k l p o ne a b) =
      (arg.type, of_value p (stack-typed t arg k a), IsUsable-scalar llvm ndebug arg.type p u)
  IsStored-HasElement t i arg v w hs u (heap_shared e spec size k p f o z a) =
      (e, of_pointer p, IsUsable-pointer llvm ndebug arg.type e p u)
  IsStored-HasElement t i arg v w hs u (heap_apart e spec size k l p f o ne z a b) =
      (e, of_pointer p, IsUsable-pointer llvm ndebug arg.type e p u)

  module _ (block : Block) (values1 values2 : List Value) (symbolize memcpy : Callee) where
    pub AreStored-AreDeclarable :
        (t : Trace) (i : ℕ) (args : List Argument) (vs ws hs : List Value)
        → All (λ arg. IsUsable llvm ndebug arg.type) args
        → ((j : ℕ) → get_elem? values1 (i + j) ≡ get_elem? vs j)
        → AreStored llvm iterations_num specs setup malloc_func t i args vs ws hs
        → AreDeclarable llvm ndebug iterations_num specs block values1 values2 symbolize memcpy t i
            args
    AreStored-AreDeclarable t i args vs ws hs us found none_left = tt
    AreStored-AreDeclarable t i args vs ws hs us found (one_more first others) =
        let (e, element, sized) = IsStored-HasElement t i _ _ _ _ us.0 first in
        let same : i + 0 ≡ i = omega arith in
        (
          (_, e, ap (λ n. get_elem? values1 n) (sym same) ∙ found 0, element, sized),
          AreStored-AreDeclarable t (suc i) _ _ _ _ us.1
              (λ j.
                let next : suc i + j ≡ i + suc j = omega arith in
                ap (λ n. get_elem? values1 n) next ∙ found (suc j))
              others,
        )

  -- As many values for each call as arguments.
  pub length-AreStored :
      (t : Trace) (i : ℕ) (args : List Argument) (vs ws hs : List Value)
      → AreStored llvm iterations_num specs setup malloc_func t i args vs ws hs
      → (length vs ≡ length args) × (length ws ≡ length args)
  length-AreStored t i args vs ws hs none_left = (refl, refl)
  length-AreStored t i args vs ws hs (one_more first others) =
      let (a, b) = length-AreStored t (suc i) _ _ _ _ others in (ap suc a, ap suc b)

  -- What is stored stays stored, and there are values for a first argument.
  pub AreStored-Extends :
      (t t' : Trace) (i : ℕ) (args : List Argument) (vs ws hs : List Value)
      → Extends t t'
      → AreStored llvm iterations_num specs setup malloc_func t i args vs ws hs
      → AreStored llvm iterations_num specs setup malloc_func t' i args vs ws hs
  AreStored-Extends t t' i args vs ws hs x none_left = none_left
  AreStored-Extends t t' i args vs ws hs x (one_more first others) =
      one_more (IsStored-Extends llvm iterations_num specs setup malloc_func t t' i _ _ _ _ x first)
        (AreStored-Extends t t' (suc i) _ _ _ _ x others)

  pub AreStored-values :
      (t : Trace) (i : ℕ) (args : List Argument) (vs ws hs : List Value)
      → 0 < length args
      → AreStored llvm iterations_num specs setup malloc_func t i args vs ws hs
      → ((v : Value) × (rest : List Value) × (vs ≡ v ∷ rest))
        × ((w : Value) × (rest : List Value) × (ws ≡ w ∷ rest))
  AreStored-values t i args vs ws hs some_args none_left = absurd (omega arith)
  AreStored-values t i args vs ws hs some_args
        (one_more {v} {w} {vs = vs'} {ws = ws'} first others) =
      ((v, vs', refl), (w, ws', refl))
