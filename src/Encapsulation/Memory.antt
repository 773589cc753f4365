-- ===== src/Encapsulation/Memory.antt =====
-- Sizes of memory in the harness of SymbolicEncapsulation.cpp: what its arguments have, and what is
-- made symbolic and copied.
pub mod Compared
mod Tests
use ephippion.Prelude.{
  ℕ, ◌*◌, ◌%◌, ◌^◌, ◌<◌, ◌≤◌, ◌≡◌, refl, sym, subst, ◌∙◌, ap, Bool, true, false, Option, none, some,
  List, [], ◌∷◌, suc, ◌+◌, get_elem?, Text, bytes, arith, All, if◌then◌else◌,
}
use ephippion.Direction.{ArgSpec, is_only_outbound}
use ephippion.Llvm.{
  Ty, ptr, is_pointer, Argument, Block, Function, Value, result, const, Inst, alloca, call, mul,
  Call, insert, end_of, Point, call_at, Llvm, IsLlvm, Trace,
}
use ephippion.Ir.{Values, word}
use ephippion.Ir.Positions.{Extends}
use ephippion.Encapsulation.Sizes.{multiplier, get_int64}
use ephippion.Encapsulation.Arguments.Storage.{
  IsStored, IsHeap, stack_shared, stack_apart, heap_shared, heap_apart,
}
use ephippion.Encapsulation.Arguments.Released.{AreStored, none_left, one_more, malloc_func}
use ephippion.Encapsulation.Declarations.Symbolic.{
  HasElement, HasElement-Extends, of_pointer, of_value, IsDeclared, only_output, only_input,
  input_and_output, IsSymbolic, IsSizeOf,
}
use ephippion.Encapsulation.Declarations.Declared.{AreDeclared, nothing_declared, one_declared}
use ephippion.Encapsulation.Declarations.Correct.{symbolic_func, memcpy_func}

-- The word that a product of two constants gives.
abbrev pub product : Option Call → Option ℕ
product (some (insert p (mul (const v a) (const w b)))) = some (a * b % word)
product _ = none

module _ (llvm : Llvm) (t : Trace) where
  -- The value is the address of so many bytes.
  pub data HasRoom : Value → ℕ → Type 0 where
    on_stack :
        (k : ℕ) (p : Point) (ty : Ty) (name : Text)
        → call_at t k ≡ some (insert p (alloca ty name))
        → HasRoom (result k) (llvm.alloc_size ty)
    on_heap :
        (k size n : ℕ) (p : Point)
        → call_at t k ≡ some (insert p (call malloc_func (result size ∷ [])))
        → product (call_at t size) ≡ some n
        → HasRoom (result k) n

multiplier_constant :
    (b : Bool) (iterations : ℕ) → (m : ℕ) × (multiplier b iterations ≡ get_int64 m)
multiplier_constant true iterations = (iterations, refl)
multiplier_constant false iterations = (1, refl)

module _ (llvm : Llvm) (ndebug : Bool) (iterations : ℕ) (specs : List ArgSpec) (block : Block)
    (values1 values2 : List Value) (t : Trace) where
  -- In the calls of the round from `s` to `e`, which are none if the argument is only an output: the
  -- memory of `v` is made symbolic as a whole, or as a whole with that of `w`, which is as large and
  -- into which it is copied.
  pub data IsWithin (s e : Trace) (i : ℕ) (v w : Value) : Type 0 where
    untouched :
        (spec : ArgSpec)
        → get_elem? specs i ≡ some spec
        → is_only_outbound spec.direction ≡ true
        → e ≡ s
        → IsWithin s e i v w
    symbolic :
        (n size l : ℕ)
        → HasRoom llvm t v n
        → product (call_at t size) ≡ some n
        → IsSymbolic llvm ndebug iterations specs block values1 values2 symbolic_func memcpy_func e
            (bytes "sym.in1.")
            i
            v
            size
            l
        → IsWithin s e i v w
    symbolic_copied :
        (n size l m k : ℕ)
        → HasRoom llvm t v n
        → HasRoom llvm t w n
        → product (call_at t size) ≡ some n
        → IsSymbolic llvm ndebug iterations specs block values1 values2 symbolic_func memcpy_func e
            (bytes "sym.in1.")
            i
            v
            size
            l
        → IsSymbolic llvm ndebug iterations specs block values1 values2 symbolic_func memcpy_func e
            (bytes "sym.in2.")
            i
            w
            size
            m
        → call_at e k ≡ some (insert (end_of block) (call memcpy_func (w ∷ v ∷ result size ∷ [])))
        → IsWithin s e i v w

  -- the rounds for the arguments from position `i` on
  pub data AreWithin : Trace → ℕ → List Value → List Value → Trace → Type 0 where
    nothing_within : {e : Trace} {i : ℕ} → AreWithin e i [] [] e
    one_within :
        {s s₁ e : Trace} {i : ℕ} {v w : Value} {vs ws : List Value}
        → IsWithin s s₁ i v w
        → Extends s s₁
        → AreWithin s₁ (suc i) vs ws e
        → AreWithin s i (v ∷ vs) (w ∷ ws) e

module _ {llvm : Llvm} (laws : IsLlvm llvm) (ndebug : Bool) (iterations : ℕ) (specs : List ArgSpec)
    (setup block : Block) (values1 values2 : List Value) (t : Trace) where
  Room : Value → Value → ℕ → Type 0
  Room v w size =
      (n : ℕ) × HasRoom llvm t v n × HasRoom llvm t w n × (product (call_at t size) ≡ some n)

  below_word : (x : ℕ) → x < word → 1 * x % word ≡ x
  below_word x h = omega arith

  stack_size :
      (arg : Argument) (spec : ArgSpec) (e : Ty) (k size : ℕ)
      → is_pointer arg.type ≡ false
      → llvm.alloc_size arg.type < word
      → call_at t k ≡ some (insert (end_of setup) (alloca arg.type arg.name))
      → HasElement llvm t arg (result k) e
      → IsSizeOf llvm ndebug iterations specs block values1 values2 symbolic_func memcpy_func t arg
          spec e size
      → product (call_at t size) ≡ some (llvm.alloc_size arg.type)
  stack_size arg spec e k size p b a (of_pointer q) z = cc (rw q at p)
  stack_size arg spec e k size p b a (of_value q typed) z =
      let same : e ≡ arg.type = cc (typed t (λ j c h. h), laws.type_of-alloca t k _ _ _ a) in
      rw (z, p, same) (ap some (below_word (llvm.alloc_size arg.type) b))

  heap_size :
      (arg : Argument) (spec : ArgSpec) (e element : Ty) (v : Value) (made size : ℕ)
      → arg.type ≡ ptr element
      → call_at t made
        ≡ some (
            insert (end_of setup) (
              mul
                (multiplier spec.iterator_dependent iterations)
                (get_int64 (llvm.alloc_size element))))
      → HasElement llvm t arg v e
      → IsSizeOf llvm ndebug iterations specs block values1 values2 symbolic_func memcpy_func t arg
          spec e size
      → (n : ℕ) × (product (call_at t made) ≡ some n) × (product (call_at t size) ≡ some n)
  heap_size arg spec e element v made size p y (of_pointer q) z =
      let same : e ≡ element = cc (p, q) in
      let (m, times) = multiplier_constant spec.iterator_dependent iterations in
      (m * llvm.alloc_size element % word, rw (y, times) refl, rw (z, p, same) (rw times refl))
  heap_size arg spec e element v made size p y (of_value q typed) z = cc (rw p at q)

  IsStored-Room :
      (i : ℕ) (arg : Argument) (spec : ArgSpec) (e : Ty) (v w : Value) (hs : List Value) (size : ℕ)
      → llvm.alloc_size arg.type < word
      → IsStored llvm iterations specs setup malloc_func t i arg v w hs
      → get_elem? specs i ≡ some spec
      → HasElement llvm t arg v e
      → IsSizeOf llvm ndebug iterations specs block values1 values2 symbolic_func memcpy_func t arg
          spec e size
      → Room v w size
  unfolding Room
  IsStored-Room i arg spec e v w hs size small (stack_shared k p o a) f el z =
      let room = on_stack k (end_of setup) arg.type arg.name a in
      (llvm.alloc_size arg.type, room, room, stack_size arg spec e k size p small a el z)
  IsStored-Room i arg spec e v w hs size small (stack_apart k l p o ne a b) f el z = (
    llvm.alloc_size arg.type,
    on_stack k (end_of setup) arg.type arg.name a,
    on_stack l (end_of setup) arg.type arg.name b,
    stack_size arg spec e k size p small a el z,
  )
  IsStored-Room i arg spec e v w hs size small (heap_shared element spec' made k p g o y a) f el z =
      let same : spec' ≡ spec = cc (f, g) in
      let (n, room, used) = heap_size arg spec e element v made size p (rw same at y) el z in
      let first = on_heap k made n (end_of setup) a room in (n, first, first, used)
  IsStored-Room i arg spec e v w hs size small (heap_apart element spec' made k l p g o ne y a b) f
        el z =
      let same : spec' ≡ spec = cc (f, g) in
      let (n, room, used) = heap_size arg spec e element v made size p (rw same at y) el z in
      (n, on_heap k made n (end_of setup) a room, on_heap l made n (end_of setup) b room, used)

  IsDeclared-IsWithin :
      (s e : Trace) (i : ℕ) (arg : Argument) (v w : Value) (hs : List Value)
      → llvm.alloc_size arg.type < word
      → IsStored llvm iterations specs setup malloc_func t i arg v w hs
      → get_elem? values1 i ≡ some v
      → get_elem? values2 i ≡ some w
      → Extends e t
      → IsDeclared llvm ndebug iterations specs block values1 values2 symbolic_func memcpy_func s e
          i arg
      → IsWithin llvm ndebug iterations specs block values1 values2 t s e i v w
  unfolding Room
  IsDeclared-IsWithin s e i arg v w hs small stored g h x (only_output spec f o same) =
      untouched spec f o same
  IsDeclared-IsWithin s e i arg v w hs small stored g h x
        (only_input spec ty v' size l f o b g' el z y new lt) =
      let same : v' ≡ v = cc (g, g') in
      let (n, room, others, used) =
        IsStored-Room i arg spec ty v w hs size small stored f
          (HasElement-Extends llvm e t arg v ty x (rw same at el)) (x _ _ z) in
      symbolic n size l room used (rw same at y)
  IsDeclared-IsWithin s e i arg v w hs small stored g h x
        (input_and_output spec ty v' w' size l m k f o b g' h' el z y r c new lt lt' lt'') =
      let same : v' ≡ v = cc (g, g') in
      let same' : w' ≡ w = cc (h, h') in
      let (n, room, room', used) =
        IsStored-Room i arg spec ty v w hs size small stored f
          (HasElement-Extends llvm e t arg v ty x (rw same at el)) (x _ _ z) in
      symbolic_copied n size l m k room room' used (rw same at y) (rw same' at r)
        (rw (same, same') at c)

  AreDeclared-Extends :
      {s e : Trace} {i : ℕ} {args : List Argument}
      → AreDeclared llvm ndebug iterations specs block values1 values2 symbolic_func memcpy_func s i
          args e
      → Extends s e
  AreDeclared-Extends nothing_declared = λ k c h. h
  AreDeclared-Extends (one_declared first x others) =
      λ k c h. AreDeclared-Extends others k c (x k c h)

  pub AreDeclared-AreWithin :
      (s e : Trace) (i : ℕ) (args : List Argument) (vs ws hs : List Value)
      → All (λ a. llvm.alloc_size a.type < word) args
      → AreStored llvm iterations specs setup malloc_func t i args vs ws hs
      → ((j : ℕ) → get_elem? values1 (i + j) ≡ get_elem? vs j)
      → ((j : ℕ) → get_elem? values2 (i + j) ≡ get_elem? ws j)
      → Extends e t
      → AreDeclared llvm ndebug iterations specs block values1 values2 symbolic_func memcpy_func s i
          args e
      → AreWithin llvm ndebug iterations specs block values1 values2 t s i vs ws e
  AreDeclared-AreWithin s e i args vs ws hs small none_left g h x nothing_declared = nothing_within
  AreDeclared-AreWithin s e i args vs ws hs small (one_more first others) g h x
        (one_declared {s₁} declared y later) =
      one_within
        (IsDeclared-IsWithin s s₁ i _ _ _ _ small.0 first (from_start values1 (g 0))
          (from_start values2 (h 0)) (λ k c z. x k c (AreDeclared-Extends later k c z)) declared)
        y
        (AreDeclared-AreWithin s₁ e (suc i) _ _ _ _ small.1 others
          (λ j. shifted values1 j ∙ g (suc j)) (λ j. shifted values2 j ∙ h (suc j)) x later)
    where
      from_start :
          (vs : List Value) {o : Option Value} → get_elem? vs (i + 0) ≡ o → get_elem? vs i ≡ o
      from_start vs e =
          let same : i + 0 ≡ i = omega arith in ap (λ n. get_elem? vs n) (sym same) ∙ e

      shifted : (vs : List Value) (j : ℕ) → get_elem? vs (suc i + j) ≡ get_elem? vs (i + suc j)
      shifted vs j = let next : suc i + j ≡ i + suc j = omega arith in ap (λ n. get_elem? vs n) next
