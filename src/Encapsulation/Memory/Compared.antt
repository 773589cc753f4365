-- ===== src/Encapsulation/Memory/Compared.antt =====
-- How many bytes the checks of `createSymbolicAssertions` of SymbolicEncapsulation.cpp compare, and
-- how many there are.
use ephippion.Prelude.{
  ℕ, suc, ◌*◌, ◌%◌, ◌^◌, ◌<◌, ◌≤◌, ◌≡◌, refl, Bool, true, false, not, ◌||◌, ◌==◌, ==_ne, some, List,
  [], ◌∷◌, get_elem?, arith, Text,
}
use ephippion.Direction.{ArgSpec}
use ephippion.Llvm.{
  Ty, int, ptr, Block, Callee, Value, result, Inst, alloca, call, insert, end_of, Point, call_at,
  Llvm, IsLlvm, Trace, ok,
}
use ephippion.Llvm.Scope.{InScope}
use ephippion.Ir.{Placed, body_of, word}
use ephippion.Ir.Positions.{Extends}
use ephippion.Encapsulation.Sizes.{multiplier, get_int64}
use ephippion.Encapsulation.Arguments.Storage.{IsHeap, IsSize}
use ephippion.Encapsulation.Arguments.Released.{malloc_func}
use ephippion.Encapsulation.Assertions.{Check, Report, create_check}
use ephippion.Encapsulation.Assertions.Created.{create_check-IsCreated}
use ephippion.Encapsulation.Memory.{product, HasRoom, on_stack, on_heap}
use native.Mathlib.Nat.{mul-le-mul_left, mul-le-mul_right}

product_exact : (a b : ℕ) → a < 2 ^ 32 → b < 2 ^ 32 → a * b % word ≡ a * b
product_exact a b h g =
    let bound : b ≤ 2 ^ 32 = omega arith in
    let most : a * b ≤ a * 2 ^ 32 = mul-le-mul_left a bound in omega (arith, most)

product_grows : (a b : ℕ) → 2 ≤ a → a < 2 ^ 32 → 0 < b → b < 2 ^ 32 → b < a * b % word
product_grows a b two h pos g =
    let least : 2 * b ≤ a * b = mul-le-mul_right b two in
    omega (arith, least, product_exact a b h g)

product_mono : (a b c : ℕ) → a < 2 ^ 32 → c < 2 ^ 32 → b ≤ c → a * b % word ≤ a * c % word
product_mono a b c h g le =
    let most : a * b ≤ a * c = mul-le-mul_left a le in
    omega (arith, most, product_exact a b h (omega arith), product_exact a c h g)

module _ (t : Trace) (memcmp : Callee) where
  -- The block of the check starts by a comparison of so many bytes at the two addresses.
  abbrev pub Compares : Block → Value → Value → ℕ → Type 0
  Compares b v w m =
      (k : ℕ) × (i : Inst) × (is : List Placed) × (body_of t b
        ≡ (k, i) ∷ (suc k, call memcmp (v ∷ w ∷ result k ∷ [])) ∷ is)
      × (product (some (insert (end_of b) i)) ≡ some m)

small_multiplier :
    (b : Bool) (iterations : ℕ)
    → iterations < 2 ^ 32
    → (m : ℕ) × (multiplier b iterations ≡ get_int64 m) × (m < 2 ^ 32)
small_multiplier true iterations h = (iterations, refl, h)
small_multiplier false iterations h = (1, refl, omega arith)

module _ {llvm : Llvm} (laws : IsLlvm llvm) (ndebug : Bool) (iterations : ℕ) (specs : List ArgSpec)
    (cur_func : Text) (values1 values2 : List Value) (assert_func memcmp : Callee) (report : Report)
    (i : ℕ) (t : Trace) (spec : ArgSpec) (w : Value) where
  -- The round of the loop over the outputs for the value at `i` returns a check, whose block compares
  -- `m` bytes of `v` and `w`.
  abbrev pub Checks : Value → ℕ → Trace → Type 0
  Checks v m t₁ =
      (c : Check) × (create_check llvm ndebug iterations specs cur_func values1 values2 assert_func
          memcmp report v i t
        ≡ ok c t₁)
      × Compares t₁ memcmp c.cond_block v w m

  create_check-Checks :
      (e : Ty) (v : Value) (m : ℕ)
      → InScope t
      → ((u : Trace) → Extends t u → llvm.type_of u v ≡ ptr e)
      → (not (llvm.alloc_size e == 0) || ndebug) ≡ true
      → get_elem? specs i ≡ some spec
      → get_elem? values2 i ≡ some w
      → multiplier spec.iterator_dependent iterations ≡ get_int64 m
      → (t₁ : Trace) × Extends t t₁ × Checks v (m * llvm.alloc_size e % word) t₁
  create_check-Checks e v m s typed sized found second times =
      let (c, t₁, run, created, (k, body, condition), apart) =
        create_check-IsCreated llvm ndebug iterations specs cur_func values1 values2 assert_func
          memcmp report laws i e spec v w t s typed sized found second in
      (t₁, created.extends, (c, run, (k, _, _, body, rw times refl)))

  -- For a value at a place on the stack, whose memory is that of one value of its type, of a size in 32
  -- bits that is not zero, and whose description says that it depends on the iterator, with at least
  -- two iterations in 32 bits: the round of `createSymbolicAssertions` that makes its check returns, and
  -- the check compares more bytes than the memory has, namely the iterations times that size.
  pub stack_check-overreads :
      (k : ℕ) (p : Point) (ty : Ty) (name : Text)
      → InScope t
      → call_at t k ≡ some (insert p (alloca ty name))
      → get_elem? specs i ≡ some spec
      → get_elem? values2 i ≡ some w
      → spec.iterator_dependent ≡ true
      → 2 ≤ iterations
      → iterations < 2 ^ 32
      → 0 < llvm.alloc_size ty
      → llvm.alloc_size ty < 2 ^ 32
      → (t₁ : Trace) × Checks (result k) (iterations * llvm.alloc_size ty % word) t₁
        × HasRoom llvm t₁ (result k) (llvm.alloc_size ty)
        × (llvm.alloc_size ty < iterations * llvm.alloc_size ty % word)
  stack_check-overreads k p ty name s a found second dependent two small pos fits =
      let (t₁, x, checks) =
        create_check-Checks ty (result k) iterations s
          (λ u y. laws.type_of-alloca u k p ty name (y _ _ a))
          (rw (==_ne (llvm.alloc_size ty) 0 (λ z. omega (arith, z))) refl) found second
          (rw dependent refl) in
      (
        t₁,
        checks,
        on_stack k p ty name (x _ _ a),
        product_grows iterations (llvm.alloc_size ty) two small pos fits,
      )

  -- For a block on the heap, made by the same description as the check is, with iterations and the size
  -- of an element in 32 bits, a byte that has a size, and an element that is at least as large as a
  -- byte: the round of `createSymbolicAssertions` that makes its check returns, and the check compares
  -- as many bytes as there are elements, which is no more than the memory has.
  pub heap_check-within :
      (setup : Block) (size k : ℕ) (element : Ty)
      → InScope t
      → IsHeap llvm iterations specs setup malloc_func t size k
      → IsSize llvm iterations specs setup malloc_func t spec element size
      → get_elem? specs i ≡ some spec
      → get_elem? values2 i ≡ some w
      → iterations < 2 ^ 32
      → llvm.alloc_size element < 2 ^ 32
      → 0 < llvm.alloc_size (int 8)
      → llvm.alloc_size (int 8) ≤ llvm.alloc_size element
      → (t₁ : Trace) × (m : ℕ) × (multiplier spec.iterator_dependent iterations ≡ get_int64 m)
        × Checks (result k) (m * llvm.alloc_size (int 8) % word) t₁
        × HasRoom llvm t₁ (result k) (m * llvm.alloc_size element % word)
        × (m * llvm.alloc_size (int 8) % word ≤ m * llvm.alloc_size element % word)
  heap_check-within setup size k element s a made found second small fits pos byte =
      let (m, times, bound) = small_multiplier spec.iterator_dependent iterations small in
      let (t₁, x, checks) =
        create_check-Checks (int 8) (result k) m s (λ u y. laws.type_of-call u k _ _ _ (y _ _ a))
          (rw (==_ne (llvm.alloc_size (int 8)) 0 (λ z. omega (arith, z))) refl) found second
          times in
      let sized = x _ _ made in
      (
        t₁,
        m,
        times,
        checks,
        on_heap k size _ (end_of setup) (x _ _ a) (rw (sized, times) refl),
        product_mono m (llvm.alloc_size (int 8)) (llvm.alloc_size element) bound fits byte,
      )
