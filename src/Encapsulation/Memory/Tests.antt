-- ===== src/Encapsulation/Memory/Tests.antt =====
-- Checks of a value on the stack and of one on the heap.
use ephippion.Prelude.{ℕ, ◌*◌, ◌%◌, ◌<◌, ◌≤◌, ◌≡◌, refl, false, true, [], ◌∷◌, bytes, arith}
use ephippion.Direction.{ArgSpec, arg_spec}
use ephippion.Llvm.{
  int, result, const, mul, call, alloca, create_block, insert, end_of, call_at, Trace,
}
use ephippion.Llvm.Concrete.{concrete, concrete-IsLlvm}
use ephippion.Ir.{word}
use ephippion.Encapsulation.Sizes.{multiplier, get_int64}
use ephippion.Encapsulation.Arguments.Released.{malloc_func}
use ephippion.Encapsulation.Assertions.{Report}
use ephippion.Encapsulation.Assertions.Correct.{assert_func, memcmp_func}
use ephippion.Encapsulation.Memory.{HasRoom}
use ephippion.Encapsulation.Memory.Compared.{Checks, stack_check-overreads, heap_check-within}

abbrev output : ArgSpec
output = arg_spec [] 3 true

abbrev no_report : Report
no_report = record { func_name = const 32 0; mod_name = const 32 0; assert_text = const 32 0 }

-- Two places on the stack for an i64.
abbrev on_the_stack : Trace
on_the_stack =
    insert (end_of 0) (alloca (int 64) (bytes "i"))
    ∷ insert (end_of 0) (alloca (int 64) (bytes "i"))
    ∷ create_block (bytes "setup") (bytes "h")
    ∷ []

stack_check-overreads_example :
    (t₁ : Trace) × Checks concrete-IsLlvm false 4
      (output ∷ [])
      (bytes "h")
      []
      (result 2 ∷ [])
      assert_func
      memcmp_func
      no_report
      0
      on_the_stack
      output
      (result 2)
      (result 1)
      (4 * concrete.alloc_size (int 64) % word)
      t₁
    × HasRoom concrete t₁ (result 1) (concrete.alloc_size (int 64))
    × (concrete.alloc_size (int 64) < 4 * concrete.alloc_size (int 64) % word)
unfolding concrete call_at
stack_check-overreads_example =
    stack_check-overreads concrete-IsLlvm false 4 (output ∷ []) (bytes "h") [] (result 2 ∷ [])
      assert_func memcmp_func no_report 0 on_the_stack output (result 2) 1 (end_of 0) (int 64)
      (bytes "i") (omega arith, (omega arith, (tt, tt))) refl refl refl refl (omega arith)
      (omega arith) (omega arith) (omega arith)

-- Two blocks on the heap for 4 values of i32.
abbrev on_the_heap : Trace
on_the_heap =
    insert (end_of 0) (call malloc_func (result 1 ∷ []))
    ∷ insert (end_of 0) (call malloc_func (result 1 ∷ []))
    ∷ insert (end_of 0) (mul (const 64 4) (const 64 4))
    ∷ create_block (bytes "setup") (bytes "h")
    ∷ []

heap_check-within_example :
    (t₁ : Trace) × (m : ℕ) × (multiplier true 4 ≡ get_int64 m)
    × Checks concrete-IsLlvm false 4
        (output ∷ [])
        (bytes "h")
        []
        (result 3 ∷ [])
        assert_func
        memcmp_func
        no_report
        0
        on_the_heap
        output
        (result 3)
        (result 2)
        (m * concrete.alloc_size (int 8) % word)
        t₁
    × HasRoom concrete t₁ (result 2) (m * concrete.alloc_size (int 32) % word)
    × (m * concrete.alloc_size (int 8) % word ≤ m * concrete.alloc_size (int 32) % word)
unfolding concrete call_at
heap_check-within_example =
    heap_check-within concrete-IsLlvm false 4 (output ∷ []) (bytes "h") [] (result 3 ∷ [])
      assert_func memcmp_func no_report 0 on_the_heap output (result 3) 0 1 2 (int 32)
      (omega arith, (omega arith, (omega arith, (tt, tt)))) refl refl refl refl (omega arith)
      (omega arith) (omega arith) (omega arith)
