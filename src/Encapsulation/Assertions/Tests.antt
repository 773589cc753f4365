-- ===== src/Encapsulation/Assertions/Tests.antt =====
-- The theorems on the assertions of a harness at concrete inputs.
use ephippion.Prelude.{
  ℕ, ◌≡◌, ◌≢◌, refl, true, false, List, [], ◌∷◌, ◌++◌, bytes, arith, ◌==◌, not, ◌||◌, some,
}
use ephippion.Direction.{ArgSpec, arg_spec}
use ephippion.Llvm.{
  int, Trace, Block, result, const, create_block, insert, icmp, eq, end_of, br, Succeeds, call, mul,
  call_at,
}
use ephippion.Llvm.Concrete.{concrete, concrete-IsLlvm}
use ephippion.Ir.{Values, body_of}
use ephippion.Encapsulation.Arguments.Released.{malloc_func}
use ephippion.Encapsulation.Assertions.{create_symbolic_assertions, Check, check, link_checks}
use ephippion.Encapsulation.Assertions.Created.{IsPointing}
use ephippion.Encapsulation.Assertions.Correct.{Asserts, create_symbolic_assertions-Asserts}
use ephippion.Encapsulation.Assertions.Chain.{AreApart, NotCond, NotFail}
use ephippion.Ir.Frame.{Frame}
use ephippion.Encapsulation.Assertions.Walk.{Walks, AreOpen, AreExtended, link_checks-Walks}

distinct : (a b : ℕ) → (a == b) ≡ false → a ≢ b
distinct a b h = λ e. ground arith

-- A start block, an end block, and two checks, the first of which compares 0 and 0.
abbrev six_blocks : Trace
six_blocks =
    create_block (bytes "fail1") (bytes "h")
    ∷ create_block (bytes "cond1") (bytes "h")
    ∷ insert (end_of 2) (icmp eq (const 32 0) (const 32 0))
    ∷ create_block (bytes "fail0") (bytes "h")
    ∷ create_block (bytes "cond0") (bytes "h")
    ∷ create_block (bytes "end") (bytes "h")
    ∷ create_block (bytes "start") (bytes "h")
    ∷ []

abbrev two_checks : List Check
two_checks = check 2 3 (result 4) ∷ check 5 6 (const 1 0) ∷ []

apart : AreApart two_checks
apart = (
  ((distinct 5 2 refl, tt), (distinct 6 3 refl, tt)),
  ((distinct 3 2 refl, (distinct 6 2 refl, tt)), (distinct 2 3 refl, (distinct 5 3 refl, tt))),
  ((tt, tt), ((distinct 6 5 refl, tt), (distinct 5 6 refl, tt)), tt),
)

open_blocks : AreOpen six_blocks two_checks
unfolding body_of
open_blocks = (((refl, tt), tt), ((tt, tt), tt))

link_checks-Walks_example : Succeeds (link_checks concrete 0 1 two_checks six_blocks) λ _ t.
    ((k : ℕ) × (body_of t 0 ≡ body_of six_blocks 0 ++ (k, br 2) ∷ []))
    × ((prev : Block) (vs : Values) → Walks (λ n vs. 0) t 1 prev 2 vs two_checks)
    × Frame concrete (λ b. NotCond b two_checks × NotFail b two_checks × (0 ≢ b)) six_blocks t
    × AreExtended six_blocks t two_checks
link_checks-Walks_example =
    link_checks-Walks concrete-IsLlvm six_blocks 1 (λ n vs. 0) 0 two_checks (omega arith)
      (omega arith) apart ((omega arith, omega arith), ((omega arith, omega arith), tt))
      (λ e. omega arith, (λ e. omega arith, tt)) (λ e. omega arith, (λ e. omega arith, tt))
      open_blocks

-- A start block, an end block, a block that takes two blocks of memory from the heap.
abbrev heap_blocks : Trace
heap_blocks =
    insert (end_of 2) (call malloc_func (result 3 ∷ []))
    ∷ insert (end_of 2) (call malloc_func (result 3 ∷ []))
    ∷ insert (end_of 2) (mul (const 64 4) (const 64 4))
    ∷ create_block (bytes "setup") (bytes "h")
    ∷ create_block (bytes "end") (bytes "h")
    ∷ create_block (bytes "start") (bytes "h")
    ∷ []

abbrev output : ArgSpec
output = arg_spec [] 3 true

first_call : call_at heap_blocks 4 ≡ some (insert (end_of 2) (call malloc_func (result 3 ∷ [])))
unfolding call_at
first_call = refl

result-IsPointing : IsPointing concrete false heap_blocks (result 4)
unfolding concrete
result-IsPointing =
    (int 8, (λ t' x. concrete-IsLlvm.type_of-call t' 4 _ _ _ (x 4 _ first_call)), one_byte)
  where
    one_byte : (not (concrete.alloc_size (int 8) == 0) || false) ≡ true
    one_byte = refl

create_symbolic_assertions-Asserts_example :
    Succeeds
      (create_symbolic_assertions concrete false 4
        (bytes "m")
        0
        1
        (result 4 ∷ [])
        (result 5 ∷ [])
        (output ∷ [])
        heap_blocks)
      (λ _.
        Asserts concrete-IsLlvm false 4
          (bytes "m")
          (λ n vs. 0)
          0
          1
          (result 4 ∷ [])
          (result 5 ∷ [])
          (output ∷ [])
          heap_blocks)
unfolding concrete
create_symbolic_assertions-Asserts_example =
    create_symbolic_assertions-Asserts concrete-IsLlvm false 4 (bytes "m") (λ n vs. 0) 0 1
      (result 4 ∷ []) (result 5 ∷ []) (output ∷ []) heap_blocks
      (omega arith, (omega arith, (omega arith, (tt, (tt, (tt, tt)))))) (omega arith)
      (λ u. refl, λ u. refl) (result-IsPointing, tt) (omega arith) refl (omega arith)
