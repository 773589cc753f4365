-- ===== src/LoopBuilder/Tests.antt =====
-- Runs of the loop builder, and its theorems at concrete inputs.
use ephippion.Prelude.{ℕ, ◌≡◌, ◌↔◌, ◌⊎◌, refl, false, List, [], ◌∷◌, ◌++◌, bytes, arith}
use ephippion.Llvm.{Block, Trace, create_block, br, fault, assertion, Succeeds, IsFault}
use ephippion.Llvm.Concrete.{concrete, concrete-IsLlvm}
use ephippion.Ir.{body_of}
use ephippion.Ir.Visits.{Visits}
use ephippion.LoopBuilder.{create_loop}
use ephippion.LoopBuilder.Counts.{counted}
use ephippion.LoopBuilder.Correct.{create_loop-Visits}
use ephippion.LoopBuilder.Faults.{create_loop-IsFault_iff}

-- Three empty blocks: preheader, body, and what follows the loop.
abbrev three_blocks : Trace
three_blocks =
    create_block (bytes "after") (bytes "f")
    ∷ create_block (bytes "body") (bytes "f")
    ∷ create_block (bytes "before") (bytes "f")
    ∷ []

counted_up : counted 0 3 1 ≡ 0 ∷ 1 ∷ 2 ∷ []
unfolding counted
counted_up = refl

counted_down : counted 2 0 1 ≡ 2 ∷ 1 ∷ 0 ∷ []
unfolding counted
counted_down = refl

counted_by_two : counted 7 2 2 ≡ 7 ∷ 5 ∷ 3 ∷ []
unfolding counted
counted_by_two = refl

equal_bounds : create_loop concrete false (1 ∷ []) 0 2 0 0 1 three_blocks ≡ fault assertion
unfolding create_loop
equal_bounds = refl

create_loop-Visits_example :
    Succeeds (create_loop concrete false (1 ∷ []) 0 2 2 0 1 three_blocks) λ ind t'.
      ((enter : ℕ) × (body_of t' 0 ≡ body_of three_blocks 0 ++ (enter, br 3) ∷ []))
      × Visits (λ n vs. 0) t' ind 1 2 0 3 (λ n. 0) (counted 2 0 1)
unfolding concrete body_of
create_loop-Visits_example =
    create_loop-Visits concrete-IsLlvm false (λ n vs. 0) 1 0 2 2 0 1 three_blocks (λ n. 0)
      (omega arith) (omega arith) (omega arith) (omega arith) (omega arith) (omega arith) refl tt
      refl (omega arith) (omega arith) (omega arith) (omega arith)

abbrev one_block : List Block
one_block = 1 ∷ []

abbrev bound : ℕ
bound = 3

-- Bounds that are equal, with assertions on.
create_loop-IsFault_iff_example :
    IsFault (create_loop concrete false one_block 0 2 bound bound 1 [])
    ↔ ((one_block ≡ []) ⊎ ((false ≡ false) × (bound ≡ bound)))
create_loop-IsFault_iff_example =
    create_loop-IsFault_iff concrete false one_block 0 2 bound bound 1 []
