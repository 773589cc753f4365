-- ===== src/LoopBuilder/Keeps.antt =====
-- The loop builder of LoopIRBuilder.cpp only adds calls.
use ephippion.Prelude.{ℕ, Bool, Option, none, some, List, [], ◌∷◌}
use ephippion.Llvm.{Block, Llvm, Trace}
use ephippion.Llvm.Keeps.{Keeps, IsMonotone, keeps_rules, Keeps-then, Keeps-bind, Keeps-ask}
use ephippion.LoopBuilder.{terminate_block, terminate_blocks, create_loop}

module _ (llvm : Llvm) (ndebug : Bool) {P : Trace → Type 0} (mono : IsMonotone P) where
  terminate_block-Keeps :
      (latch e : Block) (o : Option ℕ) → Keeps P (terminate_block llvm ndebug latch e o)
  terminate_block-Keeps latch e none = search keeps_rules
  terminate_block-Keeps latch e (some k) = search keeps_rules

  terminate_blocks-Keeps :
      (latch : Block) (es : List Block) → Keeps P (terminate_blocks llvm ndebug latch es)
  unfolding terminate_blocks
  terminate_blocks-Keeps latch [] = search keeps_rules
  terminate_blocks-Keeps latch (e ∷ es) =
      Keeps-then _ _ (Keeps-bind _ _ (Keeps-ask _) (terminate_block-Keeps latch e))
        (terminate_blocks-Keeps latch es)

  pub create_loop-Keeps :
      (body : List Block) (pre post : Block) (start end step : ℕ)
      → Keeps P (create_loop llvm ndebug body pre post start end step)
  unfolding create_loop
  create_loop-Keeps body pre post start end step =
      search (keeps_rules, terminate_blocks-Keeps) depth 40
