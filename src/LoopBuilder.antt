-- ===== src/LoopBuilder.antt =====
-- lib/Support/IR/LoopIRBuilder.cpp: a counted loop around given blocks.
pub mod Keeps
pub mod Shape
pub mod Built
pub mod Runs
pub mod Counts
pub mod Watched
pub mod Framed
pub mod Correct
pub mod Faults
mod Tests
use ephippion.Prelude.{
  ℕ, Bool, true, false, not, Option, none, some, List, [], ◌∷◌, bytes, length, ltb, leb, ◌==◌,
  if◌then◌else◌, Text,
}
use ephippion.Llvm.{
  Ty, int, Block, Value, result, const, Predicate, slt, sge, Inst, add, sub, icmp, phi, br, cond_br,
  end_of, create_block, add_incoming, Llvm, M, pure, ◌>>=◌, ◌>>◌, emit, build, ask, check_that,
  at_index,
}

pub data LoopDirection : Type 0 where
  ld_increasing ld_decreasing : LoopDirection

abbrev pub ind_bit_width : ℕ
ind_bit_width = 64

unfoldable pub direction_of : ℕ → ℕ → LoopDirection
direction_of start end = if ltb end start then ld_decreasing else ld_increasing

-- the two `switch` statements
unfoldable pub compare_with : LoopDirection → Predicate
compare_with ld_increasing = slt
compare_with ld_decreasing = sge

unfoldable pub step_by : LoopDirection → Value → Value → Inst
step_by ld_increasing = add
step_by ld_decreasing = sub

module _ (llvm : Llvm) (ndebug : Bool) where
  abbrev pub terminate_block : Block → Block → Option ℕ → M (Unit {0})
  terminate_block latch e none = build (end_of e) (br latch) >>= λ _. pure tt
  terminate_block latch e (some k) = pure tt

  -- "direct all unterminated body blocks to loop latch"
  unfoldable pub terminate_blocks : Block → List Block → M (Unit {0})
  terminate_blocks latch [] = pure tt
  terminate_blocks latch (e ∷ es) =
      ask (λ t. llvm.terminator t e) >>= terminate_block latch e >> terminate_blocks latch es

  -- `CreateLoop`: the result is the induction variable.
  unfoldable pub create_loop :
      (body : List Block) (preheader postexit : Block) (start end step : ℕ) → M ℕ
  unfolding direction_of compare_with step_by terminate_blocks
  create_loop body preheader postexit start end step = do
    check_that ndebug (not (length body == 0))
    check_that ndebug (not (start == end))
    let direction = direction_of start end
    cur_func ← ask (λ t. llvm.parent t preheader)
    hdr ← emit (create_block (bytes "hdr") cur_func)
    latch ← emit (create_block (bytes "latch") cur_func)
    exit ← emit (create_block (bytes "exit") cur_func)
    ind ← build (end_of hdr) (phi (int ind_bit_width) 2 (bytes "i"))
    test ← build (end_of hdr) (icmp (compare_with direction) (result ind) (const ind_bit_width end))
    first ← at_index body 0
    build (end_of hdr) (cond_br (result test) first exit)
    next ← build (end_of latch) (step_by direction (result ind) (const ind_bit_width step))
    build (end_of latch) (br hdr)
    emit (add_incoming ind (const ind_bit_width start) preheader)
    emit (add_incoming ind (result next) latch)
    terminate_blocks latch body
    build (end_of preheader) (br hdr)
    build (end_of exit) (br postexit)
    pure ind
