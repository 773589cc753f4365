-- ===== src/LoopBuilder/Correct.antt =====
-- `CreateLoop` of LoopIRBuilder.cpp from end to end: the calls it makes, run.
use ephippion.Prelude.{
  ℕ, ◌^◌, ◌<◌, ◌≡◌, ◌≢◌, Bool, true, false, not, ◌||◌, ◌==◌, none, [], ◌∷◌, ◌++◌, length, All,
  arith, Text,
}
use ephippion.Llvm.{Block, br, Llvm, IsLlvm, Trace, Succeeds, is_terminator}
use ephippion.Llvm.Scope.{InScope}
use ephippion.Ir.{Values, body_of}
use ephippion.Ir.Visits.{Visits}
use ephippion.LoopBuilder.{LoopDirection, create_loop, direction_of}
use ephippion.LoopBuilder.Shape.{IsApart}
use ephippion.LoopBuilder.Built.{parts_at, create_loop-trace, loop_trace-IsLoop, loop_trace-pre}
use ephippion.LoopBuilder.Runs.{IsLoop-Visits}
use ephippion.LoopBuilder.Counts.{counted, Rounds-counted}

module _ {llvm : Llvm} (laws : IsLlvm llvm) (ndebug : Bool) (oracle : ℕ → Values → ℕ)
    (body pre post : Block) (start end step : ℕ) (t : Trace) where
  parts_at-IsApart :
      body < length t → post < length t → body ≢ post → IsApart (parts_at (length t)) body post
  parts_at-IsApart hb hp ne = record {
    body-ne-post = ne;
    hdr-ne-post = omega arith;
    latch-ne-post = omega arith;
    exit-ne-post = omega arith;
    hdr-ne-body = omega arith;
    latch-ne-body = omega arith;
    exit-ne-body = omega arith;
  }

  -- A loop around one open block, between other blocks, with 32-bit bounds and a positive 32-bit
  -- step, where the bounds differ or assertions are off: the builder returns, the preheader ends in
  -- a branch to the new header, and control that takes it enters the body once for each value of the
  -- `for` statement from `start` to `end`, in order, with the value in the induction variable, and
  -- then reaches `post`. So the loop ends, and neither its 64-bit steps nor its signed tests go
  -- astray.
  pub create_loop-Visits :
      (vs : Values)
      → InScope t
      → body < length t
      → pre < length t
      → post < length t
      → body ≢ pre
      → body ≢ post
      → llvm.terminator t body ≡ none
      → All (λ p. is_terminator p.1 ≡ false) (body_of t body)
      → (not (start == end) || ndebug) ≡ true
      → start < 2 ^ 32
      → end < 2 ^ 32
      → 0 < step
      → step < 2 ^ 32
      → Succeeds (create_loop llvm ndebug (body ∷ []) pre post start end step t) λ ind t'.
        ((enter : ℕ) × (body_of t' pre ≡ body_of t pre ++ (enter, br (length t)) ∷ []))
        × Visits oracle t' ind body post pre (length t) vs (counted start end step)
  create_loop-Visits vs s hb hp hq bp bq free open_body ne hs he h0 hst =
      rw (create_loop-trace laws ndebug body pre post start end step t ne hb free) (
        (enter, loop_trace-pre func d body pre post start end step t hp bp),
        IsLoop-Visits oracle
            (loop_trace-IsLoop func d body pre post start end step t s hb hp bp open_body) vs
            (parts_at-IsApart hb hq bq) (Rounds-counted start end step h0 hst he hs),
      )
    where
      func : Text
      func = llvm.parent t pre

      d : LoopDirection
      d = direction_of start end

      enter : ℕ
      enter = (parts_at (length t)).enter
