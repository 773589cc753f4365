-- ===== src/LoopBuilder/Built.antt =====
-- The loop that LoopIRBuilder.cpp builds around one block.
use ephippion.Prelude.{
  ℕ, suc, ◌<◌, ◌≡◌, ◌≢◌, refl, ◌∙◌, ==_ne, Bool, true, false, not, ◌||◌, none, List, [], ◌∷◌, ◌++◌,
  bytes, length, All, arith, ◌==◌, Text,
}
use ephippion.Llvm.{
  int, Block, result, const, Inst, icmp, phi, br, cond_br, end_of, insert, Call, create_block,
  add_incoming, Llvm, IsLlvm, Trace, ok, is_terminator, terminates,
}
use ephippion.Llvm.Scope.{InScope, terminator-append}
use ephippion.Ir.{Placed, body_of, incoming}
use ephippion.Ir.Laws.{body_of-fresh, incoming-fresh, body_of-IsBelow, IsBelow}
use ephippion.LoopBuilder.{
  LoopDirection, direction_of, compare_with, step_by, create_loop, terminate_blocks, ind_bit_width,
}
use ephippion.LoopBuilder.Shape.{Parts, IsLoop, IsWork}

-- The positions in a loop whose first call is number `n`.
abbrev pub parts_at : ℕ → Parts
parts_at n = record {
  hdr = n;
  latch = suc n;
  exit = suc (suc n);
  ind = suc (suc (suc n));
  test = suc (suc (suc (suc n)));
  branch = suc (suc (suc (suc (suc n))));
  next = suc (suc (suc (suc (suc (suc n)))));
  back = suc (suc (suc (suc (suc (suc (suc n))))));
  again = suc (suc (suc (suc (suc (suc (suc (suc (suc (suc n)))))))));
  enter = suc (suc (suc (suc (suc (suc (suc (suc (suc (suc (suc n))))))))));
  leave = suc (suc (suc (suc (suc (suc (suc (suc (suc (suc (suc (suc n)))))))))));
}

module _ (func : Text) (p : Parts) (d : LoopDirection) (body pre post : Block)
    (start end step : ℕ) where
  -- The calls before the body is closed, the last one first.
  abbrev open_calls : List Call
  open_calls =
      add_incoming p.ind (result p.next) p.latch
      ∷ add_incoming p.ind (const ind_bit_width start) pre
      ∷ insert (end_of p.latch) (br p.hdr)
      ∷ insert (end_of p.latch) (step_by d (result p.ind) (const ind_bit_width step))
      ∷ insert (end_of p.hdr) (cond_br (result p.test) body p.exit)
      ∷ insert (end_of p.hdr) (icmp (compare_with d) (result p.ind) (const ind_bit_width end))
      ∷ insert (end_of p.hdr) (phi (int ind_bit_width) 2 (bytes "i"))
      ∷ create_block (bytes "exit") func
      ∷ create_block (bytes "latch") func
      ∷ create_block (bytes "hdr") func
      ∷ []

  abbrev close_calls : List Call
  close_calls =
      insert (end_of p.exit) (br post)
      ∷ insert (end_of pre) (br p.hdr)
      ∷ insert (end_of body) (br p.latch)
      ∷ []

  abbrev pub loop_trace : Trace → Trace
  loop_trace t = close_calls ++ (open_calls ++ t)

terminates-ne : (b c : Block) (i : Inst) → b < c → terminates b (insert (end_of c) i) ≡ false
terminates-ne b c i h = rw (==_ne c b (omega arith))

open_calls-quiet :
    (func : Text) (n : ℕ) (d : LoopDirection) (body pre post : Block) (start end step : ℕ)
    → body < n
    → All
        (λ c. terminates body c ≡ false)
        (open_calls func (parts_at n) d body pre post start end step)
open_calls-quiet func n d body pre post start end step h =
    let hdr : (i : Inst) → terminates body (insert (end_of n) i) ≡ false =
      λ i. terminates-ne body n i h in
    let latch : (i : Inst) → terminates body (insert (end_of (suc n)) i) ≡ false =
      λ i. terminates-ne body (suc n) i (omega arith) in
    let p = parts_at n in
    let tests : Inst = icmp (compare_with d) (result p.ind) (const ind_bit_width end) in
    let steps : Inst = step_by d (result p.ind) (const ind_bit_width step) in
    (
      refl,
      (
        refl,
        (
          latch (br n),
          (
            latch steps,
            (
              hdr (cond_br (result p.test) body p.exit),
              (
                hdr tests,
                (hdr (phi (int ind_bit_width) 2 (bytes "i")), (refl, (refl, (refl, tt)))),
              ),
            ),
          ),
        ),
      ),
    )

IsWork-below :
    (n : ℕ) (is : List Placed)
    → All (λ p. is_terminator p.1 ≡ false) is
    → IsBelow n is
    → All (IsWork (parts_at n).ind) is
IsWork-below n [] w b = tt
IsWork-below n (p ∷ is) w b = ((w.0, omega arith), IsWork-below n is w.1 b.1)

module _ {llvm : Llvm} (laws : IsLlvm llvm) (ndebug : Bool) where
  -- The builder makes exactly these calls around a block without a terminator.
  pub create_loop-trace :
      (body pre post : Block) (start end step : ℕ) (t : Trace)
      → (not (start == end) || ndebug) ≡ true
      → body < length t
      → llvm.terminator t body ≡ none
      → create_loop llvm ndebug (body ∷ []) pre post start end step t
        ≡ ok (parts_at (length t)).ind (
            loop_trace
              (llvm.parent t pre)
              (parts_at (length t))
              (direction_of start end)
              body
              pre
              post
              start
              end
              step
              t)
  unfolding create_loop terminate_blocks
  create_loop-trace body pre post start end step t ne h free =
      let calls =
        open_calls (llvm.parent t pre) (parts_at (length t)) (direction_of start end) body pre post
          start end step in
      let quiet =
        open_calls-quiet (llvm.parent t pre) (length t) (direction_of start end) body pre post start
          end step h in
      let e : llvm.terminator (calls ++ t) body ≡ none =
        terminator-append laws calls t body h quiet ∙ free in
      rw ne (rw e)

module _ (func : Text) (d : LoopDirection) (body pre post : Block) (start end step : ℕ)
    (t : Trace) where
  -- The calls make a loop around what the body holds.
  pub loop_trace-IsLoop :
      InScope t
      → body < length t
      → pre < length t
      → body ≢ pre
      → All (λ p. is_terminator p.1 ≡ false) (body_of t body)
      → IsLoop
          (loop_trace func (parts_at (length t)) d body pre post start end step t)
          (parts_at (length t))
          d
          body
          pre
          post
          start
          end
          step
  unfolding body_of incoming
  loop_trace-IsLoop s h hp ne w = record {
    name = bytes "i";
    work = body_of t body;
    is_work = IsWork-below (length t) (body_of t body) w (body_of-IsBelow t body);
    hdr_body = ground (arith, body_of-fresh t (length t) s (omega arith));
    latch_body = ground (arith, body_of-fresh t (suc (length t)) s (omega arith));
    exit_body = ground (arith, body_of-fresh t (suc (suc (length t))) s (omega arith));
    body_body = ground arith;
    phi_values = ground (arith, incoming-fresh t (suc (suc (suc (length t)))) s (omega arith));
    test-ne-ind = omega arith;
    next-ne-ind = omega arith;
    pre-ne-latch = omega arith;
  }

  -- The preheader ends in a branch to the header.
  pub loop_trace-pre :
      pre < length t
      → body ≢ pre
      → body_of (loop_trace func (parts_at (length t)) d body pre post start end step t) pre
        ≡ body_of t pre ++ ((parts_at (length t)).enter, br (length t)) ∷ []
  unfolding body_of
  loop_trace-pre hp ne = ground arith
