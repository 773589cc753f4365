-- ===== src/LoopBuilder/Framed.antt =====
-- What a loop of LoopIRBuilder.cpp leaves alone, and the branch that closes its body.
use ephippion.Prelude.{
  ℕ, ◌+◌, Bool, true, false, not, ◌||◌, ◌==◌, All, suc, ◌<◌, ◌≡◌, ◌≢◌, refl, sym, ◌∙◌, none, some,
  [], ◌∷◌, ◌++◌, length, ==_ne, ==_refl, arith, Text, bytes,
}
use ephippion.Llvm.{
  Succeeds, is_terminator, Block, int, phi, br, insert, end_of, Llvm, IsLlvm, Trace, call_at,
}
use ephippion.Llvm.Scope.{InScope}
use ephippion.Ir.{body_of}
use ephippion.Ir.Positions.{call_at-new, call_at-old}
use ephippion.Ir.Frame.{
  Frame, Frame-refl, Frame-weaken, Frame-call, Frame-insert_new, Frame-insert_at, Frame-incoming,
}
use ephippion.LoopBuilder.{LoopDirection, direction_of, create_loop, ind_bit_width}
use ephippion.LoopBuilder.Built.{
  parts_at, loop_trace, create_loop-trace, loop_trace-IsLoop, loop_trace-pre,
}
use ephippion.LoopBuilder.Shape.{IsLoop}

module _ {llvm : Llvm} (laws : IsLlvm llvm) (func : Text) (d : LoopDirection)
    (body pre post : Block) (start end step : ℕ) (t : Trace) where
  abbrev pub built : Trace
  built = loop_trace func (parts_at (length t)) d body pre post start end step t

  -- No block is changed but the body and the preheader.
  pub loop_trace-Frame :
      InScope t
      → body < length t
      → pre < length t
      → Frame llvm (λ b. (body ≢ b) × (pre ≢ b)) t built
  loop_trace-Frame s hb hp =
      let n = length t in
      let f₀ = Frame-weaken llvm (λ b h (a : (body ≢ b) × (pre ≢ b)). tt) (Frame-refl llvm t s) in
      let f₁ = Frame-call laws (Frame-call laws (Frame-call laws f₀ _ tt) _ tt) _ tt in
      let f₂ = Frame-insert_new laws f₁ n _ (omega arith) (omega arith) in
      let f₃ = Frame-insert_new laws f₂ n _ (omega arith) (omega arith) in
      let f₄ = Frame-insert_new laws f₃ n _ (omega arith) (omega arith) in
      let f₅ = Frame-insert_new laws f₄ (suc n) _ (omega arith) (omega arith) in
      let f₆ = Frame-insert_new laws f₅ (suc n) _ (omega arith) (omega arith) in
      let f₇ = Frame-incoming laws f₆ (parts_at n).ind _ _ (omega arith) (omega arith) in
      let f₈ = Frame-incoming laws f₇ (parts_at n).ind _ _ (omega arith) (omega arith) in
      let f₉ = Frame-insert_at laws f₈ body _ hb (λ b a. a.0) in
      let f₁₀ = Frame-insert_at laws f₉ pre _ hp (λ b a. a.1) in
      Frame-insert_new laws f₁₀ (suc (suc n)) _ (omega arith) (omega arith)

  -- The body ends in a branch to the latch, which LLVM finds.
  pub loop_trace-terminator :
      body < length t → body ≢ pre → llvm.terminator built body ≡ some (parts_at (length t)).again
  loop_trace-terminator hb ne =
      laws.terminator-keep _ body _
        (rw (==_ne (suc (suc (length t))) body (λ e. omega (arith, e))) refl) (omega arith)
      ∙ laws.terminator-keep _ body _ (rw (==_ne pre body (λ e. ne (sym e))) refl) (omega arith)
      ∙ laws.terminator-set _ body _ (rw (==_refl body) refl)

  pub loop_trace-again :
      call_at built (parts_at (length t)).again
      ≡ some (insert (end_of body) (br (parts_at (length t)).latch))
  loop_trace-again =
      call_at-old _ _ (parts_at (length t)).again (omega arith)
      ∙ call_at-old _ _ (parts_at (length t)).again (omega arith)
      ∙ call_at-new _ _

  -- The induction variable is a word of 64 bits.
  pub loop_trace-ind :
      call_at built (parts_at (length t)).ind
      ≡ some (insert (end_of (length t)) (phi (int ind_bit_width) 2 (bytes "i")))
  loop_trace-ind =
      call_at-old _ _ (parts_at (length t)).ind (omega arith)
      ∙ call_at-old _ _ (parts_at (length t)).ind (omega arith)
      ∙ call_at-old _ _ (parts_at (length t)).ind (omega arith)
      ∙ call_at-old _ _ (parts_at (length t)).ind (omega arith)
      ∙ call_at-old _ _ (parts_at (length t)).ind (omega arith)
      ∙ call_at-old _ _ (parts_at (length t)).ind (omega arith)
      ∙ call_at-old _ _ (parts_at (length t)).ind (omega arith)
      ∙ call_at-old _ _ (parts_at (length t)).ind (omega arith)
      ∙ call_at-old _ _ (parts_at (length t)).ind (omega arith)
      ∙ call_at-new _ _

  -- Behind what it held.
  pub loop_trace-body :
      body < length t
      → body ≢ pre
      → body_of built body
        ≡ body_of t body ++ ((parts_at (length t)).again, br (parts_at (length t)).latch) ∷ []
  unfolding body_of
  loop_trace-body hb ne = ground arith

-- What the builder leaves around a body that has no terminator.
pub record IsBuilt (llvm : Llvm) (body pre post : Block) (start end step : ℕ) (t t' : Trace)
    : Type 0 where
  pub frame : Frame llvm (λ b. (body ≢ b) × (pre ≢ b)) t t'
  pub loop : IsLoop t' (parts_at (length t)) (direction_of start end) body pre post start end step
  pub body_body :
      body_of t' body
      ≡ body_of t body ++ ((parts_at (length t)).again, br (parts_at (length t)).latch) ∷ []
  pub pre_body : body_of t' pre ≡ body_of t pre ++ ((parts_at (length t)).enter, br (length t)) ∷ []
  pub terminator : llvm.terminator t' body ≡ some (parts_at (length t)).again
  pub again :
      call_at t' (parts_at (length t)).again
      ≡ some (insert (end_of body) (br (parts_at (length t)).latch))
  pub phi_at :
      call_at t' (parts_at (length t)).ind
      ≡ some (insert (end_of (length t)) (phi (int ind_bit_width) 2 (bytes "i")))
  pub grown : length t' ≡ 13 + length t

module _ {llvm : Llvm} (laws : IsLlvm llvm) (ndebug : Bool) where
  pub create_loop-IsBuilt :
      (body pre post : Block) (start end step : ℕ) (t : Trace)
      → InScope t
      → (not (start == end) || ndebug) ≡ true
      → body < length t
      → pre < length t
      → body ≢ pre
      → llvm.terminator t body ≡ none
      → All (λ p. is_terminator p.1 ≡ false) (body_of t body)
      → Succeeds (create_loop llvm ndebug (body ∷ []) pre post start end step t) λ ind t'.
        (ind ≡ (parts_at (length t)).ind) × IsBuilt llvm body pre post start end step t t'
  create_loop-IsBuilt body pre post start end step t s ne hb hp bp free straight =
      let func = llvm.parent t pre in
      let d = direction_of start end in
      rw (create_loop-trace laws ndebug body pre post start end step t ne hb free) (
        refl,
        record {
          frame = loop_trace-Frame laws func d body pre post start end step t s hb hp;
          loop = loop_trace-IsLoop func d body pre post start end step t s hb hp bp straight;
          body_body = loop_trace-body laws func d body pre post start end step t hb bp;
          pre_body = loop_trace-pre func d body pre post start end step t hp bp;
          terminator = loop_trace-terminator laws func d body pre post start end step t hb bp;
          again = loop_trace-again laws func d body pre post start end step t;
          phi_at = loop_trace-ind laws func d body pre post start end step t;
          grown = omega arith;
        },
      )
