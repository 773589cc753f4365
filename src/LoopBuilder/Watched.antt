-- ===== src/LoopBuilder/Watched.antt =====
-- A loop of LoopIRBuilder.cpp that runs under watch, and that further calls leave alone.
use ephippion.Prelude.{
  ℕ, ◌<◌, ◌≡◌, refl, sym, ◌∙◌, ap, true, Option, none, some, List, [], ◌∷◌, ◌++◌, map, length,
  ==_ne, ==_refl,
}
use ephippion.Llvm.{Block, Llvm, Trace}
use ephippion.Ir.{Values, from_block, incoming}
use ephippion.Ir.Reaches.{Reaches, here, goes, Log, note, noted}
use ephippion.Ir.Frame.{Frame}
use ephippion.LoopBuilder.{LoopDirection}
use ephippion.LoopBuilder.Shape.{Parts, IsLoop}
use ephippion.LoopBuilder.Runs.{
  Rounds, stop, again, header_values, header_values-ind, enter-hdr, enter-latch, enter-body,
  enter-exit,
}

-- The loop's own blocks are not watched, and its body is, for the induction variable.
pub record IsWatched (watch : Block → Option ℕ) (p : Parts) (body : Block) : Type 0 where
  pub hdr : watch p.hdr ≡ none
  pub latch : watch p.latch ≡ none
  pub exit : watch p.exit ≡ none
  pub body_ind : watch body ≡ some p.ind

-- The log of a body that is entered with each value in turn.
abbrev pub entries : Block → List ℕ → Log
entries body = map (λ i. (body, i))

module _ (oracle : ℕ → Values → ℕ) {t : Trace} {p : Parts} {d : LoopDirection}
    {body pre post : Block} {start end step : ℕ} (loop : IsLoop t p d body pre post start end step)
    {watch : Block → Option ℕ} (w : IsWatched watch p body) where
  unnoted :
      (b : Block) (vs : Values) (log : Log) → watch b ≡ none → log ≡ note oracle t watch b vs ++ log
  unnoted b vs log e = ap (λ o. noted b o vs ++ log) (sym e)

  -- From the header, the body is entered once for each value that passes the test.
  Reaches-hdr :
      {x : ℕ} {is : List ℕ} (prev : Block) (vs : Values)
      → from_block vs prev (incoming t p.ind) ≡ x
      → Rounds d end step x is
      → Reaches oracle t watch post prev p.hdr vs (entries body is)
  Reaches-hdr prev vs h (stop {x} e) =
      goes p.exit _ (rw e at (enter-hdr oracle loop prev vs x h)) (unnoted p.hdr vs [] w.hdr)
        (goes post _ (enter-exit oracle loop p.hdr _) (unnoted p.exit _ [] w.exit) (here refl))
  Reaches-hdr prev vs h (again {x} {is} e r) =
      let vs₁ = header_values p true vs x in
      let at_body : vs₁ p.ind ≡ x = header_values-ind oracle loop true vs x in
      let (vs₂, ran, same) = enter-body oracle loop p.hdr vs₁ in
      let (vs₃, stepped, next) = enter-latch oracle loop body vs₂ x (same ∙ at_body) in
      let log = entries body is in
      let log' : Log = (body, x) ∷ log in
      goes body vs₁ (rw e at (enter-hdr oracle loop prev vs x h)) (unnoted p.hdr vs log' w.hdr) (
        goes p.latch vs₂ ran
          (ap (λ (y : ℕ). (body, y) ∷ log) (sym at_body)
            ∙ ap (λ o. noted body o vs₁ ++ log) (sym w.body_ind))
          (goes p.hdr vs₃ stepped (unnoted p.latch vs₂ log w.latch)
            (Reaches-hdr p.latch vs₃ next r)))

  -- A loop that is entered from its preheader enters the body with the rounds from `start` on, and
  -- then reaches the block behind the loop.
  pub IsLoop-Reaches :
      {is : List ℕ} (vs : Values)
      → Rounds d end step start is
      → Reaches oracle t watch post pre p.hdr vs (entries body is)
  unfolding from_block
  IsLoop-Reaches vs r =
      Reaches-hdr pre vs
        (rw (loop.phi_values)
          (rw (==_ne p.latch pre (λ e. loop.pre-ne-latch (sym e)), ==_refl pre)))
        r

-- A loop whose blocks are left alone stays a loop.
pub IsLoop-Frame :
    {llvm : Llvm} {W : Block → Type 0} {t t' : Trace} {p : Parts} {d : LoopDirection}
    {body pre post : Block} {start end step : ℕ}
    → Frame llvm W t t'
    → (p.hdr < length t)
      × (p.latch < length t)
      × (p.exit < length t)
      × (p.ind < length t)
      × (body < length t)
    → W p.hdr × W p.latch × W p.exit × W body
    → IsLoop t p d body pre post start end step
    → IsLoop t' p d body pre post start end step
IsLoop-Frame f below w l = record {
  name = l.name;
  work = l.work;
  is_work = l.is_work;
  hdr_body = f.kept _ below.0 w.0 ∙ l.hdr_body;
  latch_body = f.kept _ below.1 w.1 ∙ l.latch_body;
  exit_body = f.kept _ below.2 w.2 ∙ l.exit_body;
  body_body = f.kept _ below.4 w.3 ∙ l.body_body;
  phi_values = f.phis _ below.3 ∙ l.phi_values;
  test-ne-ind = l.test-ne-ind;
  next-ne-ind = l.next-ne-ind;
  pre-ne-latch = l.pre-ne-latch;
}
