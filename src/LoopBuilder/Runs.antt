-- ===== src/LoopBuilder/Runs.antt =====
-- What a loop of LoopIRBuilder.cpp does when it runs.
use ephippion.Prelude.{
  ℕ, ◌+◌, ◌-◌, ◌%◌, ◌≡◌, ◌≢◌, refl, Bool, true, false, List, [], ◌∷◌, if◌then◌else◌, ==_refl, ==_ne,
  ◌==◌, ◌∙◌, sym,
}
use ephippion.Llvm.{Block, result, const, br, Trace}
use ephippion.Ir.{
  Values, word, assign, of_bool, compare_words, from_block, left, jump, run_block, incoming,
}
use ephippion.Ir.Visits.{Visits, arrive, work, pass, enter, run_block-straight}
use ephippion.LoopBuilder.{
  LoopDirection, ld_increasing, ld_decreasing, compare_with, step_by, ind_bit_width,
}
use ephippion.LoopBuilder.Shape.{Parts, IsLoop, IsApart}

-- The next value of the induction variable.
abbrev pub step_word : LoopDirection → ℕ → ℕ → ℕ
step_word ld_increasing x step = (x + step) % word
step_word ld_decreasing x step = (x + word - step) % word

-- The values that pass the test, from `x` on.
pub data Rounds (d : LoopDirection) (end step : ℕ) : ℕ → List ℕ → Type 0 where
  stop : {x : ℕ} → compare_words (compare_with d) x end ≡ false → Rounds d end step x []
  again :
      {x : ℕ} {is : List ℕ}
      → compare_words (compare_with d) x end ≡ true
      → Rounds d end step (step_word d x step) is
      → Rounds d end step x (x ∷ is)

-- The values behind the header's test.
abbrev pub header_values : Parts → Bool → Values → ℕ → Values
header_values p passed vs x = assign p.test (of_bool passed) (assign p.ind x vs)

assign_self : (n x : ℕ) (vs : Values) → assign n x vs n ≡ x
assign_self n x vs = rw (==_refl n)

assign-ne : (n m x : ℕ) (vs : Values) → n ≢ m → assign n x vs m ≡ vs m
assign-ne n m x vs h = rw (==_ne n m h)

of_bool-test : (b : Bool) (x y : Block) → (if of_bool b == 0 then y else x) ≡ (if b then x else y)
of_bool-test true x y = refl
of_bool-test false x y = refl

run_latch :
    (oracle : ℕ → Values → ℕ) (t : Trace) (prev : Block) (d : LoopDirection) (next ind back : ℕ)
    (hdr : Block) (vs : Values) (x step : ℕ)
    → vs ind ≡ x
    → run_block oracle t prev
        ((next, step_by d (result ind) (const ind_bit_width step)) ∷ (back, br hdr) ∷ [])
        vs
      ≡ left (jump hdr) (assign next (step_word d x step) vs)
unfolding run_block step_by
run_latch oracle t prev ld_increasing next ind back hdr vs x step h = rw h
run_latch oracle t prev ld_decreasing next ind back hdr vs x step h = rw h

module _ (oracle : ℕ → Values → ℕ) {t : Trace} {p : Parts} {d : LoopDirection}
    {body pre post : Block} {start end step : ℕ}
    (loop : IsLoop t p d body pre post start end step) where
  pub enter-hdr :
      (prev : Block) (vs : Values) (x : ℕ)
      → from_block vs prev (incoming t p.ind) ≡ x
      → enter oracle t prev p.hdr vs
        ≡ left
            (jump (if compare_words (compare_with d) x end then body else p.exit))
            (header_values p (compare_words (compare_with d) x end) vs x)
  unfolding run_block
  enter-hdr prev vs x h = rw (loop.hdr_body) (rw h (simp (==_refl, of_bool-test)))

  pub enter-exit :
      (prev : Block) (vs : Values) → enter oracle t prev p.exit vs ≡ left (jump post) vs
  unfolding run_block
  enter-exit prev vs = rw (loop.exit_body)

  -- One pass through the latch: the phi then reads the next value.
  pub enter-latch :
      (prev : Block) (vs : Values) (x : ℕ)
      → vs p.ind ≡ x
      → (vs' : Values) × (enter oracle t prev p.latch vs ≡ left (jump p.hdr) vs')
        × (from_block vs' p.latch (incoming t p.ind) ≡ step_word d x step)
  unfolding from_block
  enter-latch prev vs x h = (
    assign p.next (step_word d x step) vs,
    rw (loop.latch_body) (run_latch oracle t prev d p.next p.ind p.back p.hdr vs x step h),
    rw (loop.phi_values) (simp ==_refl),
  )

  -- The body hands the latch the value that it was entered with.
  pub enter-body :
      (prev : Block) (vs : Values)
      → (vs' : Values) × (enter oracle t prev body vs ≡ left (jump p.latch) vs')
        × (vs' p.ind ≡ vs p.ind)
  enter-body prev vs =
      rw (loop.body_body)
        (run_block-straight oracle t prev loop.work p.again p.ind p.latch vs loop.is_work)

  pub header_values-ind : (b : Bool) (vs : Values) (x : ℕ) → header_values p b vs x p.ind ≡ x
  header_values-ind b vs x = rw (==_ne p.test p.ind loop.test-ne-ind, ==_refl p.ind)

  -- From the header, the body is entered once for each value that passes the test.
  Visits-hdr :
      {x : ℕ} {is : List ℕ} (prev : Block) (vs : Values)
      → IsApart p body post
      → from_block vs prev (incoming t p.ind) ≡ x
      → Rounds d end step x is
      → Visits oracle t p.ind body post prev p.hdr vs is
  Visits-hdr prev vs a h (stop {x} e) =
      pass p.exit _ a.hdr-ne-body a.hdr-ne-post (rw e at (enter-hdr prev vs x h))
        (pass post _ a.exit-ne-body a.exit-ne-post (enter-exit p.hdr _) (arrive refl))
  Visits-hdr prev vs a h (again {x} {is} e r) =
      let vs₁ = header_values p true vs x in
      let (vs₂, ran, same) = enter-body p.hdr vs₁ in
      let (vs₃, stepped, next) = enter-latch body vs₂ x (same ∙ header_values-ind true vs x) in
      pass body vs₁ a.hdr-ne-body a.hdr-ne-post (rw e at (enter-hdr prev vs x h)) (
        work p.latch vs₂ x refl a.body-ne-post (header_values-ind true vs x) ran (
          pass p.hdr vs₃ a.latch-ne-body a.latch-ne-post stepped (Visits-hdr p.latch vs₃ a next r)))

  -- A loop that is entered from its preheader visits the body with the rounds from `start` on, and
  -- then reaches the block behind the loop.
  pub IsLoop-Visits :
      {is : List ℕ} (vs : Values)
      → IsApart p body post
      → Rounds d end step start is
      → Visits oracle t p.ind body post pre p.hdr vs is
  unfolding from_block
  IsLoop-Visits vs a r =
      Visits-hdr pre vs a
        (rw (loop.phi_values)
          (rw (==_ne p.latch pre (λ e. loop.pre-ne-latch (sym e)), ==_refl pre)))
        r
