-- ===== src/Encapsulation/Harness/Runs.antt =====
-- What a harness of SymbolicEncapsulation.cpp does when it runs.
use ephippion.Prelude.{
  ℕ, ◌+◌, ◌^◌, ◌<◌, ◌≤◌, ◌≡◌, ◌≢◌, refl, ◌∙◌, ap, subst, ==_ne, ==_refl, ◌==◌, if◌then◌else◌,
  Option, none, some, List, [], ◌++◌, append-nil, reverse, arith,
}
use ephippion.Llvm.{Block, br, Trace}
use ephippion.Ir.{Values, left, jump, run_block}
use ephippion.Ir.Reaches.{Reaches, here, Reaches-trans, Reaches-straight, Log}
use ephippion.Ir.Visits.{enter}
use ephippion.LoopBuilder.{direction_of}
use ephippion.LoopBuilder.Runs.{Rounds}
use ephippion.LoopBuilder.Built.{parts_at}
use ephippion.LoopBuilder.Counts.{Rounds-counted, count_up, counted-up}
use ephippion.LoopBuilder.Watched.{IsWatched, IsLoop-Reaches, entries}
use ephippion.Encapsulation.Loops.{counted-pred32}
use ephippion.Encapsulation.Assertions.{Check}
use ephippion.Encapsulation.Assertions.Chain.{target_of}
use ephippion.Encapsulation.Harness.{pred32}
use ephippion.Encapsulation.Harness.Created.{blocks_at}
use ephippion.Encapsulation.Harness.Shape.{EndsWith, HoldsOnly, HasShape}

-- The two bodies are watched, each for the induction variable of its loop.
abbrev pub calls_watch : (n m₁ m₂ : ℕ) → Block → Option ℕ
calls_watch n m₁ m₂ b =
    if b == (blocks_at n).call1_body
    then some (parts_at m₁).ind
    else if b == (blocks_at n).call2_body
    then some (parts_at m₂).ind
    else none

unwatched :
    (n m₁ m₂ : ℕ) (b : Block)
    → b ≢ (blocks_at n).call1_body
    → b ≢ (blocks_at n).call2_body
    → calls_watch n m₁ m₂ b ≡ none
unwatched n m₁ m₂ b ne1 ne2 =
    rw (==_ne b (blocks_at n).call1_body ne1, ==_ne b (blocks_at n).call2_body ne2) refl

module _ (oracle : ℕ → Values → ℕ) {t : Trace} {n m₁ m₂ iterations : ℕ} {checks : List Check}
    (shape : HasShape t n m₁ m₂ iterations checks) where
  abbrev watch : Block → Option ℕ
  watch = calls_watch n m₁ m₂

  unwatched_above : (b : Block) → n + 12 ≤ b → watch b ≡ none
  unwatched_above b h = unwatched n m₁ m₂ b (λ e. omega (arith, e)) (λ e. omega (arith, e))

  watched1 : IsWatched watch (parts_at m₁) (blocks_at n).call1_body
  watched1 = record {
    hdr = unwatched_above _ shape.room;
    latch = unwatched_above _ (omega (arith, shape.room));
    exit = unwatched_above _ (omega (arith, shape.room));
    body_ind = rw (==_refl (blocks_at n).call1_body) refl;
  }

  watched2 : IsWatched watch (parts_at m₂) (blocks_at n).call2_body
  watched2 = record {
    hdr = unwatched_above _ (omega (arith, shape.room, shape.apart));
    latch = unwatched_above _ (omega (arith, shape.room, shape.apart));
    exit = unwatched_above _ (omega (arith, shape.room, shape.apart));
    body_ind =
        rw
          (
            ==_ne (blocks_at n).call2_body (blocks_at n).call1_body (λ e. omega (arith, e)),
            ==_refl (blocks_at n).call2_body,
          )
          refl;
  }

  -- A block that is not a body hands control on.
  works :
      {post : Block} {log : Log} (prev b next : Block) (vs : Values)
      → EndsWith t b (br next)
      → b ≢ (blocks_at n).call1_body
      → b ≢ (blocks_at n).call2_body
      → ((vs' : Values) → Reaches oracle t watch post b next vs' log)
      → Reaches oracle t watch post prev b vs log
  works prev b next vs e ne1 ne2 rest =
      Reaches-straight oracle t watch e.work e.position prev b next vs e.body e.is_work
        (unwatched n m₁ m₂ b ne1 ne2) rest

  passes_on :
      {post : Block} {log : Log} (prev b next : Block) (vs : Values)
      → HoldsOnly t b (br next)
      → b ≢ (blocks_at n).call1_body
      → b ≢ (blocks_at n).call2_body
      → ((vs' : Values) → Reaches oracle t watch post b next vs' log)
      → Reaches oracle t watch post prev b vs log
  passes_on prev b next vs (k, e) ne1 ne2 rest =
      Reaches-straight oracle t watch [] k prev b next vs e tt (unwatched n m₁ m₂ b ne1 ne2) rest

  loop1_runs :
      (vs : Values)
      → iterations < 2 ^ 32
      → Reaches oracle t watch
          (blocks_at n).call1_teardown
          (blocks_at n).call1_setup
          m₁
          vs
          (entries (blocks_at n).call1_body (count_up iterations 0))
  loop1_runs vs small = IsLoop-Reaches oracle shape.loop1 watched1 vs (
      subst (λ is. Rounds (direction_of 0 iterations) iterations 1 0 is) (counted-up iterations)
        (Rounds-counted 0 iterations 1 (omega arith) (omega arith) small (omega arith)))

  loop2_runs :
      (vs : Values)
      → 2 ≤ iterations
      → iterations < 2 ^ 32
      → Reaches oracle t watch
          (blocks_at n).call2_teardown
          (blocks_at n).call2_setup
          m₂
          vs
          (entries (blocks_at n).call2_body (reverse (count_up iterations 0)))
  loop2_runs vs two small = IsLoop-Reaches oracle shape.loop2 watched2 vs (
      subst (λ is. Rounds (direction_of (pred32 iterations) 0) 0 1 (pred32 iterations) is)
        (counted-pred32 iterations two small ∙ ap (λ is. reverse is) (counted-up iterations))
        (Rounds-counted (pred32 iterations) 0 1 (omega arith) (omega arith) (omega arith)
          (omega arith)))

  second_half :
      (prev : Block) (vs : Values)
      → 2 ≤ iterations
      → iterations < 2 ^ 32
      → Reaches oracle t watch
          (blocks_at n).se_start_teardown
          prev
          (blocks_at n).call1_teardown
          vs
          (entries (blocks_at n).call2_body (reverse (count_up iterations 0)))
  second_half prev vs two small =
      passes_on prev _ _ vs shape.call1_teardown (λ e. omega (arith, e)) (λ e. omega (arith, e))
        (λ vs₁.
          passes_on _ _ m₂ vs₁ shape.call2_setup (λ e. omega (arith, e)) (λ e. omega (arith, e))
            (λ vs₂.
              subst
                (λ log.
                  Reaches oracle t watch (blocks_at n).se_start_teardown (blocks_at n).call2_setup
                    m₂ vs₂ log)
                (append-nil _)
                (Reaches-trans oracle t watch (blocks_at n).call2_teardown
                  (blocks_at n).se_start_teardown _ _ vs₂ _ [] (loop2_runs vs₂ two small)
                  (λ prev' vs'.
                    passes_on prev' _ _ vs' shape.call2_teardown (λ e. omega (arith, e))
                      (λ e. omega (arith, e)) (λ vs''. here refl)))))

  -- From its entry the harness calls the function with each number in order, then in the reverse
  -- order, and comes to its assertions.
  pub calls_in_order :
      (prev : Block) (vs : Values)
      → 2 ≤ iterations
      → iterations < 2 ^ 32
      → Reaches oracle t watch (blocks_at n).se_start_teardown prev (blocks_at n).setup vs (
          entries (blocks_at n).call1_body (count_up iterations 0)
          ++ entries (blocks_at n).call2_body (reverse (count_up iterations 0)))
  calls_in_order prev vs two small =
      works prev _ _ vs shape.setup (λ e. omega (arith, e)) (λ e. omega (arith, e))
        (λ vs₁.
          works _ _ _ vs₁ shape.se_setup (λ e. omega (arith, e)) (λ e. omega (arith, e))
            (λ vs₂.
              passes_on _ _ m₁ vs₂ shape.call1_setup (λ e. omega (arith, e)) (λ e. omega (arith, e))
                (λ vs₃.
                  Reaches-trans oracle t watch (blocks_at n).call1_teardown
                    (blocks_at n).se_start_teardown _ _ vs₃ _ _ (loop1_runs vs₃ small)
                    (λ prev' vs'. second_half prev' vs' two small))))

  -- Control at the start of the assertions goes to the first check.
  pub assertions_start :
      (prev : Block) (vs : Values)
      → enter oracle t prev (blocks_at n).se_start_teardown vs
        ≡ left (jump (target_of (blocks_at n).se_end_teardown checks)) vs
  unfolding run_block
  assertions_start prev vs = ap (λ is. run_block oracle t prev is vs) shape.se_start_teardown.1

  -- Behind the assertions the harness frees its memory and returns.
  pub harness_finishes :
      (prev : Block) (vs : Values)
      → Reaches oracle t watch (blocks_at n).exit prev (blocks_at n).se_end_teardown vs []
  harness_finishes prev vs =
      passes_on prev _ _ vs shape.se_end_teardown (λ e. omega (arith, e)) (λ e. omega (arith, e))
        (λ vs₁.
          works _ _ _ vs₁ shape.teardown (λ e. omega (arith, e)) (λ e. omega (arith, e))
            (λ vs₂. here refl))
