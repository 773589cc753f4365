-- ===== src/LoopBuilder/Faults.antt =====
-- When `CreateLoop` of lib/Support/IR/LoopIRBuilder.cpp stops at a fault.
use ephippion.Prelude.{
  ℕ, ◌≡◌, ◌↔◌, ◌⊎◌, refl, inl, inr, Bool, true, false, not, ◌||◌, Bool-cases, Option, none, some,
  List, [], ◌∷◌, length, get_elem?, ◌==◌, ==_iff, if◌then◌else◌, arith,
}
use ephippion.Llvm.{
  Block, Call, Llvm, Run, ok, fault, Trace, M, pure, ◌>>=◌, ◌>>◌, emit, ask, build, check_that,
  in_range, fail, assertion, Point, Inst, insert, Succeeds, Succeeds-and_then, IsFault,
}
use ephippion.LoopBuilder.{terminate_block, terminate_blocks, create_loop}

-- No run of `m` stops at a fault.
record IsTotal {A : Type 0} (m : M A) : Type 0 where
  at : (t : Trace) → Succeeds (m t) (λ _ _. Unit {0})

pure-IsTotal : {A : Type 0} (a : A) → IsTotal (pure a)
pure-IsTotal a = record { at = λ t. tt }

ask-IsTotal : {A : Type 0} (q : Trace → A) → IsTotal (ask q)
ask-IsTotal q = record { at = λ t. tt }

emit-IsTotal : (c : Call) → IsTotal (emit c)
emit-IsTotal c = record { at = λ t. tt }

check_that-IsTotal : (ndebug c : Bool) → (c || ndebug) ≡ true → IsTotal (check_that ndebug c)
check_that-IsTotal ndebug c h = rw h (pure-IsTotal tt)

build-IsTotal : (p : Point) (i : Inst) → IsTotal (build p i)
build-IsTotal p i = emit-IsTotal (insert p i)

module _ {A B : Type 0} where
  bind-IsTotal : (m : M A) (k : A → M B) → IsTotal m → ((a : A) → IsTotal (k a)) → IsTotal (m >>= k)
  bind-IsTotal m k mt kt = record {
    at = λ t.
        Succeeds-and_then (λ _ _. Unit {0}) (λ _ _. Unit {0}) (m t) k (mt.at t)
          (λ a t' u. (kt a).at t');
  }

  then-IsTotal : (m : M A) (n : M B) → IsTotal m → IsTotal n → IsTotal (m >> n)
  then-IsTotal m n mt nt = record {
    at = λ t.
        Succeeds-and_then (λ _ _. Unit {0}) (λ _ _. Unit {0}) (m t) (λ _. n) (mt.at t)
          (λ a t' u. nt.at t');
  }

not_both : {A : Type 0} (r : Run A) → Succeeds r (λ _ _. Unit {0}) → IsFault r → ⊥
not_both (ok a t) s f = f
not_both (fault e) s f = s

ruleset total_rules =
    (pure-IsTotal, ask-IsTotal, emit-IsTotal, build-IsTotal, bind-IsTotal, then-IsTotal)

module _ (llvm : Llvm) (ndebug : Bool) where
  terminate_block-IsTotal :
      (latch e : Block) (o : Option ℕ) → IsTotal (terminate_block llvm ndebug latch e o)
  terminate_block-IsTotal latch e none = search total_rules
  terminate_block-IsTotal latch e (some k) = pure-IsTotal tt

  terminate_blocks-IsTotal :
      (latch : Block) (es : List Block) → IsTotal (terminate_blocks llvm ndebug latch es)
  unfolding terminate_blocks
  terminate_blocks-IsTotal latch [] = pure-IsTotal tt
  terminate_blocks-IsTotal latch (e ∷ es) =
      then-IsTotal _ _ (bind-IsTotal _ _ (ask-IsTotal _) (λ o. terminate_block-IsTotal latch e o))
        (terminate_blocks-IsTotal latch es)

  create_loop-IsTotal :
      (body : List Block) (preheader postexit : Block) (start end step : ℕ)
      → IsTotal (
          if not (length body == 0) || ndebug then pure (tt {0}) else fail {A = Unit {0}} assertion)
      → IsTotal
          (if not (start == end) || ndebug then pure (tt {0}) else fail {A = Unit {0}} assertion)
      → IsTotal (in_range (get_elem? body 0))
      → IsTotal (create_loop llvm ndebug body preheader postexit start end step)
  unfolding create_loop
  create_loop-IsTotal body preheader postexit start end step some_body apart first =
      search (total_rules, terminate_blocks-IsTotal) depth 40

  passed-IsTotal :
      (c : Bool)
      → (c || ndebug) ≡ true
      → IsTotal (if c || ndebug then pure (tt {0}) else fail {A = Unit {0}} assertion)
  passed-IsTotal c h = rw h (pure-IsTotal tt)

  create_loop-Succeeds :
      (e : Block) (es : List Block) (preheader postexit : Block) (start end step : ℕ) (t : Trace)
      → (not (start == end) || ndebug) ≡ true
      → Succeeds
          (create_loop llvm ndebug (e ∷ es) preheader postexit start end step t)
          (λ _ _. Unit {0})
  create_loop-Succeeds e es preheader postexit start end step t apart =
      (create_loop-IsTotal (e ∷ es) preheader postexit start end step
          (passed-IsTotal (not (length (e ∷ es) == 0)) (ground arith))
          (passed-IsTotal (not (start == end)) apart) (pure-IsTotal e)).at
        t

  create_loop-no_body :
      (preheader postexit : Block) (start end step : ℕ) (t : Trace)
      → IsFault (create_loop llvm ndebug [] preheader postexit start end step t)
  unfolding create_loop
  create_loop-no_body preheader postexit start end step t = elim (Bool-cases ndebug) [
    | inr checked ↦ rw checked tt
    | inl unchecked ↦ elim (Bool-cases (start == end)) [
      | inl same ↦ rw (unchecked, same) tt
      | inr apart ↦ rw (unchecked, apart) tt
    ]
  ]

  create_loop-equal :
      (body : List Block) (preheader postexit : Block) (start end step : ℕ) (t : Trace)
      → ndebug ≡ false
      → start ≡ end
      → IsFault (create_loop llvm ndebug body preheader postexit start end step t)
  unfolding create_loop
  create_loop-equal [] preheader postexit start end step t checked same = rw checked tt
  create_loop-equal (e ∷ es) preheader postexit start end step t checked same =
      let some_body : (not (length (e ∷ es) == 0) || ndebug) ≡ true = ground arith in
      let equal : (not (start == end) || ndebug) ≡ false =
        rw (checked, (==_iff start end).1 same) refl in
      rw some_body (rw equal tt)

  -- `CreateLoop` stops at a fault exactly if it is given no block for the body, or if assertions are on
  -- and the bounds are equal.
  pub create_loop-IsFault_iff :
      (body : List Block) (preheader postexit : Block) (start end step : ℕ) (t : Trace)
      → IsFault (create_loop llvm ndebug body preheader postexit start end step t)
        ↔ ((body ≡ []) ⊎ ((ndebug ≡ false) × (start ≡ end)))
  create_loop-IsFault_iff body preheader postexit start end step t = (reason body, stops body)
    where
      reason :
          (es : List Block)
          → IsFault (create_loop llvm ndebug es preheader postexit start end step t)
          → (es ≡ []) ⊎ ((ndebug ≡ false) × (start ≡ end))
      reason [] h = inl refl
      reason (e ∷ es) h = elim (Bool-cases (not (start == end) || ndebug)) [
        | inl apart ↦
            absurd
              (not_both _ (create_loop-Succeeds e es preheader postexit start end step t apart) h)
        | inr equal ↦ inr (ground arith, (==_iff start end).0 (ground arith))
      ]

      stops :
          (es : List Block)
          → (es ≡ []) ⊎ ((ndebug ≡ false) × (start ≡ end))
          → IsFault (create_loop llvm ndebug es preheader postexit start end step t)
      stops es (inl none_given) =
          rw none_given (create_loop-no_body preheader postexit start end step t)
      stops es (inr (checked, same)) =
          create_loop-equal es preheader postexit start end step t checked same
