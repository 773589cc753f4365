-- ===== src/Encapsulation/Harness/Shaped.antt =====
-- The stages of `encapsulateImpl` of SymbolicEncapsulation.cpp give a harness its shape.
use ephippion.Prelude.{
  ℕ, ◌+◌, ◌<◌, ◌≤◌, ◌≡◌, ◌≢◌, sym, ◌∙◌, ap, subst, List, [], ◌∷◌, ◌++◌, length, All, All-map, arith,
  Text, Bool,
}
use ephippion.Direction.{ArgSpec}
use ephippion.Llvm.{Function, Argument, Block, Value, Inst, br, Llvm, IsLlvm, Trace}
use ephippion.Ir.{Values, body_of}
use ephippion.Ir.Positions.{Extends}
use ephippion.Ir.Frame.{Frame, Frame-trans, Frame-weaken}
use ephippion.Ir.Fills.{IsStraight}
use ephippion.LoopBuilder.Built.{parts_at}
use ephippion.LoopBuilder.Watched.{IsLoop-Frame}
use ephippion.Encapsulation.Arguments.{Pushed}
use ephippion.Encapsulation.Assertions.{Check}
use ephippion.Encapsulation.Assertions.Chain.{target_of}
use ephippion.Encapsulation.Assertions.Walk.{Walks, Walks-Frame, AreExtended, AreExtended-Frame}
use ephippion.Encapsulation.Calls.Placed.{IsCallBody, IsCallBody-Frame}
use ephippion.Encapsulation.Harness.Created.{blocks_at}
use ephippion.Encapsulation.Harness.Calls.{HasCalls}
use ephippion.Encapsulation.Harness.Prepared.{IsPrepared, AreEmpty}
use ephippion.Encapsulation.Harness.Linked.{linked, IsOther, linked-IsLinked, linked-Frame}
use ephippion.Encapsulation.Harness.Shape.{EndsWith, HoldsOnly, HasShape}

module _ {llvm : Llvm} (laws : IsLlvm llvm) (ndebug : Bool) (mod_name : Text) (iterations : ℕ)
    (oracle : ℕ → Values → ℕ) (func : Function) (arg : Argument) (rest : List Argument)
    (specs : List ArgSpec) (n m₂ : ℕ) (t₀ t₃ t₇ : Trace) (s : Pushed) (args1 args2 : List Value)
    (empty : AreEmpty n t₀)
    (prepared : IsPrepared laws ndebug mod_name iterations oracle arg rest specs n t₀ s t₃)
    (calls : HasCalls llvm func n iterations (length t₃) m₂ args1 args2 t₃ t₇) where
  room : n + 12 ≤ length t₃
  room = omega (arith, empty.1, prepared.frame.longer)

  links : Frame llvm (IsOther n t₇) t₇ (linked n t₇)
  links = linked-Frame n t₇ laws calls.frame.scope (omega (arith, room, calls.frame.longer))

  -- A block that none of the stages writes to.
  still_empty :
      (b : Block)
      → n ≤ b
      → b < n + 12
      → ((blocks_at n).setup ≢ b)
        × ((blocks_at n).teardown ≢ b)
        × ((blocks_at n).se_setup ≢ b)
        × ((blocks_at n).se_start_teardown ≢ b)
      → body_of t₃ b ≡ []
  still_empty b from to ne = prepared.frame.kept b (omega (arith, empty.1)) ne ∙ empty.2 b from

  above : (b : Block) → n + 12 ≤ b → IsOther n t₇ b
  above b h = (
    (λ e. omega (arith, e)),
    (λ e. omega (arith, e)),
    (λ e. omega (arith, e)),
    (λ e. omega (arith, e)),
    (λ e. omega (arith, e)),
    (λ e. omega (arith, e)),
    (λ e. omega (arith, e)),
  )

  body-IsOther :
      (b : Block)
      → n ≤ b
      → b ≢ (blocks_at n).setup
      → b < (blocks_at n).call1_teardown
      → b ≢ (blocks_at n).se_setup
      → IsOther n t₇ b
  body-IsOther b from ne1 to ne2 = (
    (λ e. ne1 (sym e)),
    (λ e. ne2 (sym e)),
    (λ e. omega (arith, e)),
    (λ e. omega (arith, e)),
    (λ e. omega (arith, e)),
    (λ e. omega (arith, e)),
    (λ e. omega (arith, e)),
  )

  loops_kept :
      (b : Block)
      → n ≤ b
      → b < n + 12
      → b ≢ (blocks_at n).call1_body
      → b ≢ (blocks_at n).call2_body
      → b ≢ (blocks_at n).call1_setup
      → b ≢ (blocks_at n).call2_setup
      → body_of t₇ b ≡ body_of t₃ b
  loops_kept b from to ne1 ne2 ne3 ne4 =
      calls.frame.kept b (omega (arith, room))
        ((λ e. ne1 (sym e)), (λ e. ne2 (sym e)), (λ e. ne3 (sym e)), (λ e. ne4 (sym e)))

  -- Blocks from the assertions on are left alone by what follows.
  later : Frame llvm (λ b. n + 12 ≤ b) t₃ (linked n t₇)
  later =
      Frame-trans llvm
        (Frame-weaken llvm
          (λ b l a. (
            (λ e. omega (arith, e)),
            (λ e. omega (arith, e)),
            (λ e. omega (arith, e)),
            (λ e. omega (arith, e)),
          ))
          calls.frame)
        (Frame-weaken llvm (λ b l a. above b a) links)

  pub harness-Extends : Extends t₃ (linked n t₇)
  harness-Extends = later.extends

  earlier : (b c : Block) → b < n → n ≤ c → c ≢ b
  earlier b c l le e = omega (arith, e)

  -- What was there before the blocks of the harness is left alone.
  pub harness-Frame : Frame llvm (λ b. b < n) t₀ (linked n t₇)
  harness-Frame =
      Frame-trans llvm
        (Frame-weaken llvm
          (λ b l a. (
            earlier b _ a (omega arith),
            earlier b _ a (omega arith),
            earlier b _ a (omega arith),
            earlier b _ a (omega arith),
          ))
          prepared.frame)
        (Frame-trans llvm
          (Frame-weaken llvm
            (λ b l a. (
              earlier b _ a (omega arith),
              earlier b _ a (omega arith),
              earlier b _ a (omega arith),
              earlier b _ a (omega arith),
            ))
            calls.frame)
          (Frame-weaken llvm
            (λ b l a. (
              earlier b _ a (omega arith),
              earlier b _ a (omega arith),
              earlier b _ a (omega arith),
              earlier b _ a (omega arith),
              earlier b _ a (omega arith),
              earlier b _ a (omega arith),
              earlier b _ a (omega arith),
            ))
            links))

  abbrev pub checks : List Check
  checks = prepared.asserts.0

  -- A block that the loops do not touch, with the end that it gets last.
  ends_with :
      (b : Block) (i : Inst)
      → n ≤ b
      → b < n + 12
      → b ≢ (blocks_at n).call1_body
      → b ≢ (blocks_at n).call2_body
      → b ≢ (blocks_at n).call1_setup
      → b ≢ (blocks_at n).call2_setup
      → IsStraight (body_of t₃ b)
      → (k : ℕ) × (body_of (linked n t₇) b ≡ body_of t₇ b ++ (k, i) ∷ [])
      → EndsWith (linked n t₇) b i
  ends_with b i from to ne1 ne2 ne3 ne4 straight (k, e) = record {
    work = body_of t₇ b;
    is_work = subst IsStraight (sym (loops_kept b from to ne1 ne2 ne3 ne4)) straight;
    position = k;
    body = e;
  }

  -- The same of a block that nothing else was written to.
  holds_only :
      (b : Block) (i : Inst)
      → (blocks_at n).call1_teardown ≤ b
      → b < n + 12
      → b ≢ (blocks_at n).teardown
      → b ≢ (blocks_at n).se_start_teardown
      → (k : ℕ) × (body_of (linked n t₇) b ≡ body_of t₇ b ++ (k, i) ∷ [])
      → HoldsOnly (linked n t₇) b i
  holds_only b i from to ne1 ne2 (k, e) = (
    k,
    e
        ∙ ap (λ is. is ++ (k, i) ∷ [])
            (loops_kept b (omega arith) to (λ e. omega (arith, e)) (λ e. omega (arith, e))
                (λ e. omega (arith, e)) (λ e. omega (arith, e))
              ∙ still_empty b (omega arith) to (
                (λ e. omega (arith, e)),
                (λ e. ne1 (sym e)),
                (λ e. omega (arith, e)),
                (λ e. ne2 (sym e)),
              )),
  )

  -- A preheader.
  holds_entry :
      (b target : Block) (k : ℕ)
      → (blocks_at n).call1_setup ≤ b
      → b ≤ (blocks_at n).call2_setup
      → body_of t₇ b ≡ body_of t₃ b ++ (k, br target) ∷ []
      → HoldsOnly (linked n t₇) b (br target)
  holds_entry b target k from to e = (
    k,
    links.kept b (omega (arith, room, calls.frame.longer)) (
          body-IsOther b (omega arith) (λ e. omega (arith, e)) (omega arith)
            (λ e. omega (arith, e)))
        ∙ e
        ∙ ap (λ is. is ++ (k, br target) ∷ [])
            (still_empty b (omega arith) (omega arith) (
              (λ e. omega (arith, e)),
              (λ e. omega (arith, e)),
              (λ e. omega (arith, e)),
              (λ e. omega (arith, e)),
            )),
  )

  start_holds :
      HoldsOnly
        (linked n t₇)
        (blocks_at n).se_start_teardown
        (br (target_of (blocks_at n).se_end_teardown checks))
  start_holds =
      let (k, body) = prepared.asserts.3 in
      (
        k,
        links.kept (blocks_at n).se_start_teardown (omega (arith, room, calls.frame.longer)) (
          (λ e. omega (arith, e)),
          (λ e. omega (arith, e)),
          (λ e. omega (arith, e)),
          (λ e. omega (arith, e)),
          (λ e. omega (arith, e)),
          (λ e. omega (arith, e)),
          (λ e. omega (arith, e)),
        )
            ∙ loops_kept (blocks_at n).se_start_teardown (omega arith) (omega arith)
                (λ e. omega (arith, e)) (λ e. omega (arith, e)) (λ e. omega (arith, e))
                (λ e. omega (arith, e))
            ∙ body
            ∙ ap (λ is. is ++ (k, br (target_of (blocks_at n).se_end_teardown checks)) ∷ [])
                prepared.start_empty,
      )

  pub linked-HasShape : HasShape (linked n t₇) n (length t₃) m₂ iterations checks
  linked-HasShape =
      let l = linked-IsLinked n t₇ in
      record {
        room = room;
        apart = calls.apart;
        setup =
            ends_with _ _ (omega arith) (omega arith) (λ e. omega (arith, e))
              (λ e. omega (arith, e)) (λ e. omega (arith, e)) (λ e. omega (arith, e)) prepared.setup
              l.setup;
        se_setup =
            ends_with _ _ (omega arith) (omega arith) (λ e. omega (arith, e))
              (λ e. omega (arith, e)) (λ e. omega (arith, e)) (λ e. omega (arith, e))
              prepared.se_setup l.se_setup;
        call1_setup =
            holds_entry _ _ (parts_at (length t₃)).enter (omega arith) (omega arith) calls.setup1;
        loop1 =
            IsLoop-Frame links (omega (arith, room, calls.apart, calls.below))
              (
                above _ room,
                above _ (omega (arith, room)),
                above _ (omega (arith, room)),
                body-IsOther _ (omega arith) (λ e. omega (arith, e)) (omega arith)
                    (λ e. omega (arith, e)),
              )
              calls.loop1;
        call1_teardown =
            holds_only _ _ (omega arith) (omega arith) (λ e. omega (arith, e))
              (λ e. omega (arith, e)) l.call1_teardown;
        call2_setup = holds_entry _ _ (parts_at m₂).enter (omega arith) (omega arith) calls.setup2;
        loop2 =
            IsLoop-Frame links (omega (arith, room, calls.apart, calls.below))
              (
                above _ (omega (arith, room, calls.apart)),
                above _ (omega (arith, room, calls.apart)),
                above _ (omega (arith, room, calls.apart)),
                body-IsOther _ (omega arith) (λ e. omega (arith, e)) (omega arith)
                    (λ e. omega (arith, e)),
              )
              calls.loop2;
        call2_teardown =
            holds_only _ _ (omega arith) (omega arith) (λ e. omega (arith, e))
              (λ e. omega (arith, e)) l.call2_teardown;
        se_start_teardown = start_holds;
        se_end_teardown =
            holds_only _ _ (omega arith) (omega arith) (λ e. omega (arith, e))
              (λ e. omega (arith, e)) l.se_end_teardown;
        teardown =
            ends_with _ _ (omega arith) (omega arith) (λ e. omega (arith, e))
              (λ e. omega (arith, e)) (λ e. omega (arith, e)) (λ e. omega (arith, e))
              prepared.teardown l.teardown;
        exit =
            holds_only _ _ (omega arith) (omega arith) (λ e. omega (arith, e))
              (λ e. omega (arith, e)) l.exit;
      }

  -- The checks are left alone by what follows, and are walked as they were linked.
  checks_kept :
      All
        (λ (c : Check).
          ((c.cond_block < length t₃) × (n + 12 ≤ c.cond_block))
          × (c.fail_block < length t₃)
          × (n + 12 ≤ c.fail_block))
        checks
  checks_kept =
      All-map _ _ checks
        (λ (c : Check)
            (b : (length prepared.before ≤ c.cond_block)
              × (length prepared.before ≤ c.fail_block)
              × (c.cond_block < length t₃)
              × (c.fail_block < length t₃)).
          omega (arith, b, empty.1, prepared.longer))
        prepared.asserts.5

  pub checks-AreExtended : AreExtended prepared.asserts.1 (linked n t₇) checks
  checks-AreExtended =
      AreExtended-Frame prepared.asserts.1 checks later checks_kept prepared.asserts.7

  pub checks_walked :
      (prev : Block) (vs : Values)
      → Walks oracle
          (linked n t₇)
          (blocks_at n).se_end_teardown
          prev
          (target_of (blocks_at n).se_end_teardown checks)
          vs
          checks
  checks_walked prev vs = Walks-Frame later checks_kept (prepared.asserts.4 prev vs)

  -- The calls are where they were put.
  pub call1_placed :
      IsCallBody llvm calls.base1 func args1
        (parts_at (length t₃)).ind
        (blocks_at n).call1_body
        (parts_at (length t₃)).latch
        (parts_at (length t₃)).again
        (linked n t₇)
  call1_placed =
      IsCallBody-Frame links (omega (arith, room, calls.frame.longer))
        (body-IsOther _ (omega arith) (λ e. omega (arith, e)) (omega arith) (λ e. omega (arith, e)))
        calls.call1

  pub call2_placed :
      IsCallBody llvm calls.base2 func args2
        (parts_at m₂).ind
        (blocks_at n).call2_body
        (parts_at m₂).latch
        (parts_at m₂).again
        (linked n t₇)
  call2_placed =
      IsCallBody-Frame links (omega (arith, room, calls.frame.longer))
        (body-IsOther _ (omega arith) (λ e. omega (arith, e)) (omega arith) (λ e. omega (arith, e)))
        calls.call2
