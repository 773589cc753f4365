-- ===== src/Encapsulation/Harness/Made.antt =====
-- What `encapsulateImpl` of SymbolicEncapsulation.cpp promises: a harness, and what that does when it
-- runs.
use ephippion.Prelude.{
  refl, some, ◌+◌, ℕ, ◌^◌, ◌<◌, ◌≤◌, ◌≡◌, Bool, List, [], ◌∷◌, ◌++◌, length, reverse, Text,
}
use ephippion.Direction.{ArgSpec}
use ephippion.Llvm.{
  int, Function, Argument, Block, Value, result, const, ret, create_block, call_at, Llvm, IsLlvm,
  Trace,
}
use ephippion.Ir.{Values, left, jump}
use ephippion.Ir.Positions.{Extends}
use ephippion.Ir.Reaches.{Reaches}
use ephippion.Ir.Visits.{enter}
use ephippion.LoopBuilder.Built.{parts_at}
use ephippion.LoopBuilder.Counts.{count_up}
use ephippion.LoopBuilder.Watched.{entries}
use ephippion.Encapsulation.Arguments.{Pushed}
use ephippion.Encapsulation.Arguments.Released.{AreStored, malloc_func}
use ephippion.Encapsulation.Arguments.Handover.{AreStored-Extends}
use ephippion.Encapsulation.Declarations.Declared.{AreDeclared}
use ephippion.Encapsulation.Declarations.Correct.{symbolic_func, memcpy_func}
use ephippion.Encapsulation.Assertions.{Check, Report}
use ephippion.Encapsulation.Assertions.Chain.{target_of}
use ephippion.Encapsulation.Assertions.Walk.{Walks, AreExtended}
use ephippion.Encapsulation.Assertions.Compared.{AreCompared}
use ephippion.Encapsulation.Assertions.Correct.{assert_func, memcmp_func}
use ephippion.Encapsulation.Harness.{harness_name_prefix}
use ephippion.Encapsulation.Harness.Places.{AreStored-ArePlaces, ArePlaces-rest}
use ephippion.Encapsulation.Harness.Handed.{IsCall, IsCallBody-IsCall}
use ephippion.Encapsulation.Harness.Created.{blocks_at}
use ephippion.Encapsulation.Harness.Calls.{HasCalls}
use ephippion.Encapsulation.Harness.Prepared.{IsPrepared, AreEmpty}
use ephippion.Encapsulation.Harness.Linked.{linked}
use ephippion.Encapsulation.Harness.Runs.{
  calls_watch, calls_in_order, assertions_start, harness_finishes,
}
use ephippion.Encapsulation.Harness.Shape.{HoldsOnly}
use ephippion.Encapsulation.Harness.Shaped.{
  linked-HasShape, checks_walked, checks-AreExtended, call1_placed, call2_placed, harness-Extends,
}

module _ {llvm : Llvm} (laws : IsLlvm llvm) (ndebug : Bool) (mod_name : Text) (iterations : ℕ)
    (oracle : ℕ → Values → ℕ) (func : Function) (arg : Argument) (rest : List Argument)
    (specs : List ArgSpec) where
  -- A harness of the function, whose blocks were created from position `n` on and its loops from
  -- `m₁` and `m₂` on.
  pub record IsHarness (t : Trace) : Type 0 where
    pub n : ℕ
    pub m₁ : ℕ
    pub m₂ : ℕ
    pub values : Pushed
    pub first1 : Value
    pub first2 : Value
    pub others1 : List Value
    pub others2 : List Value
    -- its blocks were created in the function of this name
    pub created :
        (b : Block)
        → n ≤ b
        → b < n + 12
        → (name : Text) × (call_at t b
            ≡ some (create_block name (harness_name_prefix ++ func.name)))
    pub values1 : values.call_args1 ≡ first1 ∷ others1
    pub values2 : values.call_args2 ≡ first2 ∷ others2
    -- the storage of the arguments, and how it starts
    pub stored :
        AreStored llvm iterations specs
          (blocks_at n).setup
          malloc_func
          t
          0
          (arg ∷ rest)
          values.call_args1
          values.call_args2
          values.heap_allocs
    pub undeclared : Trace
    pub declared : Trace
    pub declarations :
        AreDeclared llvm ndebug iterations specs
          (blocks_at n).se_setup
          values.call_args1
          values.call_args2
          symbolic_func
          memcpy_func
          undeclared
          0
          (arg ∷ rest)
          declared
    pub declared-Extends : Extends declared t
    -- each body calls the function once, with the induction variable for the first argument, and for
    -- the others what is stored for them
    pub call1 :
        IsCall func rest others1
          (parts_at m₁).ind
          (blocks_at n).call1_body
          (parts_at m₁).latch
          (parts_at m₁).again
          t
    pub call2 :
        IsCall func rest others2
          (parts_at m₂).ind
          (blocks_at n).call2_body
          (parts_at m₂).latch
          (parts_at m₂).again
          t
    -- a check for each output and for no other value, which compares the two values and then leaves by
    -- its condition
    pub checks : List Check
    pub before : Trace
    pub report : Report
    pub cur_func : Text
    pub compared :
        AreCompared llvm ndebug iterations specs cur_func values.call_args1 values.call_args2
          assert_func memcmp_func report before 0 values.call_args1 checks
    pub conditions : AreExtended before t checks
    -- The run: every iteration in order, then in the reverse order,
    pub calls_run :
        (prev : Block) (vs : Values)
        → Reaches oracle t
            (calls_watch n m₁ m₂)
            (blocks_at n).se_start_teardown
            prev
            (blocks_at n).setup
            vs
            (entries (blocks_at n).call1_body (count_up iterations 0)
              ++ entries (blocks_at n).call2_body (reverse (count_up iterations 0)))
    -- then the checks, until one fails,
    pub checks_walk :
        (prev : Block) (vs : Values)
        → (enter oracle t prev (blocks_at n).se_start_teardown vs
            ≡ left (jump (target_of (blocks_at n).se_end_teardown checks)) vs)
          × Walks oracle t
              (blocks_at n).se_end_teardown
              (blocks_at n).se_start_teardown
              (target_of (blocks_at n).se_end_teardown checks)
              vs
              checks
    -- then the return of 0.
    pub finishes :
        (prev : Block) (vs : Values)
        → Reaches oracle t
            (calls_watch n m₁ m₂)
            (blocks_at n).exit
            prev
            (blocks_at n).se_end_teardown
            vs
            []
    pub exit_body : HoldsOnly t (blocks_at n).exit (ret (const 32 0))

  module _ (n : ℕ) (t₀ : Trace) (empty : AreEmpty n t₀) where
    abbrev pub IsCreatedIn : Trace → Type 0
    IsCreatedIn t =
        (b : Block)
        → n ≤ b
        → b < n + 12
        → (name : Text) × (call_at t b
            ≡ some (create_block name (harness_name_prefix ++ func.name)))

    pub linked-IsHarness :
        (s : Pushed) (v w : Value) (vs ws : List Value) (t₃ t₇ : Trace) (m₂ : ℕ)
        → IsPrepared laws ndebug mod_name iterations oracle arg rest specs n t₀ s t₃
        → s.call_args1 ≡ v ∷ vs
        → s.call_args2 ≡ w ∷ ws
        → HasCalls llvm func n iterations
            (length t₃)
            m₂
            (result (parts_at (length t₃)).ind ∷ vs)
            (result (parts_at m₂).ind ∷ ws)
            t₃
            t₇
        → 2 ≤ iterations
        → iterations < 2 ^ 32
        → func.args ≡ arg ∷ rest
        → arg.type ≡ int 64
        → IsCreatedIn t₀
        → (h : IsHarness (linked n t₇)) × (h.n ≡ n)
    linked-IsHarness s v w vs ws t₃ t₇ m₂ p e1 e2 c two small args_eq number made =
        let places =
          AreStored-ArePlaces llvm iterations specs (blocks_at n).setup t₃ 0 (arg ∷ rest)
            s.call_args1 s.call_args2 s.heap_allocs p.stored in
        let places1 =
          ArePlaces-rest llvm iterations specs (blocks_at n).setup t₃ arg rest v vs
            (rw e1 at places.0) in
        let places2 =
          ArePlaces-rest llvm iterations specs (blocks_at n).setup t₃ arg rest w ws
            (rw e2 at places.1) in
        let x =
          harness-Extends laws ndebug mod_name iterations oracle func arg rest specs n m₂ t₀ t₃ t₇ s
            _ _ empty p c in
        let shape =
          linked-HasShape laws ndebug mod_name iterations oracle func arg rest specs n m₂ t₀ t₃ t₇ s
            _ _ empty p c in
        (
          record {
            n = n;
            created = λ b from to.
                let (name, at) = made b from to in (name, x _ _ (p.frame.extends _ _ at));
            m₁ = length t₃;
            m₂ = m₂;
            values = s;
            first1 = v;
            first2 = w;
            others1 = vs;
            others2 = ws;
            values1 = e1;
            values2 = e2;
            stored =
                AreStored-Extends laws ndebug iterations specs (blocks_at n).setup t₃ _ 0
                  (arg ∷ rest) s.call_args1 s.call_args2 s.heap_allocs x p.stored;
            undeclared = p.undeclared;
            declared = p.declared;
            declarations = p.declarations;
            declared-Extends = λ k h y. x k h (p.declared-Extends k h y);
            call1 =
                IsCallBody-IsCall laws iterations specs (blocks_at n).setup func arg rest args_eq
                  number t₃ c.base1 _ _ _ _ _ vs _ _ _ c.base1-Extends places1 c.ind1
                  (call1_placed laws ndebug mod_name iterations oracle func arg rest specs n m₂ t₀
                    t₃ t₇ s _ _ empty p c);
            call2 =
                IsCallBody-IsCall laws iterations specs (blocks_at n).setup func arg rest args_eq
                  number t₃ c.base2 _ _ _ _ _ ws _ _ _ c.base2-Extends places2 c.ind2
                  (call2_placed laws ndebug mod_name iterations oracle func arg rest specs n m₂ t₀
                    t₃ t₇ s _ _ empty p c);
            checks = p.asserts.0;
            before = p.asserts.1;
            report = _;
            cur_func = _;
            compared = p.asserts.2;
            conditions =
                checks-AreExtended laws ndebug mod_name iterations oracle func arg rest specs n m₂
                  t₀ t₃ t₇ s _ _ empty p c;
            calls_run = λ prev u. calls_in_order oracle shape prev u two small;
            checks_walk = λ prev u. (
              assertions_start oracle shape prev u,
              checks_walked laws ndebug mod_name iterations oracle func arg rest specs n m₂ t₀ t₃ t₇
                  s _ _ empty p c (blocks_at n).se_start_teardown u,
            );
            finishes = λ prev u. harness_finishes oracle shape prev u;
            exit_body = shape.exit;
          },
          refl,
        )
