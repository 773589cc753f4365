-- ===== src/Encapsulation/Harness/Prepared.antt =====
-- What `encapsulateImpl` of SymbolicEncapsulation.cpp has made before it builds its loops: the
-- arguments' storage, the symbolic inputs and the assertions.
use ephippion.Prelude.{
  ℕ, ◌+◌, ◌≤◌, ◌≡◌, ◌≢◌, sym, ◌∙◌, ap, subst, Bool, true, List, [], ◌∷◌, length, get_elem?, All,
  All-map, arith, Text,
}
use ephippion.Direction.{ArgSpec}
use ephippion.Llvm.{int, Argument, Block, Llvm, IsLlvm, Trace, Succeeds, Succeeds-map}
use ephippion.Llvm.Scope.{InScope}
use ephippion.Ir.{Values, body_of}
use ephippion.Ir.Positions.{Extends, Extends-append}
use ephippion.Ir.Frame.{Frame, Frame-trans, Frame-weaken}
use ephippion.Ir.Fills.{
  IsStraight, Fills, Fills-refl, Fills-MayDeclare, Fills-MayFill, Succeeds-Post,
}
use ephippion.Encapsulation.Keeps.{setup_harness_args-Keeps, create_symbolic_declarations-Keeps}
use ephippion.Encapsulation.Arguments.{Pushed, setup_harness_args}
use ephippion.Encapsulation.Arguments.Released.{
  AreStored, malloc_func, HasHeap, IsReleased, setup_harness_args-IsReleased,
}
use ephippion.Encapsulation.Arguments.Handover.{
  HasSize, IsUsable, IsUsable-IsSized, AreStored-IsPointing, AreStored-AreDeclarable,
  length-AreStored, AreStored-Extends,
}
use ephippion.Encapsulation.Declarations.{create_symbolic_declarations}
use ephippion.Encapsulation.Declarations.Declared.{AreDeclared}
use ephippion.Encapsulation.Declarations.Correct.{
  symbolic_func, memcpy_func, with_declarations, create_symbolic_declarations-AreDeclared,
}
use ephippion.Encapsulation.Assertions.{create_symbolic_assertions}
use ephippion.Encapsulation.Assertions.Correct.{
  Asserts, assert_func, memcmp_func, create_symbolic_assertions-Asserts,
}
use ephippion.Encapsulation.Harness.Created.{blocks_at}

-- The blocks from `n` on exist and hold nothing.
abbrev pub AreEmpty : ℕ → Trace → Type 0
AreEmpty n t = InScope t × (n + 12 ≤ length t) × ((b : Block) → n ≤ b → body_of t b ≡ [])

-- The module has no other functions of the names that are declared, and sizes are not zero (or not
-- asserted).
pub record IsSuited (llvm : Llvm) (ndebug : Bool) (args : List Argument) : Type 0 where
  pub heap : HasHeap llvm
  pub symbolic :
      ((u : Trace) → llvm.declares u symbolic_func.name symbolic_func.type ≡ true)
      × ((u : Trace) → llvm.declares u memcpy_func.name memcpy_func.type ≡ true)
  pub assertions :
      ((u : Trace) → llvm.declares u assert_func.name assert_func.type ≡ true)
      × ((u : Trace) → llvm.declares u memcmp_func.name memcmp_func.type ≡ true)
  pub byte : HasSize llvm ndebug (int 8)
  pub usable : All (λ a. IsUsable llvm ndebug a.type) args

module _ {llvm : Llvm} (laws : IsLlvm llvm) (ndebug : Bool) (mod_name : Text) (iterations : ℕ)
    (oracle : ℕ → Values → ℕ) (arg : Argument) (rest : List Argument) (specs : List ArgSpec) (n : ℕ)
    (t₀ : Trace) where
  abbrev pub args : List Argument
  args = arg ∷ rest

  -- The storage, the symbolic inputs and the checks, and where the harness's blocks stand.
  pub record IsPrepared (s : Pushed) (t : Trace) : Type 0 where
    pub stored :
        AreStored llvm iterations specs
          (blocks_at n).setup
          malloc_func
          t
          0
          args
          s.call_args1
          s.call_args2
          s.heap_allocs
    pub undeclared : Trace
    pub declared : Trace
    pub declarations :
        AreDeclared llvm ndebug iterations specs
          (blocks_at n).se_setup
          s.call_args1
          s.call_args2
          symbolic_func
          memcpy_func
          undeclared
          0
          args
          declared
    pub declared-Extends : Extends declared t
    pub before : Trace
    pub asserts :
        Asserts laws ndebug iterations mod_name oracle
          (blocks_at n).se_start_teardown
          (blocks_at n).se_end_teardown
          s.call_args1
          s.call_args2
          specs
          before
          t
    pub longer : length t₀ ≤ length before
    pub start_empty : body_of before (blocks_at n).se_start_teardown ≡ []
    pub frame :
        Frame llvm
          (λ b.
            ((blocks_at n).setup ≢ b)
            × ((blocks_at n).teardown ≢ b)
            × ((blocks_at n).se_setup ≢ b)
            × ((blocks_at n).se_start_teardown ≢ b))
          t₀
          t
    pub setup : IsStraight (body_of t (blocks_at n).setup)
    pub se_setup : IsStraight (body_of t (blocks_at n).se_setup)
    pub teardown : IsStraight (body_of t (blocks_at n).teardown)

  abbrev pub Stored : Pushed → Trace → Type 0
  Stored s t =
      IsReleased llvm ndebug iterations specs (blocks_at n).setup (blocks_at n).teardown t₀ args s t
      × Fills llvm (λ b. ((blocks_at n).setup ≢ b) × ((blocks_at n).teardown ≢ b)) t₀ t

  abbrev pub Declared : Pushed → Trace → Trace → Type 0
  Declared s t₁ t =
      (AreDeclared llvm ndebug iterations specs (blocks_at n).se_setup s.call_args1 s.call_args2
          symbolic_func memcpy_func (with_declarations t₁) 0 args t
        × Extends t₁ t)
      × Fills llvm (λ b. (blocks_at n).se_setup ≢ b) t₁ t

  pub stage_setup :
      AreEmpty n t₀
      → IsSuited llvm ndebug args
      → length args ≤ length specs
      → Succeeds
          (setup_harness_args llvm ndebug iterations args specs
            (blocks_at n).setup
            (blocks_at n).teardown
            t₀)
          Stored
  stage_setup (s, room, empty) suited enough =
      Succeeds-Post _ _ _
        (setup_harness_args-IsReleased llvm ndebug iterations specs (blocks_at n).setup
          (blocks_at n).teardown arg rest t₀ suited.heap
          (All-map _ _ args
            (λ (a : Argument) u.
              IsUsable-IsSized llvm ndebug iterations specs (blocks_at n).setup a.type u)
            suited.usable)
          enough)
        ((setup_harness_args-Keeps llvm ndebug iterations (Fills-MayDeclare laws _ t₀) args specs
            (blocks_at n).setup (blocks_at n).teardown
            (Fills-MayFill laws _ t₀ (blocks_at n).setup (omega arith) (λ b a. a.0))
            (Fills-MayFill laws _ t₀ (blocks_at n).teardown (omega arith) (λ b a. a.1))).at
          t₀ (Fills-refl laws _ t₀ s))

  Stored-AreStored :
      (p : Pushed) (t₁ : Trace)
      → Stored p t₁
      → AreStored llvm iterations specs
          (blocks_at n).setup
          malloc_func
          t₁
          0
          args
          p.call_args1
          p.call_args2
          p.heap_allocs
  Stored-AreStored p t₁ ((u, stored, e, x), f) =
      AreStored-Extends laws ndebug iterations specs (blocks_at n).setup u t₁ 0 args p.call_args1
        p.call_args2 p.heap_allocs (subst (λ t. Extends u t) (sym e) (Extends-append _ u)) stored

  pub stage_declare :
      (p : Pushed) (t₁ : Trace)
      → AreEmpty n t₀
      → IsSuited llvm ndebug args
      → length args ≤ length specs
      → Stored p t₁
      → Succeeds
          (create_symbolic_declarations llvm ndebug iterations
            (blocks_at n).se_setup
            args
            p.call_args1
            p.call_args2
            specs
            t₁)
          (λ _. Declared p t₁)
  stage_declare p t₁ (s, room, empty) suited enough stored =
      let f = stored.1.frame in
      let kept = Stored-AreStored p t₁ stored in
      let (same1, same2) =
        length-AreStored laws ndebug iterations specs (blocks_at n).setup t₁ 0 args p.call_args1
          p.call_args2 p.heap_allocs kept in
      Succeeds-Post _ _ _
        (create_symbolic_declarations-AreDeclared llvm ndebug iterations specs
          (blocks_at n).se_setup p.call_args1 p.call_args2 args t₁ suited.symbolic
          (omega (arith, same1)) (omega (arith, same2))
          (AreStored-AreDeclarable laws ndebug iterations specs (blocks_at n).setup
            (blocks_at n).se_setup p.call_args1 p.call_args2 symbolic_func memcpy_func t₁ 0 args
            p.call_args1 p.call_args2 p.heap_allocs suited.usable
            (λ j. let same : 0 + j ≡ j = omega arith in ap (λ k. get_elem? p.call_args1 k) same)
            kept)
          enough (omega (arith, same2)))
        ((create_symbolic_declarations-Keeps llvm ndebug iterations (Fills-MayDeclare laws _ t₁)
            (blocks_at n).se_setup args p.call_args1 p.call_args2 specs
            (Fills-MayFill laws _ t₁ (blocks_at n).se_setup (omega (arith, f.longer))
              (λ b a. a))).at
          t₁ (Fills-refl laws _ t₁ f.scope))

  abbrev Prepared : Pushed → Trace → Trace → Type 0
  Prepared p t₂ t₃ =
      Asserts laws ndebug iterations mod_name oracle (blocks_at n).se_start_teardown
        (blocks_at n).se_end_teardown p.call_args1 p.call_args2 specs t₂ t₃

  pub stage_assert :
      (p : Pushed) (t₁ t₂ : Trace)
      → AreEmpty n t₀
      → IsSuited llvm ndebug args
      → length args ≤ length specs
      → Stored p t₁
      → Declared p t₁ t₂
      → Succeeds
          (create_symbolic_assertions llvm ndebug iterations mod_name
            (blocks_at n).se_start_teardown
            (blocks_at n).se_end_teardown
            p.call_args1
            p.call_args2
            specs
            t₂)
          (λ _. IsPrepared p)
  stage_assert p t₁ t₂ (s, room, empty) suited enough stored ((declared, x), fills) =
      let f = stored.1.frame in
      let g = fills.frame in
      let kept = Stored-AreStored p t₁ stored in
      let (same1, same2) =
        length-AreStored laws ndebug iterations specs (blocks_at n).setup t₁ 0 args p.call_args1
          p.call_args2 p.heap_allocs kept in
      let kept₂ =
        AreStored-Extends laws ndebug iterations specs (blocks_at n).setup t₁ t₂ 0 args p.call_args1
          p.call_args2 p.heap_allocs x kept in
      Succeeds-map _ (λ _. IsPrepared p) _
        (λ _ t₃ (asserts : Prepared p t₂ t₃).
          let h = asserts.6 in
          record {
            stored =
                AreStored-Extends laws ndebug iterations specs (blocks_at n).setup t₂ t₃ 0 args
                  p.call_args1 p.call_args2 p.heap_allocs h.extends kept₂;
            undeclared = with_declarations t₁;
            declared = t₂;
            declarations = declared;
            declared-Extends = h.extends;
            before = t₂;
            asserts = asserts;
            longer = omega (arith, f.longer, g.longer);
            start_empty =
                g.kept _ (omega (arith, f.longer)) (λ e. omega (arith, e))
                ∙ f.kept _ (omega arith) ((λ e. omega (arith, e)), (λ e. omega (arith, e)))
                ∙ empty (blocks_at n).se_start_teardown (omega arith);
            frame = Frame-trans llvm (Frame-weaken llvm (λ b l a. (a.0, a.1)) f) (
                Frame-trans llvm (Frame-weaken llvm (λ b l a. a.2) g)
                  (Frame-weaken llvm (λ b l a. a.3) h));
            setup =
                subst IsStraight
                  (sym (
                    h.kept _ (omega (arith, f.longer, g.longer)) (λ e. omega (arith, e))
                    ∙ g.kept _ (omega (arith, f.longer)) (λ e. omega (arith, e))))
                  (stored.1.straight (blocks_at n).setup (omega arith)
                    (rw (empty (blocks_at n).setup (omega arith)) tt));
            se_setup =
                subst IsStraight
                  (sym (h.kept _ (omega (arith, f.longer, g.longer)) (λ e. omega (arith, e))))
                  (fills.straight (blocks_at n).se_setup (omega (arith, f.longer)) (
                    subst IsStraight
                      (sym (
                        f.kept (blocks_at n).se_setup (omega arith)
                          ((λ e. omega (arith, e)), (λ e. omega (arith, e)))
                        ∙ empty (blocks_at n).se_setup (omega arith)))
                      tt));
            teardown =
                subst IsStraight
                  (sym (
                    h.kept _ (omega (arith, f.longer, g.longer)) (λ e. omega (arith, e))
                    ∙ g.kept _ (omega (arith, f.longer)) (λ e. omega (arith, e))))
                  (stored.1.straight (blocks_at n).teardown (omega arith)
                    (rw (empty (blocks_at n).teardown (omega arith)) tt));
          })
        (create_symbolic_assertions-Asserts laws ndebug iterations mod_name oracle
          (blocks_at n).se_start_teardown (blocks_at n).se_end_teardown p.call_args1 p.call_args2
          specs t₂ g.scope (omega (arith, f.longer, g.longer)) suited.assertions
          (AreStored-IsPointing laws ndebug iterations specs (blocks_at n).setup t₂ 0 args
            p.call_args1 p.call_args2 p.heap_allocs suited.byte suited.usable kept₂)
          (omega (arith, same1)) (same1 ∙ sym same2) (omega (arith, same1)))
