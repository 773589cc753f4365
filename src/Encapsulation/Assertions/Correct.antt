-- ===== src/Encapsulation/Assertions/Correct.antt =====
-- `createSymbolicAssertions` of SymbolicEncapsulation.cpp from end to end.
use ephippion.Prelude.{
  ℕ, suc, ◌<◌, ◌≤◌, ◌≡◌, ◌≢◌, refl, ◌∙◌, ap, subst, sym, Bool, true, false, ==_ne, ==_iff, List, [],
  ◌∷◌, ◌++◌, length, All, All-map, All-map₂, Text, bytes, arith,
}
use ephippion.Direction.{ArgSpec}
use ephippion.Llvm.{
  int, void, FunctionType, function_type, Callee, callee, Block, Value, result, br,
  get_or_insert_function, global_string_ptr, Llvm, IsLlvm, Trace, Succeeds, Succeeds-and_then,
  Succeeds-map,
}
use ephippion.Llvm.Scope.{InScope}
use ephippion.Ir.{Values, body_of}
use ephippion.Ir.Frame.{
  Frame, Frame-call, Frame-trans, Frame-trans_below, Frame-weaken, Frame-quiet,
}
use ephippion.FuncUtils.{int8_ptr, declare_klee_like_func, declare_assert_like_func, get_function}
use ephippion.Encapsulation.Assertions.{Check, Report, link_checks, create_symbolic_assertions}
use ephippion.Encapsulation.Assertions.Chain.{target_of}
use ephippion.Encapsulation.Assertions.Walk.{AreExtended, Walks, link_checks-Walks}
use ephippion.Encapsulation.Assertions.Created.{IsPointing}
use ephippion.Encapsulation.Assertions.Fresh.{above-NotCond}
use ephippion.Encapsulation.Assertions.Compared.{AreCompared, Leaves, create_checks-Leaves}

-- The checks' blocks were created between two lengths of the sequence.
abbrev pub AreBetween : ℕ → ℕ → List Check → Type 0
AreBetween n m =
    All λ c. (n ≤ c.cond_block) × (n ≤ c.fail_block) × (c.cond_block < m) × (c.fail_block < m)

abbrev pub assert_type : FunctionType
assert_type = function_type void (int8_ptr ∷ int8_ptr ∷ int 32 ∷ int8_ptr ∷ []) false

abbrev pub memcmp_type : FunctionType
memcmp_type = function_type (int 32) [] true

abbrev pub assert_func : Callee
assert_func = callee (bytes "__assert_fail") assert_type

abbrev pub memcmp_func : Callee
memcmp_func = callee (bytes "memcmp") memcmp_type

module _ {llvm : Llvm} (laws : IsLlvm llvm) (ndebug : Bool) (iterations_num : ℕ) (mod_name : Text)
    (oracle : ℕ → Values → ℕ) (start end : Block) (values1 values2 : List Value)
    (specs : List ArgSpec) (t : Trace) where
  -- No function of the module has the name of one of the two and another type.
  abbrev pub HasAssertions : Type 0
  HasAssertions =
      ((u : Trace) → llvm.declares u (bytes "__assert_fail") assert_type ≡ true)
      × ((u : Trace) → llvm.declares u (bytes "memcmp") memcmp_type ≡ true)

  -- the calls in front of the first loop
  declared : Trace
  declared =
      global_string_ptr (bytes "FAILED")
      ∷ global_string_ptr mod_name
      ∷ global_string_ptr (llvm.parent t start)
      ∷ get_or_insert_function (bytes "memcmp") memcmp_type
      ∷ get_or_insert_function (bytes "__assert_fail") assert_type
      ∷ t

  abbrev pub texts : Report
  texts = record {
    func_name = result (suc (suc (length t)));
    mod_name = result (suc (suc (suc (length t))));
    assert_text = result (suc (suc (suc (suc (length t)))));
  }

  -- There is a check for each output and for no other value, in order; control that reaches the start
  -- block evaluates their conditions in order and stops at the first that is 0. The checks' blocks
  -- are new, and no other block but the start is changed.
  abbrev pub Asserts : Trace → Type 0
  Asserts t' =
      (cs : List Check) × (t₁ : Trace) × AreCompared llvm ndebug iterations_num specs
        (llvm.parent t start) values1 values2 assert_func memcmp_func texts t₁ 0 values1 cs
      × ((k : ℕ) × (body_of t' start ≡ body_of t start ++ (k, br (target_of end cs)) ∷ []))
      × ((prev : Block) (vs : Values) → Walks oracle t' end prev (target_of end cs) vs cs)
      × AreBetween (length t) (length t') cs
      × Frame llvm (λ b. start ≢ b) t t'
      × AreExtended t₁ t' cs

  declared-body : body_of declared start ≡ body_of t start
  unfolding declared body_of
  declared-body = refl

  declared-Frame : InScope t → Frame llvm (λ b. Unit) t declared
  unfolding declared
  declared-Frame s =
      let first = Frame-quiet laws _ t s tt in
      let second = Frame-call laws first _ tt in
      let third = Frame-call laws second _ tt in Frame-call laws (Frame-call laws third _ tt) _ tt

  declared-IsPointing :
      (vs : List Value)
      → InScope t
      → All (IsPointing llvm ndebug t) vs
      → All (IsPointing llvm ndebug declared) vs
  declared-IsPointing vs s = All-map _ _ vs (λ v (e, typed, sized).
      (e, (λ t' x. typed t' (λ k c h. x k c ((declared-Frame s).extends k c h))), sized))

  abbrev Created : List Check → Trace → Type 0
  Created =
      Leaves llvm ndebug iterations_num specs (llvm.parent t start) values1 values2 assert_func
        memcmp_func texts 0 values1 [] declared

  link_checks-Asserts :
      InScope t
      → start < length t
      → (cs : List Check) (t₁ : Trace) → Created cs t₁
      → Succeeds (link_checks llvm start end cs t₁) (λ _. Asserts)
  unfolding declared
  link_checks-Asserts s below cs t₁ (ds, e, created, matched) =
      let apart = above-NotCond start (length declared) ds (omega arith) created.from in
      let opened = declared-Frame s in
      subst (λ x. Succeeds (link_checks llvm start end x t₁) (λ _. Asserts)) (sym e)
        (Succeeds-map _ (λ _. Asserts) (link_checks llvm start end ds t₁)
          (λ _ t' (starts, walks, f, extended). (
            ds,
            t₁,
            matched,
            (
              starts.0,
              starts.1
                  ∙ ap (λ b. b ++ (starts.0, br (target_of end ds)) ∷ [])
                      (created.kept start (omega arith) tt ∙ declared-body),
            ),
            walks,
            All-map₂ _ _ _ ds
                (λ c (le : (length declared ≤ c.cond_block) × (length declared ≤ c.fail_block))
                    (lt : (c.cond_block < length t₁) × (c.fail_block < length t₁)).
                  omega (arith, le, lt, f.longer))
                created.from created.below,
            Frame-trans_below llvm
                (Frame-weaken llvm (λ b h a. tt) (Frame-trans llvm opened created.frame)) f
                (λ b h a.
                  let new = above-NotCond b (length declared) ds (omega arith) created.from in
                  (new.0, new.1, a)),
            extended,
          ))
          (link_checks-Walks laws t₁ end oracle start ds created.scope
            (omega (arith, created.longer)) created.apart created.below apart.0 apart.1
            created.open_blocks))

  -- For values that point to types of a size that is not zero (or without assertions), at least one,
  -- as many for each call, with descriptions for all of them, a start block that exists, and a module
  -- where `__assert_fail` and `memcmp` have no other type: `createSymbolicAssertions` returns; for
  -- each output and for no other value there is, in order, a check whose block compares the memory of the
  -- two values and then leaves by the condition; and control that reaches the start block then evaluates
  -- the conditions in order, stops in the failure block of the first that is 0, and reaches the end
  -- block exactly when none is. The checks' blocks are new, and no other block is changed.
  pub create_symbolic_assertions-Asserts :
      InScope t
      → start < length t
      → HasAssertions
      → All (IsPointing llvm ndebug t) values1
      → 0 < length values1
      → length values1 ≡ length values2
      → length values1 ≤ length specs
      → Succeeds
          (create_symbolic_assertions llvm ndebug iterations_num mod_name start end values1 values2
            specs t)
          (λ _. Asserts)
  unfolding create_symbolic_assertions declare_klee_like_func declare_assert_like_func get_function
      declared
  create_symbolic_assertions-Asserts s below has ps some_values same enough =
      rw
        (
          ==_ne (length values1) 0 (λ e. omega arith),
          ==_ne (length values2) 0 (λ e. omega arith),
          (==_iff (length values1) (length values2)).1 same,
          has.0,
          has.1,
        )
        (Succeeds-and_then Created (λ _. Asserts) _ (link_checks llvm start end)
          (create_checks-Leaves llvm ndebug iterations_num specs (llvm.parent t start) values1
            values2 assert_func memcmp_func texts laws values1 0 [] declared
            (tt, (tt, (tt, (tt, (tt, s))))) (declared-IsPointing values1 s ps) (omega arith)
            (omega arith))
          (link_checks-Asserts s below))
