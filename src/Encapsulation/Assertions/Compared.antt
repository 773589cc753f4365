-- ===== src/Encapsulation/Assertions/Compared.antt =====
-- The first loop of `createSymbolicAssertions` from end to end: which values are compared.
use ephippion.Prelude.{
  ℕ, suc, ◌+◌, ◌≤◌, ◌≡◌, refl, sym, ap, subst, ◌∙◌, Bool, true, false, not, ◌==◌, ==_ne, some, List,
  [], ◌∷◌, ◌++◌, append_assoc, append-nil, length, get_elem?, get_elem?-below, Bool-cases, inl, inr,
  All, All-map, Text, arith, if◌then◌else◌,
}
use ephippion.Direction.{ArgSpec, is_outbound}
use ephippion.Llvm.{
  Ty, ptr, Callee, Value, Llvm, IsLlvm, Trace, Run, ok, M, pure, ◌>>=◌, and_then, Succeeds,
  Succeeds-map,
}
use ephippion.Llvm.Scope.{InScope}
use ephippion.Encapsulation.Assertions.{Check, Report, skips_assertion, create_check, create_checks}
use ephippion.Encapsulation.Assertions.Created.{IsPointing, IsComparison, create_check-IsCreated}
use ephippion.Encapsulation.Assertions.Fresh.{IsCreated, IsCreated-none, IsCreated-cons}

module _ (llvm : Llvm) (ndebug : Bool) (iterations_num : ℕ) (specs : List ArgSpec) (cur_func : Text)
    (values1 values2 : List Value) (assert_func memcmp : Callee) (report : Report) where
  -- One check for each value from index `i` on whose description is an output, in order, which
  -- compares it with the value of the second call; the others have none.
  pub data AreCompared (t : Trace) : ℕ → List Value → List Check → Type 0 where
    none_left : {i : ℕ} → AreCompared t i [] []
    passed_over :
        {i : ℕ} {v : Value} {vs : List Value} {cs : List Check} (spec : ArgSpec)
        → get_elem? specs i ≡ some spec
        → is_outbound spec.direction ≡ false
        → AreCompared t (suc i) vs cs
        → AreCompared t i (v ∷ vs) cs
    compared :
        {i : ℕ} {v : Value} {vs : List Value} {c : Check} {cs : List Check} (spec : ArgSpec)
        (e : Ty) (w : Value)
        → get_elem? specs i ≡ some spec
        → is_outbound spec.direction ≡ true
        → get_elem? values2 i ≡ some w
        → llvm.type_of t v ≡ ptr e
        → IsComparison llvm ndebug iterations_num specs cur_func values1 values2 assert_func memcmp
            report t spec e v w c
        → AreCompared t (suc i) vs cs
        → AreCompared t i (v ∷ vs) (c ∷ cs)

  abbrev pub Leaves : ℕ → List Value → List Check → Trace → List Check → Trace → Type 0
  Leaves i vs cs t cs' t' =
      (ds : List Check) × (cs' ≡ cs ++ ds) × IsCreated llvm t t' ds × AreCompared t' i vs ds

  skips_assertion-specs :
      (i : ℕ) (spec : ArgSpec) (t : Trace)
      → get_elem? specs i ≡ some spec
      → (length specs == 0) ≡ false
      → skips_assertion llvm ndebug iterations_num specs cur_func values1 values2 assert_func memcmp
          report i t
        ≡ ok (not (is_outbound spec.direction)) t
  skips_assertion-specs i spec t found some_specs = rw (some_specs, found) refl

  -- the rest of a round, once it is known whether the index is passed over
  round : Value → List Value → ℕ → List Check → Bool → M (List Check)
  round v vs i cs skipped =
      (if skipped
        then pure cs
        else (create_check llvm ndebug iterations_num specs cur_func values1 values2 assert_func
              memcmp report v i
            >>= λ c. pure (cs ++ c ∷ [])))
      >>= create_checks llvm ndebug iterations_num specs cur_func values1 values2 assert_func memcmp
          report vs (suc i)

  create_checks-round :
      (v : Value) (vs : List Value) (i : ℕ) (cs : List Check) (spec : ArgSpec) (b : Bool)
      (t : Trace)
      → get_elem? specs i ≡ some spec
      → (length specs == 0) ≡ false
      → is_outbound spec.direction ≡ b
      → create_checks llvm ndebug iterations_num specs cur_func values1 values2 assert_func memcmp
          report
          (v ∷ vs)
          i
          cs
          t
        ≡ round v vs i cs (not b) t
  unfolding create_checks round
  create_checks-round v vs i cs spec b t found some_specs e =
      ap (λ (r : Run Bool). and_then r (round v vs i cs))
        (skips_assertion-specs i spec t found some_specs)
      ∙ ap (λ x. round v vs i cs (not x) t) e

  round-skipped :
      (v : Value) (vs : List Value) (i : ℕ) (cs : List Check) (t : Trace)
      → round v vs i cs true t
        ≡ create_checks llvm ndebug iterations_num specs cur_func values1 values2 assert_func memcmp
            report vs
            (suc i)
            cs
            t
  unfolding round
  round-skipped v vs i cs t = refl

  round-checked :
      (v : Value) (vs : List Value) (i : ℕ) (cs : List Check) (c : Check) (t t₁ : Trace)
      → create_check llvm ndebug iterations_num specs cur_func values1 values2 assert_func memcmp
          report v i t
        ≡ ok c t₁
      → round v vs i cs false t
        ≡ create_checks llvm ndebug iterations_num specs cur_func values1 values2 assert_func memcmp
            report vs
            (suc i)
            (cs ++ c ∷ [])
            t₁
  unfolding round
  round-checked v vs i cs c t t₁ e =
      ap
        (λ (r : Run Check). and_then (and_then r (λ d. pure (cs ++ d ∷ []))) (
          create_checks llvm ndebug iterations_num specs cur_func values1 values2 assert_func memcmp
            report vs (suc i)))
        e

  pub create_checks-Leaves :
      (laws : IsLlvm llvm) (vs : List Value) (i : ℕ) (cs : List Check) (t : Trace)
      → InScope t
      → All (IsPointing llvm ndebug t) vs
      → i + length vs ≤ length specs
      → i + length vs ≤ length values2
      → Succeeds
          (create_checks llvm ndebug iterations_num specs cur_func values1 values2 assert_func
            memcmp report vs i cs t)
          (Leaves i vs cs t)
  unfolding create_checks
  create_checks-Leaves laws [] i cs t s ps enough enough2 =
      ([], sym (append-nil cs), IsCreated-none llvm t s, none_left)
  create_checks-Leaves laws (v ∷ vs) i cs t s ps enough enough2 =
      let (spec, found) = get_elem?-below specs i (omega arith) in
      let (w, second) = get_elem?-below values2 i (omega arith) in
      let some_specs : (length specs == 0) ≡ false = ==_ne (length specs) 0 (λ e. omega arith) in
      elim (Bool-cases (is_outbound spec.direction)) [
        | inr input ↦
            subst (λ r. Succeeds r (Leaves i (v ∷ vs) cs t))
              (sym (
                create_checks-round v vs i cs spec false t found some_specs input
                ∙ round-skipped v vs i cs t))
              (Succeeds-map (Leaves (suc i) vs cs t) (Leaves i (v ∷ vs) cs t) _
                (λ cs' t' (ds, e, created, rest).
                  (ds, e, created, passed_over spec found input rest))
                (create_checks-Leaves laws vs (suc i) cs t s ps.1 (omega arith) (omega arith)))
        | inl output ↦
            let (e, typed, sized) = ps.0 in
            let (c, t₁, made, first, comparison, ne) =
              create_check-IsCreated llvm ndebug iterations_num specs cur_func values1 values2
                assert_func memcmp report laws i e spec v w t s typed sized found second in
            subst (λ r. Succeeds r (Leaves i (v ∷ vs) cs t))
              (sym (
                create_checks-round v vs i cs spec true t found some_specs output
                ∙ round-checked v vs i cs c t t₁ made))
              (Succeeds-map (Leaves (suc i) vs (cs ++ c ∷ []) t₁) (Leaves i (v ∷ vs) cs t) _
                (λ cs' t' (ds, same, created, rest). (
                  c ∷ ds,
                  same ∙ append_assoc cs (c ∷ []) ds,
                  IsCreated-cons llvm t t₁ t' c ds ne first created,
                  compared spec e w found output second
                      (typed t' (λ k x h. created.extends k x (first.extends k x h)))
                      (
                        comparison.0,
                        created.kept c.cond_block first.below.0.0 tt ∙ comparison.1,
                        comparison.2,
                      )
                      rest,
                ))
                (create_checks-Leaves laws vs (suc i) (cs ++ c ∷ []) t₁ first.scope
                  (All-map _ _ vs
                    (λ u (e', typed', sized').
                      (e', (λ t' x. typed' t' (λ k y h. x k y (first.extends k y h))), sized'))
                    ps.1)
                  (omega arith) (omega arith)))
      ]
