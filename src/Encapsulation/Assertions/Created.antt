-- ===== src/Encapsulation/Assertions/Created.antt =====
-- The checks that the first loop of `createSymbolicAssertions` creates.
use ephippion.Prelude.{
  ℕ, suc, ◌≡◌, ◌≢◌, refl, Bool, true, not, ◌||◌, ◌==◌, ==_ne, ==_refl, some, List, [], ◌∷◌, ◌++◌,
  length, get_elem?, Text, bytes, to_string, arith,
}
use ephippion.Direction.{ArgSpec}
use ephippion.Llvm.{
  Ty, ptr, Callee, Value, result, const, eq, call, icmp, mul, insert, end_of, create_block, Llvm,
  IsLlvm, Trace, ok,
}
use ephippion.Llvm.Scope.{InScope}
use ephippion.Ir.{body_of}
use ephippion.Ir.Laws.{body_of-fresh}
use ephippion.Ir.Frame.{Frame, Frame-call, Frame-insert_new, Frame-quiet}
use ephippion.Encapsulation.Sizes.{multiplier, get_int64}
use ephippion.Ir.Positions.{Extends, Extends-cons}
use ephippion.Encapsulation.Assertions.{Check, check, Report, create_check, compare_memory}
use ephippion.Encapsulation.Assertions.Fresh.{IsCreated}

module _ (llvm : Llvm) (ndebug : Bool) where
  -- A pointer to a type whose size is not zero (or is not asserted), from `t` on.
  abbrev pub IsPointing : Trace → Value → Type 0
  IsPointing t v =
      (e : Ty) × ((t' : Trace) → Extends t t' → llvm.type_of t' v ≡ ptr e)
      × ((not (llvm.alloc_size e == 0) || ndebug) ≡ true)

module _ (llvm : Llvm) (ndebug : Bool) (iterations_num : ℕ) (specs : List ArgSpec) (cur_func : Text)
    (values1 values2 : List Value) (assert_func memcmp : Callee) (report : Report) where
  two_blocks : ℕ → Trace → Trace
  two_blocks i t =
      create_block (bytes "fail" ++ to_string i) cur_func
      ∷ create_block (bytes "cond" ++ to_string i) cur_func
      ∷ t

  -- the calls that create the check of index `i`, for an element type `e`
  checked : ℕ → Ty → ArgSpec → Value → Value → Trace → Trace
  checked i e spec v w t =
      insert (end_of (suc (length t))) (
        call assert_func
          (report.assert_text ∷ report.mod_name ∷ const 32 0 ∷ report.func_name ∷ []))
      ∷ insert (end_of (length t)) (icmp eq (result (suc (suc (suc (length t))))) (const 32 0))
      ∷ insert (end_of (length t)) (call memcmp (v ∷ w ∷ result (suc (suc (length t))) ∷ []))
      ∷ insert (end_of (length t))
          (mul (multiplier spec.iterator_dependent iterations_num) (get_int64 (llvm.alloc_size e)))
      ∷ two_blocks i t

  create_check-checked :
      (v w : Value) (i : ℕ) (e : Ty) (spec : ArgSpec) (t : Trace)
      → llvm.type_of (two_blocks i t) v ≡ ptr e
      → (not (llvm.alloc_size e == 0) || ndebug) ≡ true
      → get_elem? specs i ≡ some spec
      → get_elem? values2 i ≡ some w
      → create_check llvm ndebug iterations_num specs cur_func values1 values2 assert_func memcmp
          report v i t
        ≡ ok
            (check (length t) (suc (length t)) (result (suc (suc (suc (suc (length t)))))))
            (checked i e spec v w t)
  unfolding create_check compare_memory checked two_blocks
  create_check-checked v w i e spec t typed sized found second =
      rw (typed, sized, found, second) refl

module _ (llvm : Llvm) (ndebug : Bool) (iterations_num : ℕ) (specs : List ArgSpec) (cur_func : Text)
    (values1 values2 : List Value) (assert_func memcmp : Callee) (report : Report) where
  -- The check compares the memory of the two values, as many bytes as the size of the type that the
  -- first points to, times the iterations if the description says so; its condition is that they are
  -- equal.
  abbrev pub IsComparison : Trace → ArgSpec → Ty → Value → Value → Check → Type 0
  IsComparison t spec e v w c =
      (k : ℕ) × (body_of t c.cond_block
        ≡ (
          k,
          mul (multiplier spec.iterator_dependent iterations_num) (get_int64 (llvm.alloc_size e)),
        )
          ∷ (suc k, call memcmp (v ∷ w ∷ result k ∷ []))
          ∷ (suc (suc k), icmp eq (result (suc k)) (const 32 0))
          ∷ [])
      × (c.condition ≡ result (suc (suc k)))

  module _ (laws : IsLlvm llvm) (i : ℕ) (e : Ty) (spec : ArgSpec) (v w : Value) (t : Trace)
      (s : InScope t) where
    last : Trace
    unfolding checked
    last =
        checked llvm ndebug iterations_num specs cur_func values1 values2 assert_func memcmp report
          i e spec v w t

    last_check : Check
    last_check = check (length t) (suc (length t)) (result (suc (suc (suc (suc (length t))))))

    checked-IsComparison : IsComparison last spec e v w last_check
    unfolding last last_check checked two_blocks body_of
    checked-IsComparison = (
      suc (suc (length t)),
      rw
          (
            ==_ne (suc (length t)) (length t) (λ e. omega arith),
            ==_refl (length t),
            body_of-fresh t (length t) s (omega arith),
          )
          refl,
      refl,
    )

    checked-failure :
        body_of last (suc (length t))
        ≡ (
          suc (suc (suc (suc (suc (length t))))),
          call assert_func
              (report.assert_text ∷ report.mod_name ∷ const 32 0 ∷ report.func_name ∷ []),
        )
          ∷ []
    unfolding last checked two_blocks body_of
    checked-failure =
        rw
          (
            ==_refl (suc (length t)),
            ==_ne (length t) (suc (length t)) (λ e. omega arith),
            body_of-fresh t (suc (length t)) s (omega arith),
          )
          refl

    checked-Frame : Frame llvm (λ b. Unit) t last
    unfolding last checked two_blocks
    checked-Frame =
        let opened =
          Frame-call laws
            (Frame-quiet laws (create_block (bytes "cond" ++ to_string i) cur_func) t s tt) _ tt in
        let sized = Frame-insert_new laws opened (length t) _ (omega arith) (omega arith) in
        let ordered = Frame-insert_new laws sized (length t) _ (omega arith) (omega arith) in
        let tested = Frame-insert_new laws ordered (length t) _ (omega arith) (omega arith) in
        Frame-insert_new laws tested (suc (length t)) _ (omega arith) (omega arith)

    checked-IsCreated : IsCreated llvm t last (last_check ∷ [])
    unfolding last last_check checked two_blocks
    checked-IsCreated = record {
      frame = checked-Frame;
      apart = ((tt, tt), (((λ e. omega arith), tt), ((λ e. omega arith), tt)), tt);
      from = ((omega arith, omega arith), tt);
      below = ((omega arith, omega arith), tt);
      open_blocks = (
        (rw (checked-IsComparison.1) (refl, (refl, (refl, tt))), rw checked-failure (refl, tt)),
        tt,
      );
    }

  -- One round of the loop that creates a check.
  pub create_check-IsCreated :
      (laws : IsLlvm llvm) (i : ℕ) (e : Ty) (spec : ArgSpec) (v w : Value) (t : Trace)
      → InScope t
      → ((t' : Trace) → Extends t t' → llvm.type_of t' v ≡ ptr e)
      → (not (llvm.alloc_size e == 0) || ndebug) ≡ true
      → get_elem? specs i ≡ some spec
      → get_elem? values2 i ≡ some w
      → (c : Check) × (t₁ : Trace) × (create_check llvm ndebug iterations_num specs cur_func values1
            values2 assert_func memcmp report v i t
          ≡ ok c t₁)
        × IsCreated llvm t t₁ (c ∷ [])
        × IsComparison t₁ spec e v w c
        × (c.fail_block ≢ c.cond_block)
  unfolding last last_check two_blocks
  create_check-IsCreated laws i e spec v w t s typed sized found second = (
    last_check laws i e spec v w t s,
    last laws i e spec v w t s,
    create_check-checked llvm ndebug iterations_num specs cur_func values1 values2 assert_func
        memcmp report v w i e spec t
        (typed _ (Extends-cons t _ _ (Extends-cons t t _ (λ k x g. g)))) sized found second,
    checked-IsCreated laws i e spec v w t s,
    checked-IsComparison laws i e spec v w t s,
    λ eq. omega arith,
  )
