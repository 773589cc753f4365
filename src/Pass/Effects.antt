-- ===== src/Pass/Effects.antt =====
-- What a run of SymbolicEncapsulationPass.cpp does to the module, and what it reports.
use ephippion.Prelude.{
  ◌<◌, ◌≤◌, ◌∙◌, ◌≡◌, refl, Bool, true, false, ◌⊎◌, inl, inr, List, [], length, ◌==◌, if◌then◌else◌,
  Bool-cases, arith, not, ◌&&◌,
}
use ephippion.Direction.{ArgSpec}
use ephippion.Options.{Options}
use ephippion.Llvm.{Function, Run, ok, fault, Trace, IsFault}
use ephippion.Llvm.Keeps.{Post, Post-and_then}
use ephippion.Encapsulation.Keeps.Whole.{Encapsulates, encapsulate_with-Encapsulates}
use ephippion.Encapsulation.Harness.{encapsulate_with, encapsulate_impl}
use ephippion.Encapsulation.Defaults.{and_then-IsFault_first, few_iterations-Fails}
use ephippion.Pass.Loop.{IsPreorder, run-R}
use ephippion.Pass.{
  World, Decision, skip, null, encapsulate, act, process_reports, work_list, run, all,
  none_preserved, run_with_analyses,
}

-- From `b` and `t`: nothing has happened, or the change is noted and calls have been made.
abbrev pub Notes : Bool → Trace → Bool → Trace → Type 0
Notes b t b' t' = ((b' ≡ b) × (t' ≡ t)) ⊎ ((b' ≡ true) × (length t < length t'))

Notes-step :
    (b b' b'' : Bool) (t t' t'' : Trace) → Notes b t b' t' → Notes b' t' b'' t'' → Notes b t b'' t''
Notes-step b b' b'' t t' t'' (inl (e, f)) (inl (g, h)) = inl (cc, cc)
Notes-step b b' b'' t t' t'' (inl (e, f)) (inr (g, h)) = inr (g, rw⁻¹ f h)
Notes-step b b' b'' t t' t'' (inr (e, f)) (inl (g, h)) = inr (cc, rw h f)
Notes-step b b' b'' t t' t'' (inr (e, f)) (inr (g, h)) = inr (g, omega arith)

Notes-IsPreorder : IsPreorder Notes
Notes-IsPreorder = record { same = λ b t. inl (refl, refl); step = Notes-step }

-- Nothing has happened.
abbrev pub Same : Bool → Trace → Bool → Trace → Type 0
Same b t b' t' = (b' ≡ b) × (t' ≡ t)

Same-IsPreorder : IsPreorder Same
Same-IsPreorder = record {
  same = λ b t. (refl, refl);
  step = λ b b' b'' t t' t'' h h'. (h'.0 ∙ h.0, h'.1 ∙ h.1);
}

Post-fault : {A : Type 0} (Q : A → Trace → Type 0) (r : Run A) → IsFault r → Post Q r
Post-fault Q (ok a t) h = absurd h
Post-fault Q (fault f) h = tt

module _ {V : Type 0} (world : World V) (options : Options) where
  act-Notes :
      (changed : Bool) (d : Decision world options) (t : Trace)
      → Post (Notes changed t) (act world options changed d t)
  act-Notes changed skip t = inl (refl, refl)
  act-Notes changed null t = tt
  act-Notes changed (encapsulate f specs) t =
      Post-and_then (Encapsulates world.llvm world.ndebug options.iterations_num world.mod_name f t)
        (Notes changed t) _ _
        (encapsulate_with-Encapsulates world.llvm world.ndebug options.iterations_num world.mod_name
          f specs t)
        noted
    where
      noted :
          (done : Bool) (t' : Trace)
          → Encapsulates world.llvm world.ndebug options.iterations_num world.mod_name f t done t'
          → Notes changed t (if done then true else changed) t'
      noted done t' (inl (e, f)) = inl (rw e refl, f)
      noted done t' (inr (e, f)) = inr (rw e refl, f)

  pub run-Notes : (t : Trace) → Post (Notes false t) (run world options t)
  run-Notes = run-R world options Notes Notes-IsPreorder act-Notes

  encapsulate_with-declaration :
      (f : Function) (specs : List ArgSpec) (t : Trace)
      → f.is_declaration ≡ true
      → encapsulate_with world.llvm world.ndebug world.mod_name options.iterations_num f specs t
        ≡ ok false t
  unfolding encapsulate_with encapsulate_impl
  encapsulate_with-declaration f specs t decl = rw decl refl

  act-Same :
      world.ndebug ≡ false
      → options.iterations_num ≤ 1
      → (changed : Bool) (d : Decision world options) (t : Trace)
      → Post (Same changed t) (act world options changed d t)
  act-Same checked few changed skip t = (refl, refl)
  act-Same checked few changed null t = tt
  act-Same checked few changed (encapsulate f specs) t = elim (Bool-cases f.is_declaration) [
    | inl decl ↦ rw (encapsulate_with-declaration f specs t decl) (refl, refl)
    | inr body ↦
        let stop : IsFault (
            encapsulate_with world.llvm world.ndebug world.mod_name options.iterations_num f specs
              t) =
          rw checked (
            few_iterations-Fails world.llvm world.mod_name f options.iterations_num specs t few
              body) in
        Post-fault (Same changed t) (act world options changed (encapsulate f specs) t) (
          and_then-IsFault_first
            (encapsulate_with world.llvm world.ndebug world.mod_name options.iterations_num f specs
              t)
            _ stop)
  ]

  -- With its assertions on and `IterationsNum` at 0 or 1, a run of the pass that returns has changed
  -- nothing, whatever the reports ask for.
  pub run-few_iterations :
      (t : Trace)
      → world.ndebug ≡ false
      → options.iterations_num ≤ 1
      → Post (λ changed t'. (changed ≡ false) × (t' ≡ t)) (run world options t)
  run-few_iterations t checked few =
      run-R world options Same Same-IsPreorder (act-Same checked few) t

  -- A run of the pass under the new pass manager that returns either leaves the module as it was and
  -- reports that no analysis is preserved, or adds to the module and reports that all are preserved.
  pub run_with_analyses-inverted :
      (t : Trace)
      → Post
          (λ preserved t'.
            ((preserved ≡ none_preserved) × (t' ≡ t))
            ⊎ ((preserved ≡ all) × (length t < length t')))
          (run_with_analyses world options t)
  unfolding run_with_analyses
  run_with_analyses-inverted t =
      Post-and_then (Notes false t) _ (run world options t) _ (run-Notes t) reported
    where
      reported :
          (changed : Bool) (t' : Trace)
          → Notes false t changed t'
          → (((if changed then all else none_preserved) ≡ none_preserved) × (t' ≡ t))
            ⊎ (((if changed then all else none_preserved) ≡ all) × (length t < length t'))
      reported changed t' (inl (e, f)) = inl (rw e refl, f)
      reported changed t' (inr (e, f)) = inr (rw e refl, f)

  -- There is no reports directory, it does not exist, or there is no function to work on.
  abbrev pub IsIdle : Trace → Type 0
  IsIdle t =
      (options.reports_dir ≡ [])
      ⊎ ((world.exists options.reports_dir ≡ false)
          ⊎ (work_list world options (world.functions t) ≡ []))

  closed :
      (t : Trace)
      → IsIdle t
      → (not (length (work_list world options (world.functions t)) == 0)
          && (not (length options.reports_dir == 0) && world.exists options.reports_dir))
        ≡ false
  closed t (inl e) = rw e (ground arith)
  closed t (inr (inl e)) = rw e (ground arith)
  closed t (inr (inr e)) = rw e refl

  -- Without a reports directory, with one that does not exist, or with no function to work on, a run
  -- returns, the module is as it was, and the pass reports that no analysis is preserved.
  pub run_with_analyses-nothing_to_do :
      (t : Trace) → IsIdle t → run_with_analyses world options t ≡ ok none_preserved t
  unfolding run_with_analyses run process_reports
  run_with_analyses-nothing_to_do t h =
      elim (Bool-cases
        (length options.json_description_filename == 0 && length options.reports_dir == 0)) [
          | inl unasked ↦ rw unasked refl
          | inr asked ↦ rw (asked, closed t h) refl
        ]
