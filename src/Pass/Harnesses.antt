-- ===== src/Pass/Harnesses.antt =====
-- A whole run of SymbolicEncapsulationPass.cpp: every report that selects a function ends in a
-- harness of it.
use ephippion.Prelude.{
  ◌≡◌, ◌≢◌, refl, ◌^◌, ◌≤◌, ◌<◌, ℕ, Bool, true, false, ◌&&◌, ◌==◌, inl, inr, some, List, [], ◌∷◌,
  length, Text, All, arith,
}
use ephippion.Direction.{ArgSpec}
use ephippion.Options.{Options}
use ephippion.Llvm.{
  int, Argument, Function, IsLlvm, Trace, Succeeds, Succeeds-and_then, Succeeds-map,
}
use ephippion.Llvm.Scope.{InScope}
use ephippion.Ir.{Values}
use ephippion.Ir.Frame.{Frame, Frame-refl, Frame-trans}
use ephippion.Encapsulation.Harness.Prepared.{IsSuited}
use ephippion.Encapsulation.Harness.Stages.{HasName}
use ephippion.Encapsulation.Harness.Correct.{MakesHarness, encapsulate_with-MakesHarness}
use ephippion.Pass.{
  Entry, World, skip, encapsulate, act, decide_entry, work_list, process_entries, process_reports,
  run,
}
use ephippion.Pass.Selection.{Any, IsCandidate}
use ephippion.Pass.Reports.{IsSelected, decide_entry_iff}
use ephippion.Pass.WellFormed.{HoldsReport, decide_entry-SkipsOrActs}

not_empty : {A : Type 0} (xs : List A) → xs ≢ [] → (length xs == 0) ≡ false
not_empty [] ne = absurd (ne refl)
not_empty (x ∷ xs) ne = ground arith

module _ {V : Type 0} (world : World V) (options : Options) (laws : IsLlvm world.llvm)
    (oracle : ℕ → Values → ℕ) where
  -- A function that a harness can be made for.
  pub record IsTarget (f : Function) : Type 0 where
    pub arg : Argument
    pub rest : List Argument
    pub has_body : f.is_declaration ≡ false
    pub args_eq : f.args ≡ arg ∷ rest
    pub number : arg.type ≡ int 64
    pub suited : IsSuited world.llvm world.ndebug (arg ∷ rest)
    pub named : HasName world.llvm f

  abbrev pub Harnesses : (f : Function) → IsTarget f → List ArgSpec → Trace → Bool → Trace → Type 0
  Harnesses f target specs =
      MakesHarness laws world.ndebug world.mod_name options.iterations_num oracle f target.arg
        target.rest specs

  module _ (functions : List Function) where
    -- The directory loop over the entries, from a verdict and a module to a verdict and a module.
    pub data Processes : List Entry → Bool → Trace → Bool → Trace → Type 0 where
      finished : {b : Bool} {t : Trace} → Processes [] b t b t
      skipped :
          {entry : Entry} {entries : List Entry} {b b' : Bool} {t t' : Trace}
          → decide_entry world options t (work_list world options functions) entry ≡ skip
          → Processes entries b t b' t'
          → Processes (entry ∷ entries) b t b' t'
      harnessed :
          {entry : Entry} {entries : List Entry} {b b' : Bool} {t t' : Trace} (f : Function)
          (specs : List ArgSpec) (target : IsTarget f) (t₁ : Trace)
          → IsSelected world options t functions entry f specs
          → Harnesses f target specs t true t₁
          → Processes entries true t₁ b' t'
          → Processes (entry ∷ entries) b t b' t'

    -- The functions that a report may name are targets.
    abbrev pub AreTargets : Type 0
    AreTargets =
        (t : Trace) (name : Text) (f : Function)
        → world.get_function t name ≡ some f
        → Any (IsCandidate world options f) functions
        → IsTarget f

    module _ (targets : AreTargets) (two : 2 ≤ options.iterations_num)
        (small : options.iterations_num < 2 ^ 32) where
      -- The loop has been through the entries and left alone what was there.
      abbrev Ends : List Entry → Bool → Trace → Bool → Trace → Type 0
      Ends entries b t b' t' = Processes entries b t b' t' × Frame world.llvm (λ c. Unit) t t'

      act_target :
          (b : Bool) (t : Trace) (f : Function) (specs : List ArgSpec) (target : IsTarget f)
          → InScope t
          → Succeeds (act world options b (encapsulate f specs) t) (Harnesses f target specs t)
      act_target b t f specs target s =
          Succeeds-and_then (Harnesses f target specs t) (Harnesses f target specs t) _ _
            (encapsulate_with-MakesHarness laws world.ndebug world.mod_name options.iterations_num
              oracle f target.arg target.rest specs t s target.has_body target.args_eq target.number
              target.suited target.named two small)
            (λ done t' (e, first, declared, behind, h). (rw e refl, first, declared, behind, h))

      process_entries-Ends :
          (entries : List Entry) (b : Bool) (t : Trace)
          → All (HoldsReport world options) entries
          → InScope t
          → Succeeds
              (process_entries world options (work_list world options functions) entries b t)
              (Ends entries b t)
      unfolding process_entries
      process_entries-Ends [] b t reports s = (finished, Frame-refl world.llvm t s)
      process_entries-Ends (entry ∷ entries) b t (report, reports) s =
          elim (decide_entry-SkipsOrActs world options t (work_list world options functions) entry
            report) [
              | inl idle ↦ rw idle (
                  Succeeds-map (Ends entries b t) (Ends (entry ∷ entries) b t) _
                    (λ b' t' (p, f). (skipped idle p, f))
                    (process_entries-Ends entries b t reports s))
              | inr (f, specs, acts) ↦
                  let selected =
                    (decide_entry_iff world options t functions entry f specs).0 acts in
                  let target =
                    targets t selected.describes.name f selected.describes.function_eq
                      selected.candidate in
                  rw acts (
                    Succeeds-and_then (Harnesses f target specs t) (Ends (entry ∷ entries) b t) _ _
                      (act_target b t f specs target s)
                      (λ done t₁ (e, first, declared, behind, h). rw e (
                        Succeeds-map (Ends entries true t₁) (Ends (entry ∷ entries) b t) _
                          (λ b' t' (p, later). (
                            harnessed f specs target t₁ selected (refl, first, declared, behind, h)
                                p,
                            Frame-trans world.llvm first later,
                          ))
                          (process_entries-Ends entries true t₁ reports first.scope))))
            ]

  -- A run with a reports directory that exists, entries that hold reports, and a function to work on,
  -- at least two iterations in 32 bits, and functions that harnesses can be made for (with a body, a
  -- number of 64 bits as the first parameter, and sizes and names as the harness needs them), returns.
  -- It has gone through the entries in order: for each that selects a function it has made a harness of
  -- that function, with the descriptions of the report, whose blocks were created in `symenc_` and the
  -- function's name, behind those of an earlier report on the same function; it has skipped the others;
  -- the verdict is true from the first harness on; and all that was in the module is left as it was.
  pub run-Processes :
      (t : Trace)
      → InScope t
      → options.reports_dir ≢ []
      → world.exists options.reports_dir ≡ true
      → work_list world options (world.functions t) ≢ []
      → All (HoldsReport world options) (world.entries (world.native options.reports_dir))
      → AreTargets (world.functions t)
      → 2 ≤ options.iterations_num
      → options.iterations_num < 2 ^ 32
      → Succeeds (run world options t) (λ changed t'.
        Processes
          (world.functions t)
          (world.entries (world.native options.reports_dir))
          false
          t
          changed
          t'
        × Frame world.llvm (λ c. Unit) t t')
  unfolding run process_reports
  run-Processes t s given exists work reports targets two small =
      let asked : (length options.json_description_filename == 0 && length options.reports_dir == 0)
          ≡ false =
        rw (not_empty options.reports_dir given) (ground arith) in
      rw asked (
        rw (not_empty _ work, not_empty options.reports_dir given, exists)
          (process_entries-Ends (world.functions t) targets two small
            (world.entries (world.native options.reports_dir)) false t reports s))
