-- ===== src/Pass/Loop.antt =====
-- A run of the directory loop of SymbolicEncapsulationPass.cpp, step by step: what relates the
-- module before and after one report, and can be composed, relates them over a whole run.
use ephippion.Prelude.{Bool, true, false, List, [], ◌∷◌, if◌then◌else◌}
use ephippion.Options.{Options}
use ephippion.Llvm.{Function, Run, ok, fault, Trace, M, pure, ask, ◌>>=◌}
use ephippion.Llvm.Keeps.{Post, Post-and_then}
use ephippion.Pass.{
  Entry, World, Decision, act, process_entries, process_reports, work_list, run, decide_entry,
}

Post-if :
    {A : Type 0} (Q : A → Trace → Type 0) (m n : M A) (t : Trace) (b : Bool)
    → Post Q (m t)
    → Post Q (n t)
    → Post Q ((if b then m else n) t)
Post-if Q m n t true p q = p
Post-if Q m n t false p q = q

-- A relation between the verdict and the module before and after, reflexive and transitive.
pub record IsPreorder (R : Bool → Trace → Bool → Trace → Type 0) : Type 0 where
  pub same : (b : Bool) (t : Trace) → R b t b t
  pub step : (b b' b'' : Bool) (t t' t'' : Trace) → R b t b' t' → R b' t' b'' t'' → R b t b'' t''

module _ {V : Type 0} (world : World V) (options : Options)
    (R : Bool → Trace → Bool → Trace → Type 0) (order : IsPreorder R)
    (act-R : (b : Bool) (d : Decision world options) (t : Trace)
      → Post (R b t) (act world options b d t)) where
  process_entries-R :
      (work : List Function) (entries : List Entry) (changed : Bool) (t : Trace)
      → Post (R changed t) (process_entries world options work entries changed t)
  unfolding process_entries
  process_entries-R work [] changed t = order.same changed t
  process_entries-R work (entry ∷ entries) changed t =
      Post-and_then (R changed t) (R changed t) _ _
        (act-R changed (decide_entry world options t work entry) t)
        (λ b t' first. Post-step b t' first _ (process_entries-R work entries b t'))
    where
      Post-step :
          (b : Bool) (t' : Trace)
          → R changed t b t'
          → (r : Run Bool) → Post (R b t') r
          → Post (R changed t) r
      Post-step b t' first (ok b' u) others = order.step _ _ _ _ _ _ first others
      Post-step b t' first (fault f) others = tt

  process_reports-R :
      (work : List Function) (t : Trace) → Post (R false t) (process_reports world options work t)
  unfolding process_reports
  process_reports-R work t =
      Post-if (R false t)
        (process_entries world options work (world.entries (world.native options.reports_dir))
          false)
        (pure false) t _ (process_entries-R work _ false t) (order.same false t)

  pub run-R : (t : Trace) → Post (R false t) (run world options t)
  unfolding run
  run-R t =
      Post-if (R false t) (pure false)
        (ask world.functions >>= λ fs. process_reports world options (work_list world options fs)) t
        _ (order.same false t) (process_reports-R (work_list world options (world.functions t)) t)
