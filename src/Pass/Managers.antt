-- ===== src/Pass/Managers.antt =====
-- The two wrappers of the pass in SymbolicEncapsulationPass.cpp, one for each pass manager.
use ephippion.Prelude.{
  ◌≡◌, ◌<◌, refl, Bool, true, false, ◌⊎◌, List, [], ◌∷◌, ◌++◌, length, Text, bytes,
}
use ephippion.Options.{Options}
use ephippion.Llvm.{M, Trace}
use ephippion.Llvm.Keeps.{Post}
use ephippion.Pass.{World, run}
use ephippion.Pass.Effects.{run-Notes}

-- LLVM's command line library, which holds the options: it forgets what was given so far, and reads
-- what an environment variable gives to a program of some name.
pub record CommandLine : Type 0 where
  pub reset_all_option_occurrences : Options → Options
  pub parse_environment_options : Text → Text → Options → Options

-- `DEBUG_TYPE` and `PASS_CMDLINE_OPTIONS_ENVVAR`
abbrev pub debug_type : Text
debug_type = bytes "eph-encapsulate"

abbrev pub cmdline_options_envvar : Text
cmdline_options_envvar = bytes "SENCAP_CMDLINE_OPTIONS"

-- `SymbolicEncapsulationPass()`: what is left of it is the options.
unfoldable pub construct_pass : CommandLine → Options → Options
construct_pass cl options =
    cl.parse_environment_options debug_type cmdline_options_envvar
      (cl.reset_all_option_occurrences options)

-- `llvm::AnalysisUsage`
pub record AnalysisUsage : Type 0 where
  pub preserves_all : Bool

abbrev pub get_analysis_usage : AnalysisUsage → AnalysisUsage
get_analysis_usage au = record au { preserves_all = true }

-- The passes that a manager will run.
pub data ModulePass : Type 0 where
  symbolic_encapsulation symbolic_encapsulation_legacy : ModulePass

-- `registerSymbolicEncapsulationLegacyPass`
abbrev pub register_legacy_pass : List ModulePass → List ModulePass
register_legacy_pass manager = manager ++ symbolic_encapsulation_legacy ∷ []

module _ {V : Type 0} (world : World V) (cl : CommandLine) (options : Options) where
  -- `runOnModule`: each run constructs the pass anew.
  unfoldable pub run_on_module : M Bool
  unfolding run construct_pass
  run_on_module = run world (construct_pass cl options)

  -- `getAnalysisUsage` promises that a run preserves all analyses, but a run under the legacy pass
  -- manager that returns has either left the module as it was and returns false, or has added to it
  -- and returns true.
  pub run_on_module-promise :
      (au : AnalysisUsage) (t : Trace)
      → ((get_analysis_usage au).preserves_all ≡ true)
        × Post
            (λ changed t'.
              ((changed ≡ false) × (t' ≡ t)) ⊎ ((changed ≡ true) × (length t < length t')))
            (run_on_module t)
  unfolding run_on_module
  run_on_module-promise au t = (refl, run-Notes world (construct_pass cl options) t)
