-- ===== src/Registration.antt =====
-- lib/Passes/RegisterPasses.cpp and Passes.def: how `opt` gets to know the pass.
mod Tests
use ephippion.Prelude.{
  ◌≡◌, ◌≢◌, refl, Bool, true, false, inl, inr, List, [], ◌∷◌, ◌++◌, Text, text_eq, text_eq_iff,
  Bool-cases, bytes, if◌then◌else◌, ℕ, All, ◌∙◌,
}
use ephippion.Options.{Options}
use ephippion.Pass.Managers.{CommandLine, construct_pass, ModulePass, symbolic_encapsulation}

-- A pass manager, and the options, which the constructor of a pass changes.
pub record ModulePassManager : Type 0 where
  pub passes : List ModulePass
  pub options : Options

abbrev pub Callback : Type 0
Callback = Text → ModulePassManager → Bool × ModulePassManager

-- the only entry of Passes.def
abbrev pub pass_name : Text
pass_name = bytes "eph-encapsulate"

module _ (cl : CommandLine) where
  -- `FPM.addPass(SymbolicEncapsulationPass())`
  unfoldable pub add_pass : ModulePassManager → ModulePassManager
  add_pass manager = record {
    passes = manager.passes ++ symbolic_encapsulation ∷ [];
    options = construct_pass cl manager.options;
  }

  unfoldable pub parse_module_pipeline : Callback
  unfolding add_pass
  parse_module_pipeline name manager =
      if text_eq name pass_name then (true, add_pass manager) else (false, manager)

  -- `registerPasses`, on the callbacks of a `PassBuilder`
  abbrev pub register_passes : List Callback → List Callback
  register_passes callbacks = callbacks ++ parse_module_pipeline ∷ []

-- `llvm::PassPluginLibraryInfo`
pub record PassPluginLibraryInfo : Type 0 where
  pub api_version : ℕ
  pub plugin_name : Text
  pub plugin_version : Text
  pub register_callbacks : List Callback → List Callback

unfoldable pub get_pass_plugin_info :
    CommandLine → (api_version : ℕ) → (version : Text) → PassPluginLibraryInfo
unfolding parse_module_pipeline
get_pass_plugin_info cl api_version version = record {
  api_version = api_version;
  plugin_name = bytes "EphippionPlugin";
  plugin_version = version;
  register_callbacks = register_passes cl;
}

-- What is relied on of LLVM's handling of a name in a pipeline: the callbacks are asked in order, and
-- the first that takes the name decides.
pub record AsksInOrder (parse : List Callback → Callback) : Type 0 where
  pub exhausted :
      (name : Text) (manager : ModulePassManager) → parse [] name manager ≡ (false, manager)
  pub refused :
      (c : Callback) (cs : List Callback) (name : Text) (manager : ModulePassManager)
      → c name manager ≡ (false, manager)
      → parse (c ∷ cs) name manager ≡ parse cs name manager
  pub taken :
      (c : Callback) (cs : List Callback) (name : Text) (manager manager' : ModulePassManager)
      → c name manager ≡ (true, manager')
      → parse (c ∷ cs) name manager ≡ (true, manager')

-- The callbacks refuse the name.
abbrev pub Refuse : Text → ModulePassManager → List Callback → Type 0
Refuse name manager = All (λ c. c name manager ≡ (false, manager))

module _ (cl : CommandLine) {parse : List Callback → Callback} (order : AsksInOrder parse) where
  parse-refused :
      (callbacks more : List Callback) (name : Text) (manager : ModulePassManager)
      → Refuse name manager callbacks
      → parse (callbacks ++ more) name manager ≡ parse more name manager
  parse-refused [] more name manager h = refl
  parse-refused (c ∷ cs) more name manager (h, hs) =
      order.refused c (cs ++ more) name manager h ∙ parse-refused cs more name manager hs

  parse_module_pipeline-other :
      (name : Text) (manager : ModulePassManager)
      → name ≢ pass_name
      → parse_module_pipeline cl name manager ≡ (false, manager)
  unfolding parse_module_pipeline
  parse_module_pipeline-other name manager ne = elim (Bool-cases (text_eq name pass_name)) [
    | inl same ↦ absurd (ne ((text_eq_iff name pass_name).0 same))
    | inr other ↦ rw other refl
  ]

  parse_module_pipeline-own :
      (name : Text) (manager : ModulePassManager)
      → name ≡ pass_name
      → parse_module_pipeline cl name manager ≡ (true, add_pass cl manager)
  unfolding parse_module_pipeline
  parse_module_pipeline-own name manager e = rw ((text_eq_iff name pass_name).1 e) refl

  -- Where LLVM asks the callbacks in order, and those that were there before the plugin refuse a name:
  -- if it is `eph-encapsulate` then it is taken, the options that were given so far are forgotten and
  -- then read from `SENCAP_CMDLINE_OPTIONS` for that program name, and the pass is put behind the
  -- passes of the manager; any other name is refused and changes nothing.
  pub get_pass_plugin_info-parses :
      (api_version : ℕ) (version : Text) (callbacks : List Callback) (name : Text)
      (manager : ModulePassManager)
      → Refuse name manager callbacks
      → (name ≡ pass_name
          → parse
              ((get_pass_plugin_info cl api_version version).register_callbacks callbacks)
              name
              manager
            ≡ (
              true,
              record {
                passes = manager.passes ++ symbolic_encapsulation ∷ [];
                options =
                    cl.parse_environment_options
                      (bytes "eph-encapsulate")
                      (bytes "SENCAP_CMDLINE_OPTIONS")
                      (cl.reset_all_option_occurrences manager.options);
              },
            ))
        × (name ≢ pass_name
            → parse
                ((get_pass_plugin_info cl api_version version).register_callbacks callbacks)
                name
                manager
              ≡ (false, manager))
  unfolding get_pass_plugin_info add_pass construct_pass
  get_pass_plugin_info-parses api_version version callbacks name manager refuse = (
    λ e.
        parse-refused callbacks (parse_module_pipeline cl ∷ []) name manager refuse
        ∙ order.taken _ [] name manager _ (parse_module_pipeline-own name manager e),
    λ ne.
        parse-refused callbacks (parse_module_pipeline cl ∷ []) name manager refuse
        ∙ order.refused _ [] name manager (parse_module_pipeline-other name manager ne)
        ∙ order.exhausted name manager,
  )
