-- ===== src/Registration/Tests.antt =====
-- The plugin behind a plugin that takes no name.
use ephippion.Prelude.{◌≡◌, ◌≢◌, refl, Bool, true, false, List, [], ◌∷◌, bytes}
use ephippion.Options.{default_options}
use ephippion.Pass.Managers.{CommandLine, symbolic_encapsulation}
use ephippion.Registration.{
  ModulePassManager, Callback, pass_name, get_pass_plugin_info, AsksInOrder,
  get_pass_plugin_info-parses,
}

abbrev the_command_line : CommandLine
the_command_line = record {
  reset_all_option_occurrences = λ options. default_options;
  parse_environment_options =
      λ program variable options. record options { iterations_num = 4; reports_dir = bytes "r" };
}

abbrev nothing_known : Callback
nothing_known name manager = (false, manager)

abbrev empty_manager : ModulePassManager
empty_manager = record { passes = []; options = default_options }

abbrev choose : Bool × ModulePassManager → Bool × ModulePassManager → Bool × ModulePassManager
choose (true, manager) r = (true, manager)
choose (false, manager) r = r

abbrev ask_all : List Callback → Callback
ask_all [] name manager = (false, manager)
ask_all (c ∷ cs) name manager = choose (c name manager) (ask_all cs name manager)

ask_all-AsksInOrder : AsksInOrder ask_all
ask_all-AsksInOrder = record {
  exhausted = λ name manager. refl;
  refused = λ c cs name manager h. rw h refl;
  taken = λ c cs name manager manager' h. rw h refl;
}

get_pass_plugin_info-parses_example :
    (pass_name ≡ pass_name
      → ask_all
          ((get_pass_plugin_info the_command_line 1 (bytes "0.1")).register_callbacks
            (nothing_known ∷ []))
          pass_name
          empty_manager
        ≡ (
          true,
          record {
            passes = symbolic_encapsulation ∷ [];
            options =
                the_command_line.parse_environment_options
                  (bytes "eph-encapsulate")
                  (bytes "SENCAP_CMDLINE_OPTIONS")
                  (the_command_line.reset_all_option_occurrences default_options);
          },
        ))
    × (pass_name ≢ pass_name
        → ask_all
            ((get_pass_plugin_info the_command_line 1 (bytes "0.1")).register_callbacks
              (nothing_known ∷ []))
            pass_name
            empty_manager
          ≡ (false, empty_manager))
get_pass_plugin_info-parses_example =
    get_pass_plugin_info-parses the_command_line ask_all-AsksInOrder 1 (bytes "0.1")
      (nothing_known ∷ []) pass_name empty_manager (refl, tt)
