-- ===== src/Pass/Tests.antt =====
-- The theorems on the pass at a concrete world: one report, "lpc.f.json", about the one function.
use ephippion.Prelude.{
  ◌≡◌, ◌≢◌, subst, Bool, ◌↔◌, ◌⊎◌, inl, ◌<◌, refl, true, false, none, some, List, [], ◌∷◌, ◌++◌,
  length, Text, bytes, text_eq, if◌then◌else◌, arith,
}
use ephippion.Direction.{ArgSpec, arg_spec, is_outbound}
use ephippion.Options.{Options, default_options}
use ephippion.Llvm.{int, ptr, void, Function, ok, Succeeds}
use ephippion.Llvm.Concrete.{concrete, concrete-IsLlvm}
use ephippion.Llvm.Keeps.{Post}
use ephippion.Ir.Frame.{Frame}
use ephippion.Exchange.{Json, from_json, read_json_from_file, read_path}
use ephippion.Pass.{
  Entry, World, encapsulate, is_listed, work_list, decide_entry, process_entries, run,
  run_with_analyses, all, none_preserved, any_outbound, read_specs,
}
use ephippion.Pass.Selection.{Any, IsCandidate, work_list_iff}
use ephippion.Pass.Errors.{no_status, process_entries-unusable}
use ephippion.Pass.WellFormed.{IsReport}
use ephippion.Pass.Harnesses.{IsTarget, Processes, run-Processes}
use ephippion.Pass.Managers.{CommandLine, get_analysis_usage, run_on_module, run_on_module-promise}
use ephippion.Pass.Reports.{IsSelected, decide_entry_iff}
use ephippion.Pass.Effects.{
  run_with_analyses-inverted, run-few_iterations, run_with_analyses-nothing_to_do,
}

abbrev the_function : Function
the_function = record {
  name = bytes "f";
  result_type = void;
  args =
      (record { name = bytes "i"; type = int 64 })
      ∷ (record { name = bytes "p"; type = ptr (int 32) })
      ∷ [];
  is_declaration = false;
}

-- A report is its own text here; its descriptions are an input and an output.
abbrev report_json : Json Text
report_json = record {
  as_object = some;
  get_string = λ v key. some v;
  get_object = λ v key. some v;
  get_array = λ v key. some (bytes "1" ∷ bytes "2" ∷ []);
  map_int = λ v key. some (if text_eq v (bytes "1") then 1 else 3);
  map_bool = λ v key. some true;
  parse = some;
  format = λ v. v;
}

abbrev the_entry : Entry
the_entry = record { path = bytes "lpc.f.json"; has_status = true }

abbrev the_world : World Text
the_world = record {
  posix = true;
  disk = record { contents = λ p. some (bytes "f"); stat_missing = λ p. true };
  words_of = λ p. [];
  exists = λ p. true;
  native = λ p. p;
  entries = λ p. the_entry ∷ [];
  path_filename = λ p. p;
  starts_with = λ s prefix. true;
  ends_with = λ s suffix. true;
  json = report_json;
  llvm = concrete;
  ndebug = false;
  mod_name = bytes "m";
  functions = λ t. the_function ∷ [];
  get_function = λ t name. if text_eq name (bytes "f") then some the_function else none;
  uninitialised = arg_spec [] 0 false;
}

abbrev four_times : Options
four_times = record default_options { iterations_num = 4; reports_dir = bytes "reports" }

abbrev once : Options
once = record default_options { reports_dir = bytes "reports" }

abbrev the_specs : List ArgSpec
the_specs = arg_spec [] 1 true ∷ arg_spec [] 3 true ∷ []

decides :
    decide_entry the_world four_times []
      (work_list the_world four_times (the_function ∷ []))
      the_entry
    ≡ encapsulate the_function the_specs
unfolding decide_entry is_listed work_list any_outbound read_specs from_json read_json_from_file
    read_path text_eq is_outbound
decides = refl

work_list_iff_example :
    (is_listed (work_list the_world four_times (the_function ∷ [])) the_function ≡ true)
    ↔ Any (IsCandidate the_world four_times the_function) (the_function ∷ [])
work_list_iff_example = work_list_iff the_world four_times (the_function ∷ []) the_function

decide_entry_iff_example :
    (decide_entry the_world four_times []
        (work_list the_world four_times (the_function ∷ []))
        the_entry
      ≡ encapsulate the_function the_specs)
    ↔ IsSelected the_world four_times [] (the_function ∷ []) the_entry the_function the_specs
decide_entry_iff_example =
    decide_entry_iff the_world four_times [] (the_function ∷ []) the_entry the_function the_specs

the_function-IsTarget : IsTarget the_world four_times concrete-IsLlvm (λ n vs. n) the_function
unfolding concrete
the_function-IsTarget = record {
  arg = record { name = bytes "i"; type = int 64 };
  rest = (record { name = bytes "p"; type = ptr (int 32) }) ∷ [];
  has_body = refl;
  args_eq = refl;
  number = refl;
  suited = record {
    heap = ((λ u. refl), (λ u. refl));
    symbolic = ((λ u. refl), (λ u. refl));
    assertions = ((λ u. refl), (λ u. refl));
    byte = refl;
    usable = (refl, (refl, tt));
  };
  named = λ u. refl;
}

found-IsTarget :
    (b : Bool) (f : Function)
    → (if b then some the_function else none) ≡ some f
    → IsTarget the_world four_times concrete-IsLlvm (λ n vs. n) f
found-IsTarget true f h =
    let same : the_function ≡ f = cc in
    subst (λ g. IsTarget the_world four_times concrete-IsLlvm (λ n vs. n) g) same
      the_function-IsTarget
found-IsTarget false f h = cc

text-IsReport : (v : Text) → IsReport the_world four_times v
text-IsReport v = record {
  object = v;
  name = v;
  args = v;
  descriptions = bytes "1" ∷ bytes "2" ∷ [];
  object_eq = refl;
  name_eq = refl;
  args_eq = refl;
  descriptions_eq = refl;
}

has_work : work_list the_world four_times (the_function ∷ []) ≢ []
unfolding work_list
has_work = λ e. cc

run-Processes_example : Succeeds (run the_world four_times []) (λ changed t'.
    Processes the_world four_times concrete-IsLlvm
      (λ n vs. n)
      (the_function ∷ [])
      (the_entry ∷ [])
      false
      []
      changed
      t'
    × Frame concrete (λ c. Unit) [] t')
run-Processes_example =
    run-Processes the_world four_times concrete-IsLlvm (λ n vs. n) [] tt (λ e. cc) refl has_work
      ((λ v e. text-IsReport v), tt) (λ t name f h c. found-IsTarget _ f h) (omega arith)
      (omega arith)

run_with_analyses-inverted_example :
    Post
      (λ preserved t'.
        ((preserved ≡ none_preserved) × (t' ≡ [])) ⊎ ((preserved ≡ all) × (0 < length t')))
      (run_with_analyses the_world four_times [])
run_with_analyses-inverted_example = run_with_analyses-inverted the_world four_times []

run-few_iterations_example :
    Post (λ changed t'. (changed ≡ false) × (t' ≡ [])) (run the_world once [])
run-few_iterations_example = run-few_iterations the_world once [] refl (omega arith)

run_with_analyses-nothing_to_do_example :
    run_with_analyses the_world default_options [] ≡ ok none_preserved []
run_with_analyses-nothing_to_do_example =
    run_with_analyses-nothing_to_do the_world default_options [] (inl refl)

abbrev the_command_line : CommandLine
the_command_line = record {
  reset_all_option_occurrences = λ options. default_options;
  parse_environment_options = λ program variable options. four_times;
}

run_on_module-promise_example :
    ((get_analysis_usage (record { preserves_all = false })).preserves_all ≡ true)
    × Post
        (λ changed t'. ((changed ≡ false) × (t' ≡ [])) ⊎ ((changed ≡ true) × (0 < length t')))
        (run_on_module the_world the_command_line default_options [])
run_on_module-promise_example =
    run_on_module-promise the_world the_command_line default_options
      (record { preserves_all = false }) []

-- A report without a status in front of the other.
abbrev other_entry : Entry
other_entry = record { path = bytes "lpc.g.json"; has_status = false }

process_entries-unusable_example :
    process_entries the_world four_times
      (the_function ∷ [])
      ([] ++ other_entry ∷ the_entry ∷ [])
      false
      []
    ≡ process_entries the_world four_times (the_function ∷ []) ([] ++ the_entry ∷ []) false []
process_entries-unusable_example =
    process_entries-unusable the_world four_times (the_function ∷ []) [] (the_entry ∷ [])
      other_entry false [] (no_status refl)
