-- ===== src/Pass.antt =====
-- lib/Transforms/Passes/SymbolicEncapsulationPass.cpp: the pass. It reads reports from a directory
-- and encapsulates the functions that they name.
pub mod Selection
pub mod Reports
pub mod Loop
pub mod Effects
pub mod WellFormed
pub mod Errors
pub mod Harnesses
pub mod Managers
mod Tests
use ephippion.Prelude.{
  ℕ, Bool, true, false, not, ◌&&◌, ◌||◌, Option, none, some, List, [], ◌∷◌, ◌++◌, length, ◌==◌,
  if◌then◌else◌, Text, text_eq, bytes,
}
use ephippion.Direction.{ArgSpec, is_outbound}
use ephippion.Options.{Options}
use ephippion.Llvm.{Function, Llvm, Trace, M, pure, ◌>>=◌, ◌>>◌, ask, fail, null_pointer}
use ephippion.Encapsulation.Harness.{encapsulate_with}
use ephippion.Exchange.{Json, ErrorOr, value, error, Disk, from_json, read_json_from_file}

-- An entry of the reports directory: its path, and whether it can be asked for its status.
pub record Entry : Type 0 where
  pub path : Text
  pub has_status : Bool

-- What the pass finds around it: the disk, with the words of a file and the entries of a directory
-- up to the first error; LLVM's functions on paths and names; and the functions of the module.
pub record World (V : Type 0) : Type 0 where
  pub posix : Bool
  pub disk : Disk
  pub words_of : Text → List Text
  pub exists : Text → Bool
  pub native : Text → Text
  pub entries : Text → List Entry
  pub path_filename : Text → Text
  pub starts_with : Text → Text → Bool
  pub ends_with : Text → Text → Bool
  pub json : Json V
  pub llvm : Llvm
  pub ndebug : Bool
  pub mod_name : Text
  -- the functions of the module in order, and `Module::getFunction`
  pub functions : Trace → List Function
  pub get_function : Trace → Text → Option Function
  -- a description whose `Direction` and `IteratorDependent` were not initialised
  pub uninitialised : ArgSpec

unfoldable pub is_in : List Text → Text → Bool
is_in [] e = false
is_in (c ∷ cs) e = text_eq c e || is_in cs e

-- `std::find(workList, F)`: functions are compared by address, and a module has one of each name.
unfoldable pub is_listed : List Function → Function → Bool
is_listed [] f = false
is_listed (g ∷ gs) f = text_eq g.name f.name || is_listed gs f

-- "requiresConditions"
unfoldable pub any_outbound : List ArgSpec → Bool
any_outbound [] = false
any_outbound (s ∷ ss) = is_outbound s.direction || any_outbound ss

module _ {V : Type 0} (world : World V) (options : Options) where
  -- `EphippionFunctionWhiteListFile.getPosition()` as a condition
  abbrev pub has_white_list : Bool
  has_white_list = not (options.function_white_list_position == 0)

  abbrev pub white_list : List Text
  white_list = if has_white_list then world.words_of options.function_white_list_file else []

  -- the loop that fills `workList`
  unfoldable pub work_list : List Function → List Function
  unfolding is_in
  work_list [] = []
  work_list (f ∷ fs) =
      let rest = work_list fs in
      if f.is_declaration
      then rest
      else if has_white_list && not (is_in white_list f.name)
      then rest
      else f ∷ rest

  -- "argSpecs.push_back(as)": pushed whether or not the entry could be read
  unfoldable pub read_specs : List V → List ArgSpec
  read_specs [] = []
  read_specs (e ∷ es) = (from_json world.json e world.uninitialised).1 ∷ read_specs es

  -- What is done about a report: nothing, or a function is encapsulated.
  pub data Decision : Type 0 where
    skip : Decision
    null : Decision
    encapsulate : Function → List ArgSpec → Decision

  abbrev pub decide_specs : Function → List ArgSpec → Decision
  decide_specs f specs =
      if not (any_outbound specs) && not options.force_encapsulation
      then skip
      else encapsulate f specs

  abbrev pub decide_array : Function → Option (List V) → Decision
  decide_array f none = null
  decide_array f (some asa) = decide_specs f (read_specs asa)

  abbrev pub decide_args : Function → Option V → Decision
  decide_args f none = null
  decide_args f (some args) = decide_array f (world.json.get_array args (bytes "argspecs"))

  abbrev pub decide_function : List Function → V → Option Function → Decision
  decide_function work report none = skip
  decide_function work report (some f) =
      if not (is_listed work f)
      then skip
      else decide_args f (world.json.get_object report (bytes "args"))

  abbrev pub decide_name : Trace → List Function → V → Option Text → Decision
  decide_name t work report none = null
  decide_name t work report (some name) = decide_function work report (world.get_function t name)

  abbrev pub decide_report : Trace → List Function → Option V → Decision
  decide_report t work none = null
  decide_report t work (some report) =
      decide_name t work report (world.json.get_string report (bytes "func"))

  abbrev pub decide_value : Trace → List Function → ErrorOr V → Decision
  decide_value t work (error e) = skip
  decide_value t work (value v) = decide_report t work (world.json.as_object v)

  -- the body of the directory loop up to the call of `encapsulate`
  unfoldable pub decide_entry : Trace → List Function → Entry → Decision
  unfolding is_listed any_outbound read_specs
  decide_entry t work entry =
      let filename = world.path_filename entry.path in
      if not (world.starts_with filename options.report_prefix)
        || not (world.ends_with filename (bytes ".json"))
      then skip
      else if not entry.has_status
      then skip
      else decide_value t work (
          read_json_from_file world.json world.posix world.path_filename world.disk filename
            options.reports_dir)

  abbrev pub act : Bool → Decision → M Bool
  act changed skip = pure changed
  act changed null = fail null_pointer
  act changed (encapsulate f specs) =
      encapsulate_with world.llvm world.ndebug world.mod_name options.iterations_num f specs
      >>= λ done. pure (if done then true else changed)

  -- the directory loop
  unfoldable pub process_entries : List Function → List Entry → Bool → M Bool
  unfolding decide_entry
  process_entries work [] changed = pure changed
  process_entries work (entry ∷ entries) changed =
      ask (λ t. decide_entry t work entry) >>= λ decision.
      act changed decision >>= process_entries work entries

  unfoldable pub process_reports : List Function → M Bool
  unfolding process_entries
  process_reports work =
      if not (length work == 0)
        && (not (length options.reports_dir == 0) && world.exists options.reports_dir)
      then process_entries work (world.entries (world.native options.reports_dir)) false
      else pure false

  -- `run` on a module: whether it has changed
  unfoldable pub run : M Bool
  unfolding work_list process_reports
  run =
      if length options.json_description_filename == 0 && length options.reports_dir == 0
      then pure false
      else (ask world.functions >>= λ fs. process_reports (work_list fs))

-- `llvm::PreservedAnalyses`
pub data PreservedAnalyses : Type 0 where
  all none_preserved : PreservedAnalyses

module _ {V : Type 0} (world : World V) (options : Options) where
  -- `run` for the new pass manager
  unfoldable pub run_with_analyses : M PreservedAnalyses
  unfolding run
  run_with_analyses =
      run world options >>= λ has_changed. pure (if has_changed then all else none_preserved)
