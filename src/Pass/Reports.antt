-- ===== src/Pass/Reports.antt =====
-- What the directory loop of SymbolicEncapsulationPass.cpp makes of a report.
use ephippion.Prelude.{
  ◌≡◌, ◌↔◌, refl, sym, Bool, true, false, not, ◌&&◌, ◌||◌, ◌⊎◌, inl, inr, Option, none, some, List,
  if◌then◌else◌, Text, bytes, arith,
}
use ephippion.Direction.{ArgSpec}
use ephippion.Options.{Options}
use ephippion.Llvm.{Function, Trace}
use ephippion.Exchange.{ErrorOr, value, error, read_json_from_file}
use ephippion.Pass.{
  Entry, World, Decision, skip, encapsulate, is_listed, any_outbound, work_list, read_specs,
  decide_specs, decide_array, decide_args, decide_function, decide_name, decide_report,
  decide_value, decide_entry,
}
use ephippion.Pass.Selection.{Any, IsCandidate, work_list_iff}

one_holds : (a b : Bool) → (not a && not b) ≡ false → (a ≡ true) ⊎ (b ≡ true)
one_holds true b h = inl refl
one_holds false true h = inr refl
one_holds false false h = cc

module _ {V : Type 0} (world : World V) (options : Options) where
  unless_skipped :
      (b : Bool) (d : Decision world options) (f : Function) (specs : List ArgSpec)
      → (if b then skip else d) ≡ encapsulate f specs
      → (b ≡ false) × (d ≡ encapsulate f specs)
  unless_skipped true d f specs h = cc
  unless_skipped false d f specs h = (refl, h)

  abbrev IsWorth : List ArgSpec → Type 0
  IsWorth specs = (any_outbound specs ≡ true) ⊎ (options.force_encapsulation ≡ true)

  -- The report `o` describes the parameters of `f` by `specs`.
  pub record Describes (t : Trace) (o : V) (f : Function) (specs : List ArgSpec) : Type 0 where
    pub name : Text
    args : V
    asa : List V
    func_eq : world.json.get_string o (bytes "func") ≡ some name
    pub function_eq : world.get_function t name ≡ some f
    args_eq : world.json.get_object o (bytes "args") ≡ some args
    asa_eq : world.json.get_array args (bytes "argspecs") ≡ some asa
    specs_eq : specs ≡ read_specs world options asa

  decide_specs_sound :
      (g f : Function) (read specs : List ArgSpec)
      → decide_specs world options g read ≡ encapsulate f specs
      → (g ≡ f) × (read ≡ specs) × IsWorth specs
  decide_specs_sound g f read specs h =
      let (c, e) =
        unless_skipped (not (any_outbound read) && not options.force_encapsulation) _ f specs h in
      let same : read ≡ specs = cc in (cc, same, rw⁻¹ same (one_holds _ _ c))

  decide_array_sound :
      (g f : Function) (a : Option (List V)) (specs : List ArgSpec)
      → decide_array world options g a ≡ encapsulate f specs
      → (asa : List V) × (a ≡ some asa)
        × (g ≡ f)
        × (read_specs world options asa ≡ specs)
        × IsWorth specs
  decide_array_sound g f none specs h = cc
  decide_array_sound g f (some asa) specs h =
      let (same, read, worth) = decide_specs_sound g f _ specs h in (asa, refl, same, read, worth)

  decide_args_sound :
      (g f : Function) (o : Option V) (specs : List ArgSpec)
      → decide_args world options g o ≡ encapsulate f specs
      → (args : V) × (o ≡ some args)
        × (asa : List V) × (world.json.get_array args (bytes "argspecs") ≡ some asa)
        × (g ≡ f)
        × (read_specs world options asa ≡ specs)
        × IsWorth specs
  decide_args_sound g f none specs h = cc
  decide_args_sound g f (some args) specs h =
      let (asa, e, same, read, worth) = decide_array_sound g f _ specs h in
      (args, refl, asa, e, same, read, worth)

  decide_function_sound :
      (work : List Function) (t : Trace) (o : V) (name : Text) (f : Function) (specs : List ArgSpec)
      → world.json.get_string o (bytes "func") ≡ some name
      → decide_function world options work o (world.get_function t name) ≡ encapsulate f specs
      → Describes t o f specs × (is_listed work f ≡ true) × IsWorth specs
  decide_function_sound work t o name f specs named h = found (world.get_function t name) refl h
    where
      found :
          (r : Option Function)
          → world.get_function t name ≡ r
          → decide_function world options work o r ≡ encapsulate f specs
          → Describes t o f specs × (is_listed work f ≡ true) × IsWorth specs
      found none e h = cc
      found (some g) e h =
          let (c, d) = unless_skipped (not (is_listed work g)) _ f specs h in
          let (args, ea, asa, es, same, read, worth) = decide_args_sound g f _ specs d in
          (
            record {
              name = name;
              args = args;
              asa = asa;
              func_eq = named;
              function_eq = rw⁻¹ same e;
              args_eq = ea;
              asa_eq = es;
              specs_eq = sym read;
            },
            rw⁻¹ same (ground arith),
            worth,
          )

  decide_name_sound :
      (work : List Function) (t : Trace) (o : V) (n : Option Text) (f : Function)
      (specs : List ArgSpec)
      → world.json.get_string o (bytes "func") ≡ n
      → decide_name world options t work o n ≡ encapsulate f specs
      → Describes t o f specs × (is_listed work f ≡ true) × IsWorth specs
  decide_name_sound work t o none f specs e h = cc
  decide_name_sound work t o (some name) f specs e h =
      decide_function_sound work t o name f specs e h

  decide_report_sound :
      (work : List Function) (t : Trace) (r : Option V) (f : Function) (specs : List ArgSpec)
      → decide_report world options t work r ≡ encapsulate f specs
      → (o : V) × (r ≡ some o) × Describes t o f specs × (is_listed work f ≡ true) × IsWorth specs
  decide_report_sound work t none f specs h = cc
  decide_report_sound work t (some o) f specs h =
      let (d, listed, worth) = decide_name_sound work t o _ f specs refl h in
      (o, refl, d, listed, worth)

  decide_value_sound :
      (work : List Function) (t : Trace) (r : ErrorOr V) (f : Function) (specs : List ArgSpec)
      → decide_value world options t work r ≡ encapsulate f specs
      → (v : V) × (r ≡ value v)
        × (o : V) × (world.json.as_object v ≡ some o)
        × Describes t o f specs
        × (is_listed work f ≡ true)
        × IsWorth specs
  decide_value_sound work t (error e) f specs h = cc
  decide_value_sound work t (value v) f specs h =
      let (o, e, d, listed, worth) = decide_report_sound work t _ f specs h in
      (v, refl, o, e, d, listed, worth)

  -- What must hold for a function to be encapsulated because of an entry of the reports directory.
  pub record IsSelected (t : Trace) (functions : List Function) (entry : Entry) (f : Function)
      (specs : List ArgSpec) : Type 0 where
    prefix : world.starts_with (world.path_filename entry.path) options.report_prefix ≡ true
    suffix : world.ends_with (world.path_filename entry.path) (bytes ".json") ≡ true
    has_status : entry.has_status ≡ true
    content : V
    pub report : V
    read_eq :
        read_json_from_file world.json world.posix world.path_filename world.disk
          (world.path_filename entry.path)
          options.reports_dir
        ≡ value content
    report_eq : world.json.as_object content ≡ some report
    pub describes : Describes t report f specs
    pub candidate : Any (IsCandidate world options f) functions
    worth : (any_outbound specs ≡ true) ⊎ (options.force_encapsulation ≡ true)

  decide_entry_sound :
      (t : Trace) (functions : List Function) (entry : Entry) (f : Function) (specs : List ArgSpec)
      → decide_entry world options t (work_list world options functions) entry ≡ encapsulate f specs
      → IsSelected t functions entry f specs
  unfolding decide_entry
  decide_entry_sound t functions entry f specs h =
      let (named, d) =
        unless_skipped
          (not (world.starts_with (world.path_filename entry.path) options.report_prefix)
            || not (world.ends_with (world.path_filename entry.path) (bytes ".json")))
          _ f specs h in
      let (status, e) = unless_skipped (not entry.has_status) _ f specs d in
      let (v, read, o, object, describes, listed, worth) = decide_value_sound _ t _ f specs e in
      record {
        prefix = ground arith;
        suffix = ground arith;
        has_status = ground arith;
        content = v;
        report = o;
        read_eq = read;
        report_eq = object;
        describes = describes;
        candidate = (work_list_iff world options functions f).0 listed;
        worth = worth;
      }

  decide_entry_complete :
      (t : Trace) (functions : List Function) (entry : Entry) (f : Function) (specs : List ArgSpec)
      → IsSelected t functions entry f specs
      → decide_entry world options t (work_list world options functions) entry ≡ encapsulate f specs
  unfolding decide_entry
  decide_entry_complete t functions entry f specs s =
      let d = s.describes in
      rw (s.prefix, s.suffix, s.has_status, s.read_eq, s.report_eq)
        (rw (d.func_eq, d.function_eq, (work_list_iff world options functions f).1 s.candidate)
          (rw (d.args_eq, d.asa_eq) (rw⁻¹ d.specs_eq (enough s.worth))))
    where
      enough : IsWorth specs → decide_specs world options f specs ≡ encapsulate f specs
      enough (inl outbound) = rw outbound refl
      enough (inr force) = ground arith

  -- The body of the directory loop hands a function on, with descriptions, exactly if: the entry is a
  -- file of the reports' prefix that ends in `.json` and has a status; the file reads as an object
  -- whose "func" names that function of the module and whose "args" hold the descriptions; the
  -- module has a function of that name with a body, on the white list if there is one; and some
  -- description is an output or the encapsulation is forced.
  pub decide_entry_iff :
      (t : Trace) (functions : List Function) (entry : Entry) (f : Function) (specs : List ArgSpec)
      → (decide_entry world options t (work_list world options functions) entry
          ≡ encapsulate f specs)
        ↔ IsSelected t functions entry f specs
  decide_entry_iff t functions entry f specs = (
    decide_entry_sound t functions entry f specs,
    decide_entry_complete t functions entry f specs,
  )
