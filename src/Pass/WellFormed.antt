-- ===== src/Pass/WellFormed.antt =====
-- Reports of the form that the directory loop of SymbolicEncapsulationPass.cpp takes for granted.
use ephippion.Prelude.{
  ◌≡◌, refl, Bool, true, false, not, ◌⊎◌, inl, inr, Option, none, some, List, if◌then◌else◌, Text,
  bytes,
}
use ephippion.Direction.{ArgSpec}
use ephippion.Options.{Options}
use ephippion.Llvm.{Function, Trace}
use ephippion.Exchange.{ErrorOr, value, error, read_json_from_file}
use ephippion.Pass.{
  Entry, World, Decision, skip, encapsulate, is_listed, read_specs, decide_specs, decide_args,
  decide_function, decide_value, decide_entry,
}

module _ {V : Type 0} (world : World V) (options : Options) where
  -- An object that has a text "func" and an object "args" with an array "argspecs".
  pub record IsReport (v : V) : Type 0 where
    pub object : V
    pub name : Text
    pub args : V
    pub descriptions : List V
    pub object_eq : world.json.as_object v ≡ some object
    pub name_eq : world.json.get_string object (bytes "func") ≡ some name
    pub args_eq : world.json.get_object object (bytes "args") ≡ some args
    pub descriptions_eq : world.json.get_array args (bytes "argspecs") ≡ some descriptions

  -- Each entry that can be read holds a report.
  abbrev pub HoldsReport : Entry → Type 0
  HoldsReport entry =
      (v : V)
      → read_json_from_file world.json world.posix world.path_filename world.disk
          (world.path_filename entry.path) options.reports_dir
        ≡ value v
      → IsReport v

  abbrev pub SkipsOrActs : Decision world options → Type 0
  SkipsOrActs d = (d ≡ skip) ⊎ ((f : Function) × (specs : List ArgSpec) × (d ≡ encapsulate f specs))

  unless-SkipsOrActs :
      (b : Bool) (d : Decision world options) → SkipsOrActs d → SkipsOrActs (if b then skip else d)
  unless-SkipsOrActs true d h = inl refl
  unless-SkipsOrActs false d h = h

  decide_specs-SkipsOrActs :
      (f : Function) (specs : List ArgSpec) → SkipsOrActs (decide_specs world options f specs)
  decide_specs-SkipsOrActs f specs = unless-SkipsOrActs _ _ (inr (f, specs, refl))

  decide_function-SkipsOrActs :
      (work : List Function) (v : V) (r : IsReport v) (o : Option Function)
      → SkipsOrActs (decide_function world options work r.object o)
  decide_function-SkipsOrActs work v r none = inl refl
  decide_function-SkipsOrActs work v r (some f) =
      unless-SkipsOrActs (not (is_listed work f))
        (decide_args world options f (world.json.get_object r.object (bytes "args")))
        (rw (r.args_eq, r.descriptions_eq)
          (decide_specs-SkipsOrActs f (read_specs world options r.descriptions)))

  decide_value-SkipsOrActs :
      (t : Trace) (work : List Function) (r : ErrorOr V)
      → ((v : V) → r ≡ value v → IsReport v)
      → SkipsOrActs (decide_value world options t work r)
  decide_value-SkipsOrActs t work (error e) h = inl refl
  decide_value-SkipsOrActs t work (value v) h =
      let r = h v refl in
      rw (r.object_eq, r.name_eq)
        (decide_function-SkipsOrActs work v r (world.get_function t r.name))

  -- With such reports the loop meets no null pointer.
  pub decide_entry-SkipsOrActs :
      (t : Trace) (work : List Function) (entry : Entry)
      → HoldsReport entry
      → SkipsOrActs (decide_entry world options t work entry)
  unfolding decide_entry
  decide_entry-SkipsOrActs t work entry h =
      unless-SkipsOrActs _ _ (unless-SkipsOrActs _ _ (decide_value-SkipsOrActs t work _ h))
