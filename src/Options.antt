-- ===== src/Options.antt =====
-- lib/Passes/PassCommandLineOptions.cpp: the options that the pass reads, with their defaults.
use ephippion.Prelude.{ℕ, Bool, false, List, [], Text, bytes}
use ephippion.Direction.{ArgSpec}

pub record Options : Type 0 where
  pub force_encapsulation : Bool
  pub iterations_num : ℕ
  pub arg_specs : List ArgSpec
  pub report_prefix : Text
  pub reports_dir : Text
  pub json_description_filename : Text
  pub function_white_list_file : Text
  -- `getPosition()`: 0 for an option that was not given
  pub function_white_list_position : ℕ

-- The `cl::init` values.
abbrev pub default_options : Options
default_options = record {
  force_encapsulation = false;
  iterations_num = 1;
  arg_specs = [];
  report_prefix = bytes "lpc.";
  reports_dir = [];
  json_description_filename = [];
  function_white_list_file = [];
  function_white_list_position = 0;
}
