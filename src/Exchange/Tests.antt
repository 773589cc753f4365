-- ===== src/Exchange/Tests.antt =====
-- The theorems on reports at concrete inputs. A report is its own text here.
use ephippion.Prelude.{◌≡◌, refl, true, false, none, some, [], ◌∷◌, ◌++◌, Text, bytes}
use ephippion.Direction.{arg_spec}
use ephippion.Exchange.{
  Json, value, Disk, WriteOutcome, written, read_json_from_file, write_json_to_file, from_json,
}
use ephippion.Exchange.Files.{read-write, read-write_empty_dir}
use ephippion.Exchange.Descriptions.{from_json-Reads, Reads}

abbrev text_json : Json Text
text_json = record {
  as_object = some;
  get_string = λ v key. some v;
  get_object = λ v key. some v;
  get_array = λ v key. some (v ∷ []);
  map_int = λ v key. some 258;
  map_bool = λ v key. some true;
  parse = some;
  format = λ v. v;
}

abbrev empty_disk : Disk
empty_disk = record { contents = λ p. none; stat_missing = λ p. true }

abbrev always_written : Text → WriteOutcome
always_written p = written

read-write_example :
    read_json_from_file text_json true
      (λ p. p)
      (write_json_to_file text_json always_written
        (bytes "{}")
        (bytes "lpc.f")
        (bytes "out")
        empty_disk)
      (bytes "lpc.f" ++ bytes ".json")
      (bytes "out")
    ≡ value (bytes "{}")
read-write_example =
    read-write text_json true (λ p. p) always_written (bytes "{}") (bytes "lpc.f") (bytes "out")
      empty_disk (λ e. cc) refl refl

read-write_empty_dir_example :
    read_json_from_file text_json true
      (λ p. p)
      (write_json_to_file text_json always_written (bytes "{}") (bytes "lpc.f") [] empty_disk)
      (bytes "lpc.f" ++ bytes ".json")
      []
    ≡ read_json_from_file text_json true (λ p. p) empty_disk (bytes "lpc.f" ++ bytes ".json") []
read-write_empty_dir_example =
    read-write_empty_dir text_json true (λ p. p) always_written (bytes "{}") (bytes "lpc.f")
      empty_disk

from_json-Reads_example :
    Reads text_json
      (bytes "{}")
      (arg_spec (bytes "p") 1 false)
      (from_json text_json (bytes "{}") (arg_spec (bytes "p") 1 false))
from_json-Reads_example = from_json-Reads text_json (bytes "{}") (arg_spec (bytes "p") 1 false)

cast_to_a_byte :
    from_json text_json (bytes "{}") (arg_spec (bytes "p") 1 false)
    ≡ (true, arg_spec (bytes "p") 2 true)
unfolding from_json
cast_to_a_byte = refl
