-- ===== src/Exchange.antt =====
-- lib/Exchange/JSONTransfer.cpp: reports on disk, and the argument descriptions in them. LLVM's JSON
-- library and path functions, and the disk, are parameters.
pub mod Descriptions
pub mod Files
mod Tests
use ephippion.Prelude.{
  ℕ, ◌%◌, ◌^◌, Bool, true, false, not, ◌&&◌, Option, none, some, List, [], ◌∷◌, ◌++◌, if◌then◌else◌,
  Text, text_eq, bytes,
}
use ephippion.Direction.{ArgSpec}

-- `llvm::json`: a value read as an object, and the members of an object by key. A member read as an
-- `int` is the 32-bit pattern of its two's complement.
pub record Json (V : Type 0) : Type 0 where
  pub as_object : V → Option V
  pub get_string : V → Text → Option Text
  pub get_object : V → Text → Option V
  pub get_array : V → Text → Option (List V)
  pub map_int : V → Text → Option ℕ
  pub map_bool : V → Text → Option Bool
  pub parse : Text → Option V
  pub format : V → Text

-- `std::make_error_code` of an `errc` and an `io_errc`, and the code of a parse error.
pub data ErrorCode : Type 0 where
  no_such_file_or_directory io_stream invalid_json : ErrorCode

pub data ErrorOr (A : Type 0) : Type 0 where
  value : A → ErrorOr A
  error : ErrorCode → ErrorOr A

-- The disk: what a file that can be opened holds, and whether `stat` of a name gives `ENOENT`.
pub record Disk : Type 0 where
  pub contents : Text → Option Text
  pub stat_missing : Text → Bool

-- What becomes of a `ToolOutputFile`: the file could not be opened, its stream failed, or neither.
pub data WriteOutcome : Type 0 where
  open_failed stream_failed written : WriteOutcome

-- `static_cast<ArgDirection>(direction)` of an `int`, to an enum over `uint8_t`
abbrev pub cast_direction : ℕ → ℕ
cast_direction n = n % 256

module _ {V : Type 0} (json : Json V) where
  abbrev store_spec : Option ℕ → Option Bool → ArgSpec → Bool × ArgSpec
  store_spec none i r = (false, r)
  store_spec (some d) none r = (false, r)
  store_spec (some d) (some i) r =
      (true, record r { direction = cast_direction d; iterator_dependent = i })

  abbrev map_members : Option V → ArgSpec → Bool × ArgSpec
  map_members none r = (false, r)
  map_members (some o) r =
      store_spec (json.map_int o (bytes "direction")) (json.map_bool o (bytes "iterator dependent"))
        r

  -- `fromJSON`: the verdict, and the description as it is left
  unfoldable pub from_json : V → ArgSpec → Bool × ArgSpec
  from_json e r = map_members (json.as_object e) r

  -- the path that `ReadJSONFromFile` opens
  unfoldable pub read_path : (filename dir : Text) → Text
  read_path filename dir = (if text_eq dir [] then dir else dir ++ bytes "/") ++ filename

  abbrev parsed : Option V → ErrorOr V
  parsed none = error invalid_json
  parsed (some v) = value v

  -- the branch of a file that could not be opened; `stat` is asked about the last part of the path
  unfoldable pub open_error :
      (posix : Bool) → (path_filename : Text → Text) → Disk → Text → ErrorCode
  open_error posix path_filename disk path =
      if posix && disk.stat_missing (path_filename path)
      then no_such_file_or_directory
      else io_stream

  abbrev pub read_opened :
      (posix : Bool) → (path_filename : Text → Text) → Disk → Text → Option Text → ErrorOr V
  read_opened posix path_filename disk path none = error (open_error posix path_filename disk path)
  read_opened posix path_filename disk path (some str) = parsed (json.parse str)

  unfoldable pub read_json_from_file :
      (posix : Bool) → (path_filename : Text → Text) → Disk → (filename dir : Text) → ErrorOr V
  unfolding read_path open_error
  read_json_from_file posix path_filename disk filename dir =
      let path = read_path filename dir in
      read_opened posix path_filename disk path (disk.contents path)

  -- the path that `WriteJSONToFile` opens
  unfoldable pub write_path : (filename_prefix dir : Text) → Text
  write_path filename_prefix dir = dir ++ (bytes "/" ++ (filename_prefix ++ bytes ".json"))

  abbrev after_write : WriteOutcome → Text → Option Text → Option Text
  after_write open_failed text old = old
  after_write stream_failed text old = none
  after_write written text old = some text

  -- `of.keep()` unless the stream has an error; a file that is not kept is removed.
  unfoldable pub write_json_to_file :
      (outcome : Text → WriteOutcome) → V → (filename_prefix dir : Text) → Disk → Disk
  unfolding write_path
  write_json_to_file outcome v filename_prefix dir disk =
      let path = write_path filename_prefix dir in
      record disk {
        contents = λ p.
            if text_eq p path
            then after_write (outcome path) (json.format v) (disk.contents p)
            else disk.contents p;
      }
