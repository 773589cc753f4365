-- ===== src/Exchange/Files.antt =====
-- A report that `WriteJSONToFile` wrote is what `ReadJSONFromFile` reads.
use ephippion.Prelude.{
  ℕ, ◌≡◌, ◌≢◌, refl, Bool, false, some, [], ◌∷◌, ◌++◌, bytes, Text, text_eq, text_eq_refl,
  append_assoc, Bool-cases, ◌==◌, ==_iff, inl, inr,
}
use ephippion.Exchange.{
  Json, value, Disk, WriteOutcome, written, read_path, open_error, read_json_from_file, write_path,
  write_json_to_file,
}

dir-ne-empty : (dir : Text) → dir ≢ [] → text_eq dir [] ≡ false
unfolding text_eq
dir-ne-empty [] ne = absurd (ne refl)
dir-ne-empty (c ∷ dir) ne = refl

text_eq-cons : (s : Text) (c : ℕ) → text_eq s (c ∷ s) ≡ false
unfolding text_eq
text_eq-cons [] c = refl
text_eq-cons (a ∷ s) c = elim (Bool-cases (a == c)) [
  | inl same ↦ rw (same, (==_iff a c).0 same, text_eq-cons s c) refl
  | inr other ↦ rw other refl
]

module _ {V : Type 0} (json : Json V) where
  -- With a directory that is not empty, a value that was written, and whose text parses back, is
  -- read from the same directory under the prefix and `.json`.
  pub read-write :
      (posix : Bool) (path_filename : Text → Text) (outcome : Text → WriteOutcome) (v : V)
      (filename_prefix dir : Text) (disk : Disk)
      → dir ≢ []
      → outcome (write_path json filename_prefix dir) ≡ written
      → json.parse (json.format v) ≡ some v
      → read_json_from_file json posix path_filename
          (write_json_to_file json outcome v filename_prefix dir disk)
          (filename_prefix ++ bytes ".json")
          dir
        ≡ value v
  unfolding read_json_from_file write_json_to_file
  read-write posix path_filename outcome v filename_prefix dir disk ne ok back =
      rw (dir-ne-empty dir ne) (rw append_assoc (rw (text_eq_refl _) (rw ok (rw back))))

  -- An empty directory is the root to the writer and the working directory to the reader: a report
  -- that is written to it changes nothing about what is read from it under its name.
  pub read-write_empty_dir :
      (posix : Bool) (path_filename : Text → Text) (outcome : Text → WriteOutcome) (v : V)
      (filename_prefix : Text) (disk : Disk)
      → read_json_from_file json posix path_filename
          (write_json_to_file json outcome v filename_prefix [] disk)
          (filename_prefix ++ bytes ".json")
          []
        ≡ read_json_from_file json posix path_filename disk (filename_prefix ++ bytes ".json") []
  unfolding read_json_from_file write_json_to_file read_path write_path open_error text_eq
  read-write_empty_dir posix path_filename outcome v filename_prefix disk =
      rw (text_eq-cons (filename_prefix ++ bytes ".json") b'/') refl
