-- ===== src/Pass/Errors.antt =====
-- Reports that the directory loop of SymbolicEncapsulationPass.cpp cannot use.
use ephippion.Prelude.{
  ◌≡◌, refl, Bool, true, false, not, ◌||◌, List, [], ◌∷◌, ◌++◌, bytes, if◌then◌else◌,
}
use ephippion.Options.{Options}
use ephippion.Llvm.{Function, Run, ok, fault, Trace, M, and_then}
use ephippion.Exchange.{ErrorOr, error, read_json_from_file, ErrorCode}
use ephippion.Pass.{Entry, World, Decision, skip, act, decide_value, decide_entry, process_entries}

and_then-ext :
    {A B : Type 0} (r : Run A) (k l : A → M B)
    → ((a : A) (t : Trace) → k a t ≡ l a t)
    → and_then r k ≡ and_then r l
and_then-ext (ok a t) k l same = same a t
and_then-ext (fault e) k l same = refl

module _ {V : Type 0} (world : World V) (options : Options) where
  -- The entry has not the prefix or not the suffix, no status, or cannot be read as JSON.
  pub data IsUnusable (entry : Entry) : Type 0 where
    other_prefix :
        world.starts_with (world.path_filename entry.path) options.report_prefix ≡ false
        → IsUnusable entry
    other_suffix :
        world.ends_with (world.path_filename entry.path) (bytes ".json") ≡ false → IsUnusable entry
    no_status : entry.has_status ≡ false → IsUnusable entry
    unreadable :
        (code : ErrorCode)
        → read_json_from_file world.json world.posix world.path_filename world.disk
            (world.path_filename entry.path)
            options.reports_dir
          ≡ error code
        → IsUnusable entry

  first_test :
      (b c : Bool) (d : Decision world options)
      → b ≡ false
      → (if not b || c then skip else d) ≡ skip
  first_test b c d h = rw h refl

  second_test :
      (b c : Bool) (d : Decision world options)
      → c ≡ false
      → (if b || not c then skip else d) ≡ skip
  second_test true c d h = refl
  second_test false c d h = rw h refl

  either_way : (b : Bool) (d : Decision world options) → d ≡ skip → (if b then skip else d) ≡ skip
  either_way true d h = refl
  either_way false d h = h

  third_test :
      (b : Bool) (d : Decision world options) → b ≡ false → (if not b then skip else d) ≡ skip
  third_test b d h = rw h refl

  decide_value-error :
      (t : Trace) (work : List Function) (code : ErrorCode) (r : ErrorOr V)
      → r ≡ error code
      → decide_value world options t work r ≡ skip
  decide_value-error t work code r h = rw h refl

  IsUnusable-skip :
      (t : Trace) (work : List Function) (entry : Entry)
      → IsUnusable entry
      → decide_entry world options t work entry ≡ skip
  unfolding decide_entry
  IsUnusable-skip t work entry (other_prefix h) = first_test _ _ _ h
  IsUnusable-skip t work entry (other_suffix h) = second_test _ _ _ h
  IsUnusable-skip t work entry (no_status h) = either_way _ _ (third_test _ _ h)
  IsUnusable-skip t work entry (unreadable code h) =
      either_way _ _ (either_way _ _ (decide_value-error t work code _ h))

  -- An entry that is no report, has no status, or cannot be read or parsed has no effect wherever it
  -- stands in the directory: the loop does the same without it.
  pub process_entries-unusable :
      (work : List Function) (before after : List Entry) (entry : Entry) (changed : Bool)
      (t : Trace)
      → IsUnusable entry
      → process_entries world options work (before ++ entry ∷ after) changed t
        ≡ process_entries world options work (before ++ after) changed t
  unfolding process_entries
  process_entries-unusable work [] after entry changed t h =
      rw (IsUnusable-skip t work entry h) refl
  process_entries-unusable work (e ∷ before) after entry changed t h =
      and_then-ext (act world options changed (decide_entry world options t work e) t)
        (process_entries world options work (before ++ entry ∷ after))
        (process_entries world options work (before ++ after))
        (λ b t'. process_entries-unusable work before after entry b t' h)
