-- ===== src/ArgSpecParser/Tests.antt =====
-- Runs of the command line parser, and its theorems at concrete inputs.
use ephippion.Prelude.{◌≡◌, ◌≢◌, ◌↔◌, ◌⊎◌, refl, true, false, some, none, [], Text, bytes, text_eq}
use ephippion.Direction.{arg_spec}
use ephippion.ArgSpecParser.{regex_match, parse, store, direction_of, fail_with}
use ephippion.ArgSpecParser.Language.{IsSpec, regex_match_iff}
use ephippion.ArgSpecParser.Roundtrip.{both, print, byte_of, parse-print, parse-cases}

pipe_is_a_flag : regex_match (bytes "in:|") ≡ some (bytes "in", bytes "|")
unfolding regex_match
pipe_is_a_flag = refl

no_colon : regex_match (bytes "in0") ≡ none
unfolding regex_match
no_colon = refl

unknown_word :
    parse (λ m. true) (bytes "inout:1") (arg_spec [] 0 false) ≡ (false, arg_spec [] 1 true)
unfolding parse store direction_of text_eq regex_match
unknown_word = refl

regex_match_iff_example :
    (regex_match (bytes "out:1") ≡ some (bytes "out", bytes "1"))
    ↔ (IsSpec (bytes "out:1") (bytes "out") (bytes "1") × (bytes "out" ≢ []))
regex_match_iff_example = regex_match_iff (bytes "out:1") (bytes "out") (bytes "1")

parse-print_example : parse (λ m. true) (print both true) (arg_spec (bytes "p") 0 false) ≡ (
  false,
  record (arg_spec (bytes "p") 0 false) { direction = byte_of both; iterator_dependent = true },
)
parse-print_example = parse-print (λ m. true) both true (arg_spec (bytes "p") 0 false)

parse-cases_example :
    ((w : Text) × (f : Text) × IsSpec (bytes "in") w f
      × (w ≢ [])
      × (parse (λ m. true) (bytes "in") (arg_spec [] 3 true)
          ≡ (false, store w f (arg_spec [] 3 true))))
    ⊎ (((w f : Text) → IsSpec (bytes "in") w f → w ≡ [])
        × (parse (λ m. true) (bytes "in") (arg_spec [] 3 true)
            ≡ (fail_with (λ m. true) (bytes "in"), arg_spec [] 3 true)))
parse-cases_example = parse-cases (λ m. true) (bytes "in") (arg_spec [] 3 true)
