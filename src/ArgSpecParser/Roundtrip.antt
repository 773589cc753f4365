-- ===== src/ArgSpecParser/Roundtrip.antt =====
-- What the parser of ArgSpecParser.hpp makes of a text, and that it reads back what a description
-- prints as.
use ephippion.Prelude.{
  ℕ, ◌≡◌, ◌⊎◌, inl, inr, none, Option-cases, refl, ◌≢◌, All, Bool, true, false, [], ◌∷◌, ◌++◌, Text,
  bytes, text_eq,
}
use ephippion.Direction.{ArgSpec, ArgDirection, ad_inbound, ad_outbound, ad_both}
use ephippion.ArgSpecParser.{is_flag, regex_match, direction_of, store, fail_with, parse}
use ephippion.ArgSpecParser.Language.{IsAlpha, IsSpec, regex_match_iff}

pub data Direction : Type 0 where
  inbound outbound both : Direction

abbrev pub word_of : Direction → Text
word_of inbound = bytes "in"
word_of outbound = bytes "out"
word_of both = bytes "both"

abbrev pub byte_of : Direction → ArgDirection
byte_of inbound = ad_inbound
byte_of outbound = ad_outbound
byte_of both = ad_both

abbrev pub flag_of : Bool → ℕ
flag_of true = b'1'
flag_of false = b'0'

-- The command line form of a direction and a flag.
abbrev pub print : Direction → Bool → Text
print d i = word_of d ++ (b':' ∷ flag_of i ∷ [])

word_of-letters : (d : Direction) → All IsAlpha (word_of d)
word_of-letters inbound = (refl, (refl, tt))
word_of-letters outbound = (refl, (refl, (refl, tt)))
word_of-letters both = (refl, (refl, (refl, (refl, tt))))

flag_of-mark : (i : Bool) → is_flag (flag_of i) ≡ true
flag_of-mark true = refl
flag_of-mark false = refl

print-IsSpec : (d : Direction) (i : Bool) → IsSpec (print d i) (word_of d) (flag_of i ∷ [])
print-IsSpec d i = record {
  letters = word_of-letters d;
  mark = flag_of i;
  is_mark = flag_of-mark i;
  flag_eq = refl;
  text_eq = refl;
}

store-print :
    (d : Direction) (i : Bool) (val : ArgSpec)
    → store (word_of d) (flag_of i ∷ []) val
      ≡ record val { direction = byte_of d; iterator_dependent = i }
unfolding store direction_of text_eq
store-print inbound true val = refl
store-print inbound false val = refl
store-print outbound true val = refl
store-print outbound false val = refl
store-print both true val = refl
store-print both false val = refl

word_of-ne : (d : Direction) → word_of d ≢ []
word_of-ne inbound = λ e. cc
word_of-ne outbound = λ e. cc
word_of-ne both = λ e. cc

module _ (error : Text → Bool) where
  -- Each of the three directions, with either flag, is read back from its command line form without
  -- an error, and the name of the description written over is left as it was.
  pub parse-print :
      (d : Direction) (i : Bool) (val : ArgSpec)
      → parse error (print d i) val
        ≡ (false, record val { direction = byte_of d; iterator_dependent = i })
  unfolding parse
  parse-print d i val =
      rw
        ((regex_match_iff (print d i) (word_of d) (flag_of i ∷ [])).1
          (print-IsSpec d i, word_of-ne d))
        (rw (store-print d i val))

  -- What the parser does with any text: one that is a non-empty word of letters, a colon and a mark
  -- sets the direction and the flag without an error; any other leaves the description as it was, and
  -- the verdict is that of the error report.
  pub parse-cases :
      (value : Text) (val : ArgSpec)
      → ((w : Text) × (f : Text) × IsSpec value w f
          × (w ≢ [])
          × (parse error value val ≡ (false, store w f val)))
        ⊎ (((w f : Text) → IsSpec value w f → w ≡ [])
            × (parse error value val ≡ (fail_with error value, val)))
  unfolding parse
  parse-cases value val = elim (Option-cases (regex_match value)) [
    | inl unmatched ↦ inr (λ w f spec. word_is_empty w f spec unmatched, rw unmatched refl)
    | inr ((w, f), matched) ↦
        let (spec, ne) = (regex_match_iff value w f).0 matched in
        inl (w, f, spec, ne, rw matched refl)
  ]
    where
      word_is_empty : (w f : Text) → IsSpec value w f → regex_match value ≡ none → w ≡ []
      word_is_empty [] f spec unmatched = refl
      word_is_empty (c ∷ w) f spec unmatched =
          let matched = (regex_match_iff value (c ∷ w) f).1 (spec, λ e. cc) in cc
