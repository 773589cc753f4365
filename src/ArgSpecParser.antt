-- ===== src/ArgSpecParser.antt =====
-- include/Ephippion/Support/Utils/ArgSpecParser.hpp: the command line form of an argument
-- description, `([[:alpha:]]+):([0|1])`. A `std::string` is its bytes, and `[[:alpha:]]` is that of
-- the "C" locale.
pub mod Language
pub mod Roundtrip
mod Tests
use ephippion.Prelude.{
  ℕ, ◌+◌, ◌-◌, ◌*◌, Bool, true, false, not, ◌&&◌, ◌||◌, Option, none, some, [], ◌∷◌, ◌++◌, leb,
  ◌==◌, if◌then◌else◌, Text, bytes, text_eq,
}
use ephippion.Direction.{ArgDirection, ArgSpec, ad_inbound, ad_outbound, ad_both}

-- `[[:alpha:]]`
abbrev pub is_alpha : ℕ → Bool
is_alpha c = (leb b'A' c && leb c b'Z') || (leb b'a' c && leb c b'z')

-- `[0|1]`: inside brackets the bar is a character like the others.
abbrev pub is_flag : ℕ → Bool
is_flag c = c == b'0' || c == b'|' || c == b'1'

-- `:([0|1])` and the end of the text, behind the word that was read.
match_flag : Text → Text → Option (Text × Text)
match_flag word (colon ∷ flag ∷ []) =
    if colon == b':' && is_flag flag then some (word, flag ∷ []) else none
match_flag word _ = none

cons_word : ℕ → Option (Text × Text) → Option (Text × Text)
cons_word c none = none
cons_word c (some (word, flag)) = some (c ∷ word, flag)

-- `[[:alpha:]]*` and what follows: no letter is a colon, so the longest word is the only one.
match_rest : Text → Option (Text × Text)
match_rest [] = match_flag [] []
match_rest (c ∷ s) = if is_alpha c then cons_word c (match_rest s) else match_flag [] (c ∷ s)

-- `std::regex_match` against the expression: the two groups.
pub regex_match : Text → Option (Text × Text)
unfolding match_flag cons_word match_rest
regex_match [] = none
regex_match (c ∷ s) = if is_alpha c then cons_word c (match_rest s) else none

-- `strtoul` at base 10, on a text without leading space or sign: it stops at the first non-digit.
strtoul_from : ℕ → Text → ℕ
strtoul_from acc [] = acc
strtoul_from acc (c ∷ s) =
    let rest = strtoul_from (acc * 10 + (c - 48)) s in
    if leb b'0' c && leb c b'9' then rest else acc

strtoul : Text → ℕ
unfolding strtoul_from
strtoul s = strtoul_from 0 s

-- the `StringSwitch`
pub direction_of : Text → ArgDirection
direction_of word =
    if text_eq word (bytes "in")
    then ad_inbound
    else if text_eq word (bytes "out")
    then ad_outbound
    else if text_eq word (bytes "both")
    then ad_both
    else ad_inbound

-- The value stored when both groups were matched.
pub store : Text → Text → ArgSpec → ArgSpec
unfolding strtoul
store word flag val = record val {
  direction = direction_of word;
  iterator_dependent = not (strtoul flag == 0);
}

-- `Option::error` prints the message and returns a verdict: it is LLVM's.
module _ (error : Text → Bool) where
  pub fail_with : Text → Bool
  fail_with value = error (bytes "'" ++ (value ++ bytes "' value invalid for argspec argument!"))

  abbrev pub finish : Text → ArgSpec → Option (Text × Text) → Bool × ArgSpec
  finish value val none = (fail_with value, val)
  finish value val (some (word, flag)) = (false, store word flag val)

  -- `parse` returns whether an error occurred, beside the value that it may have written.
  pub parse : Text → ArgSpec → Bool × ArgSpec
  parse value val = finish value val (regex_match value)
