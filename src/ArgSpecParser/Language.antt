-- ===== src/ArgSpecParser/Language.antt =====
-- Which texts the parser of ArgSpecParser.hpp accepts.
use ephippion.Prelude.{
  ℕ, ◌≡◌, refl, ◌≢◌, ◌↔◌, ap, true, Option, none, some, [], ◌∷◌, ◌++◌, arith, All, Bool-cases, inl,
  inr, Text,
}
use ephippion.ArgSpecParser.{is_alpha, is_flag, match_flag, cons_word, match_rest, regex_match}

abbrev pub IsAlpha : ℕ → Type 0
IsAlpha c = is_alpha c ≡ true

-- A word of letters, a colon, and one character of the class.
pub record IsSpec (s word flag : Text) : Type 0 where
  pub letters : All IsAlpha word
  pub mark : ℕ
  pub is_mark : is_flag mark ≡ true
  pub flag_eq : flag ≡ mark ∷ []
  pub text_eq : s ≡ word ++ (b':' ∷ mark ∷ [])

match_flag_sound :
    (w s word flag : Text)
    → match_flag w s ≡ some (word, flag)
    → (word ≡ w) × (m : ℕ) × (is_flag m ≡ true) × (flag ≡ m ∷ []) × (s ≡ b':' ∷ m ∷ [])
unfolding match_flag
match_flag_sound w [] word flag h = cc
match_flag_sound w (a ∷ []) word flag h = cc
match_flag_sound w (a ∷ m ∷ []) word flag h =
    (ground arith, m, ground arith, ground arith, ground arith)
match_flag_sound w (a ∷ m ∷ b ∷ s) word flag h = cc

match_flag-IsSpec : (s word flag : Text) → match_flag [] s ≡ some (word, flag) → IsSpec s word flag
match_flag-IsSpec s word flag h =
    let (e, m, mark, f, t) = match_flag_sound [] s word flag h in
    record { letters = rw e tt; mark = m; is_mark = mark; flag_eq = f; text_eq = rw e t }

cons_word-some :
    (c : ℕ) (r : Option (Text × Text)) (word flag : Text)
    → cons_word c r ≡ some (word, flag)
    → (w : Text) × (r ≡ some (w, flag)) × (word ≡ c ∷ w)
unfolding cons_word
cons_word-some c none word flag h = cc
cons_word-some c (some (w, f)) word flag h = (w, ground arith, ground arith)

IsSpec-cons :
    (c : ℕ) (s w word flag : Text)
    → IsAlpha c
    → word ≡ c ∷ w
    → IsSpec s w flag
    → IsSpec (c ∷ s) word flag
IsSpec-cons c s w word flag h e i = record {
  letters = rw e (h, i.letters);
  mark = i.mark;
  is_mark = i.is_mark;
  flag_eq = i.flag_eq;
  text_eq = rw e (ap (λ t. c ∷ t) i.text_eq);
}

match_rest-IsSpec : (s word flag : Text) → match_rest s ≡ some (word, flag) → IsSpec s word flag
unfolding match_rest
match_rest-IsSpec [] word flag h = match_flag-IsSpec [] word flag h
match_rest-IsSpec (c ∷ s) word flag h = elim (Bool-cases (is_alpha c)) [
  | inl letter ↦
      let (w, e, f) = cons_word-some c (match_rest s) word flag (rw letter at h) in
      IsSpec-cons c s w word flag letter f (match_rest-IsSpec s w flag e)
  | inr other ↦ match_flag-IsSpec (c ∷ s) word flag (rw other at h)
]

colon_rest : (m : ℕ) → is_flag m ≡ true → match_rest (b':' ∷ m ∷ []) ≡ some ([], m ∷ [])
unfolding match_rest match_flag
colon_rest m h = ground arith

match_rest_complete :
    (word : Text) (m : ℕ)
    → All IsAlpha word
    → is_flag m ≡ true
    → match_rest (word ++ (b':' ∷ m ∷ [])) ≡ some (word, m ∷ [])
unfolding match_rest cons_word
match_rest_complete [] m letters h = colon_rest m h
match_rest_complete (c ∷ word) m letters h =
    rw (letters.0) (rw (match_rest_complete word m letters.1 h))

regex_match_sound :
    (s word flag : Text) → regex_match s ≡ some (word, flag) → IsSpec s word flag × (word ≢ [])
unfolding regex_match
regex_match_sound [] word flag h = cc
regex_match_sound (c ∷ s) word flag h = elim (Bool-cases (is_alpha c)) [
  | inl letter ↦
      let (w, e, f) = cons_word-some c (match_rest s) word flag (rw letter at h) in
      (IsSpec-cons c s w word flag letter f (match_rest-IsSpec s w flag e), λ n. cc)
  | inr other ↦ cc (rw other at h)
]

regex_match_complete :
    (s word flag : Text) → IsSpec s word flag → word ≢ [] → regex_match s ≡ some (word, flag)
unfolding regex_match cons_word
regex_match_complete s [] flag i ne = absurd (ne refl)
regex_match_complete s (c ∷ word) flag i ne =
    rw (i.text_eq, i.flag_eq)
      (rw (i.letters.0) (rw (match_rest_complete word i.mark i.letters.1 i.is_mark)))

-- The parser's expression matches exactly the texts made of a non-empty word of letters, a colon
-- and one of the characters `0`, `1` and `|`; the groups are the word and that character.
pub regex_match_iff :
    (s word flag : Text) → (regex_match s ≡ some (word, flag)) ↔ (IsSpec s word flag × (word ≢ []))
regex_match_iff s word flag =
    (regex_match_sound s word flag, λ h. regex_match_complete s word flag h.0 h.1)
