-- ===== src/Client/Quote/Words.antt =====
-- internal/clientapp/quote.go: what a shell reads of a text that ShellQuote has quoted.
use Prim.Native.Char.{Char, code}
use Prim.Native.String
use Prim.Native.Nat.{compare, eq}
use text.Mathlib.TextEquality.{codes_equal}
use text.Mathlib.TextLemmas.{cons-append, nil-append, append_assoc}
use wakehub.Base.{
  ◌≡◌, refl, ap, ◌∙◌, String, true, Option, none, some, if◌then◌else◌, ◌==◌, nat_eq, Bool-cases,
  inl, inr, eq_iff, arith,
}
use wakehub.Text.{replace_char, is_space}
use wakehub.Client.Quote.{shell_quote}

-- Where the reader of a word stands: outside quotes, inside them, or after a backslash.
pub data Mode : Type 0 where
  plain : Mode
  quoted : Mode
  escaped : Mode

abbrev prepend : Char → Option String → Option String
prepend c none = none
prepend c (some s) = some (String.◌∷◌ c s)

-- The one word that a text is to a POSIX shell, for the quoting that these texts use: single quotes,
-- which nothing inside escapes, and a backslash outside of them. Blanks outside end the word, so
-- there are none; quotes that are not closed are no word.
abbrev pub word : Mode → String → Option String
word plain String.[] = some ""
word quoted String.[] = none
word escaped String.[] = none
word plain (String.◌∷◌ c s) =
    let inside = word quoted s in
    let after = word escaped s in
    let rest = word plain s in
    if nat_eq (code c) b'\''
    then inside
    else if nat_eq (code c) b'\\'
    then after
    else if is_space (code c)
    then none
    else prepend c rest
word quoted (String.◌∷◌ c s) =
    let outside = word plain s in
    let rest = word quoted s in if nat_eq (code c) b'\'' then outside else prepend c rest
word escaped (String.◌∷◌ c s) = prepend c (word plain s)

abbrev apostrophe : Char
apostrophe = String.char_at "'" 0

abbrev backslash : Char
backslash = String.char_at "\\" 0

compared : (c d : Char) → nat_eq (code c) (code d) ≡ true → compare (code c) (code d) ≡ eq
compared c d h = ground arith

opened : (t : String) → String.◌++◌ "'" t ≡ String.◌∷◌ apostrophe t
opened t = cons-append apostrophe "" t ∙ ap (String.◌∷◌ apostrophe) (nil-append t)

-- The four characters that stand for a quote.
requoted :
    (t : String)
    → String.◌++◌ "'\\''" t
      ≡ String.◌∷◌ apostrophe
          (String.◌∷◌ backslash (String.◌∷◌ apostrophe (String.◌∷◌ apostrophe t)))
requoted t =
    cons-append apostrophe "\\''" t
    ∙ ap (String.◌∷◌ apostrophe) (
        cons-append backslash "''" t
        ∙ ap (String.◌∷◌ backslash)
            (cons-append apostrophe "'" t ∙ ap (String.◌∷◌ apostrophe) (opened t)))

word-replace_char :
    (s : String) → word quoted (String.◌++◌ (replace_char b'\'' "'\\''" s) "'") ≡ some s
unfolding replace_char
word-replace_char String.[] = ap (word quoted) (nil-append "'")
word-replace_char (String.◌∷◌ c s) =
    let rest = word-replace_char s in
    let later = replace_char b'\'' "'\\''" s in
    elim (Bool-cases (nat_eq (code c) b'\'')) [
      | inl quote ↦
          let same : c ≡ apostrophe = codes_equal c apostrophe (compared c apostrophe quote) in
          rw same (
            ap (word quoted) (append_assoc "'\\''" later "'" ∙ requoted (String.◌++◌ later "'"))
            ∙ ap (prepend apostrophe) rest)
      | inr other ↦ rw (other, cons-append c later "'") (rw (other, rest) refl)
    ]

-- What a shell reads of a text that is quoted is the one word that the text is.
pub word-shell_quote : (s : String) → word plain (shell_quote s) ≡ some s
unfolding shell_quote
word-shell_quote s = elim (Bool-cases (s == "")) [
  | inl empty ↦ let none_there = (eq_iff s "").0 empty in rw none_there refl
  | inr more ↦ rw more (
      ap (word plain) (opened (String.◌++◌ (replace_char b'\'' "'\\''" s) "'"))
      ∙ word-replace_char s)
]
