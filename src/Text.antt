-- ===== src/Text.antt =====
-- What the program uses of Go's `strings`, over texts of Unicode characters. The case functions
-- map the ASCII letters, the Latin-1 letters, and the two further characters whose lower case is
-- an ASCII letter; a capital of any other script stays as it is.
pub mod Laws
use Prim.Native.Char.{Char, code}
use Prim.Native.String.{[], ◌∷◌, char_at}
use Prim.Native.String
use wakehub.Base.{
  zero, suc, ◌+◌, ◌/◌, ◌%◌, ℕ, ◌-◌, ◌*◌, String, Bool, true, false, not, ◌&&◌, ◌||◌, leb, nat_eq,
  if◌then◌else◌, ◌==◌,
}

-- unicode.IsSpace
unfoldable pub is_space : ℕ → Bool
is_space n =
    (leb 9 n && leb n 13)
    || nat_eq n 32
    || nat_eq n 0x85
    || nat_eq n 0xa0
    || nat_eq n 0x1680
    || (leb 0x2000 n && leb n 0x200a)
    || nat_eq n 0x2028
    || nat_eq n 0x2029
    || nat_eq n 0x202f
    || nat_eq n 0x205f
    || nat_eq n 0x3000

-- The first text turned round, in front of the second.
unfoldable pub reverse_onto : String → String → String
reverse_onto [] t = t
reverse_onto (c ∷ s) t = reverse_onto s (c ∷ t)

unfoldable pub trim_left : String → String
trim_left [] = []
trim_left (c ∷ s) = elim (is_space (code c)) [ true ↦ trim_left s | false ↦ c ∷ s ]

-- strings.TrimSpace
unfoldable pub trim_space : String → String
unfolding trim_left reverse_onto is_space
trim_space s = reverse_onto (trim_left (reverse_onto (trim_left s) [])) []

abbrev pub latin_lower : String
latin_lower = "àáâãäåæçèéêëìíîïðñòóôõö÷øùúûüýþ"

abbrev pub is_capital : ℕ → Bool
is_capital n = leb b'A' n && leb n b'Z'

abbrev pub is_latin_capital : ℕ → Bool
is_latin_capital n = leb 0xc0 n && leb n 0xde && not (nat_eq n 0xd7)

-- unicode.ToLower
unfoldable pub to_lower_char : Char → Char
to_lower_char c =
    if is_capital (code c)
    then char_at "abcdefghijklmnopqrstuvwxyz" (code c - b'A')
    else if nat_eq (code c) 0x130
    then char_at "i" 0
    else if nat_eq (code c) 0x212a
    then char_at "k" 0
    else if is_latin_capital (code c)
    then char_at latin_lower (2 * (code c - 0xc0))
    else c

-- strings.ToLower
unfoldable pub to_lower : String → String
unfolding to_lower_char
to_lower [] = []
to_lower (c ∷ s) = to_lower_char c ∷ to_lower s

-- unicode.SimpleFold, by its least member in lower case
unfoldable pub fold_char : Char → Char
unfolding to_lower_char
fold_char c =
    if nat_eq (code c) 0x130
    then c
    else if nat_eq (code c) 0x17f
    then char_at "s" 0
    else to_lower_char c

unfoldable pub fold : String → String
unfolding fold_char
fold [] = []
fold (c ∷ s) = fold_char c ∷ fold s

-- strings.EqualFold
unfoldable pub equal_fold : String → String → Bool
unfolding fold
equal_fold s t = fold s == fold t

unfoldable pub has_prefix : String → String → Bool
has_prefix s [] = true
has_prefix [] (d ∷ t) = false
has_prefix (c ∷ s) (d ∷ t) = nat_eq (code c) (code d) && has_prefix s t

unfoldable pub has_suffix : String → String → Bool
unfolding has_prefix reverse_onto
has_suffix s t = has_prefix (reverse_onto s []) (reverse_onto t [])

-- strings.Contains
unfoldable pub contains : String → String → Bool
unfolding has_prefix
contains [] t = has_prefix [] t
contains (c ∷ s) t = has_prefix (c ∷ s) t || contains s t

-- strings.ReplaceAll(s, c, t) for a text `c` of the one character with this number.
unfoldable pub replace_char : ℕ → String → String → String
replace_char n t [] = []
replace_char n t (c ∷ s) =
    if nat_eq (code c) n then String.◌++◌ t (replace_char n t s) else c ∷ replace_char n t s

-- strings.ReplaceAll(s, c, "")
unfoldable pub remove_char : ℕ → String → String
remove_char n [] = []
remove_char n (c ∷ s) = elim (nat_eq (code c) n) [
  | true ↦ remove_char n s
  | false ↦ c ∷ remove_char n s
]

-- Every character passes the test.
unfoldable pub all_chars : (ℕ → Bool) → String → Bool
all_chars p [] = true
all_chars p (c ∷ s) = p (code c) && all_chars p s

abbrev pub is_digit : ℕ → Bool
is_digit n = leb b'0' n && leb n b'9'

abbrev pub is_letter : ℕ → Bool
is_letter n = (leb b'a' n && leb n b'z') || (leb b'A' n && leb n b'Z')

abbrev pub is_empty : String → Bool
is_empty s = s == ""

-- The digits of n, in front of a text. The fuel is more than the number of digits.
decimal_onto : ℕ → ℕ → String → String
decimal_onto zero n text = text
decimal_onto (suc fuel) n text =
    let longer = char_at "0123456789" (n % 10) ∷ text in
    let rest = decimal_onto fuel (n / 10) longer in if leb n 9 then longer else rest

-- fmt.Sprintf("%d", n)
unfoldable pub decimal : ℕ → String
unfolding decimal_onto
decimal n = decimal_onto (n + 1) n ""
