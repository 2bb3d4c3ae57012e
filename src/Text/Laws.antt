-- ===== src/Text/Laws.antt =====
-- Laws of trimming and lowering.
use Prim.Native.Char.{Char, code}
use Prim.Native.String.{[], ◌∷◌, char_at}
use text.Mathlib.TextEquality.{Char-path}
use wakehub.Base.{
  all_below, all_below_sound, ◌||◌, ◌⊎◌, if◌then◌else◌, ◌-◌, ◌*◌, ◌≡◌, refl, ap, ap₂, sym, subst,
  ◌∙◌, String, Bool, true, false, arith, inl, inr, ◌&&◌, not, nat_eq,
}
use wakehub.Text.{
  is_capital, is_latin_capital, is_space, reverse_onto, trim_left, trim_space, to_lower,
  to_lower_char, latin_lower,
}

trim_tests :
    (trim_space " \t a b \n" ≡ "a b") × (trim_space "   " ≡ "") × (to_lower "WaKe-É" ≡ "wake-é")
unfolding trim_space to_lower
trim_tests = (refl, refl, refl)

-- No white space at the front.
abbrev Starts : String → Type 0
Starts [] = Unit {0}
Starts (c ∷ s) = is_space (code c) ≡ false

-- No white space at either end.
abbrev pub IsTrimmed : String → Type 0
IsTrimmed s = Starts s × Starts (reverse_onto s [])

trim_left-Starts : (s : String) → Starts (trim_left s)
unfolding trim_left
trim_left-Starts [] = tt
trim_left-Starts (c ∷ s) = ground (arith, trim_left-Starts s)

trim_left_of_Starts : (s : String) → Starts s → trim_left s ≡ s
unfolding trim_left
trim_left_of_Starts [] h = refl
trim_left_of_Starts (c ∷ s) h = ground arith

reverse_onto-reverse_onto : (s t : String) → reverse_onto (reverse_onto s t) [] ≡ reverse_onto t s
unfolding reverse_onto
reverse_onto-reverse_onto [] t = refl
reverse_onto-reverse_onto (c ∷ s) t = reverse_onto-reverse_onto s (c ∷ t)

Starts-reverse_onto :
    (r t t' : String)
    → (Starts t → Starts t')
    → Starts (reverse_onto r t)
    → Starts (reverse_onto r t')
unfolding reverse_onto
Starts-reverse_onto [] t t' f h = f h
Starts-reverse_onto (c ∷ r) t t' f h = Starts-reverse_onto r (c ∷ t) (c ∷ t') (λ x. x) h

Starts-reverse-trim_left :
    (r : String) → Starts (reverse_onto r []) → Starts (reverse_onto (trim_left r) [])
unfolding trim_left reverse_onto
Starts-reverse-trim_left [] h = tt
Starts-reverse-trim_left (c ∷ r) h =
    ground (arith, Starts-reverse-trim_left r (Starts-reverse_onto r (c ∷ []) [] (λ _. tt) h))

reverse_twice : (s : String) → reverse_onto (reverse_onto s []) [] ≡ s
unfolding reverse_onto
reverse_twice s = reverse_onto-reverse_onto s []

-- What `trim_space` returns has no white space at either end.
pub trim_space-IsTrimmed : (s : String) → IsTrimmed (trim_space s)
unfolding trim_space
trim_space-IsTrimmed s =
    let a = trim_left s in
    let r = reverse_onto a [] in
    (
      Starts-reverse-trim_left r (rw (reverse_twice a) (trim_left-Starts s)),
      rw (reverse_twice (trim_left r)) (trim_left-Starts r),
    )

pub trim_space_of_IsTrimmed : (s : String) → IsTrimmed s → trim_space s ≡ s
unfolding trim_space
trim_space_of_IsTrimmed s h =
    rw (trim_left_of_Starts s h.0, trim_left_of_Starts (reverse_onto s []) h.1) (reverse_twice s)

-- Letters in lower case: their values, checked one by one.
letters_table :
    all_below 26 (λ k.
      let d = char_at "abcdefghijklmnopqrstuvwxyz" k in
      not (is_space (code d)) && nat_eq (code (to_lower_char d)) (code d))
    ≡ true
unfolding all_below is_space to_lower_char
letters_table = refl

latin_table :
    all_below 31 (λ k.
      let d = char_at latin_lower (2 * k) in
      not (is_space (code d)) && nat_eq (code (to_lower_char d)) (code d))
    ≡ true
unfolding all_below is_space to_lower_char
latin_table = refl

capitals_table :
    all_below 0xdf (λ n. not ((is_capital n || is_latin_capital n) && is_space n)) ≡ true
unfolding all_below is_space
capitals_table = refl

special_spaces : (is_space 0x130 ≡ false) × (is_space 0x212a ≡ false)
unfolding is_space
special_spaces = (refl, refl)

to_lower_char_lem :
    (c : Char)
    → to_lower_char c ≡ (
        if is_capital (code c)
        then char_at "abcdefghijklmnopqrstuvwxyz" (code c - b'A')
        else if nat_eq (code c) 0x130
        then char_at "i" 0
        else if nat_eq (code c) 0x212a
        then char_at "k" 0
        else if is_latin_capital (code c)
        then char_at latin_lower (2 * (code c - 0xc0))
        else c)
unfolding to_lower_char
to_lower_char_lem c = refl

-- A character stays, or becomes one that stays; neither is white space in the second case.
abbrev Lowers : Char → Char → Type 0
Lowers c d =
    (d ≡ c)
    ⊎ (not (is_space (code c))
          && not (is_space (code d))
          && nat_eq (code (to_lower_char d)) (code d)
        ≡ true)

letter-Lowers :
    (c : Char)
    → is_capital (code c) ≡ true
    → Lowers c (char_at "abcdefghijklmnopqrstuvwxyz" (code c - b'A'))
letter-Lowers c h = inr (
    ground (
      arith,
      all_below_sound 26 _ letters_table (code c - b'A'),
      all_below_sound 0xdf _ capitals_table (code c),
    ))

latin-Lowers :
    (c : Char)
    → is_latin_capital (code c) ≡ true
    → Lowers c (char_at latin_lower (2 * (code c - 0xc0)))
latin-Lowers c h = inr (
    ground (
      arith,
      all_below_sound 31 _ latin_table (code c - 0xc0),
      all_below_sound 0xdf _ capitals_table (code c),
    ))

special_table :
    (nat_eq (code (to_lower_char (char_at "i" 0))) b'i' ≡ true)
    × (nat_eq (code (to_lower_char (char_at "k" 0))) b'k' ≡ true)
    × (is_space b'i' ≡ false)
    × (is_space b'k' ≡ false)
unfolding is_space to_lower_char
special_table = (refl, refl, refl, refl)

if-Lowers :
    (c : Char) (b : Bool) {x y : Char}
    → (b ≡ true → Lowers c x)
    → (b ≡ false → Lowers c y)
    → Lowers c (if b then x else y)
if-Lowers c true f g = f refl
if-Lowers c false f g = g refl

to_lower_char-Lowers : (c : Char) → Lowers c (to_lower_char c)
to_lower_char-Lowers c = subst (Lowers c) (sym (to_lower_char_lem c)) (
    if-Lowers c _ (letter-Lowers c) λ _.
      if-Lowers c _ (λ h. inr (special-i h))
        λ _.
          if-Lowers c _ (λ h. inr (special-k h)) λ _. if-Lowers c _ (latin-Lowers c) λ _. inl refl)
  where
    special-i :
        nat_eq (code c) 0x130 ≡ true
        → (not (is_space (code c))
            && not (is_space b'i')
            && nat_eq (code (to_lower_char (char_at "i" 0))) b'i')
          ≡ true
    special-i h = ground (arith, special_spaces.0, special_table.0, special_table.2)

    special-k :
        nat_eq (code c) 0x212a ≡ true
        → (not (is_space (code c))
            && not (is_space b'k')
            && nat_eq (code (to_lower_char (char_at "k" 0))) b'k')
          ≡ true
    special-k h = ground (arith, special_spaces.1, special_table.1, special_table.3)

is_space-to_lower_char : (c : Char) → is_space (code (to_lower_char c)) ≡ is_space (code c)
is_space-to_lower_char c = ground (arith, to_lower_char-Lowers c)

to_lower_char_idem : (c : Char) → to_lower_char (to_lower_char c) ≡ to_lower_char c
to_lower_char_idem c = Char-path _ _ (ground (arith, to_lower_char-Lowers c))

Starts-to_lower : (s : String) → Starts s → Starts (to_lower s)
unfolding to_lower
Starts-to_lower [] h = tt
Starts-to_lower (c ∷ s) h = is_space-to_lower_char c ∙ h

to_lower-reverse_onto :
    (s t : String) → to_lower (reverse_onto s t) ≡ reverse_onto (to_lower s) (to_lower t)
unfolding to_lower reverse_onto
to_lower-reverse_onto [] t = refl
to_lower-reverse_onto (c ∷ s) t = to_lower-reverse_onto s (c ∷ t)

to_lower-nil : to_lower [] ≡ []
unfolding to_lower
to_lower-nil = refl

-- Lowering keeps a text trimmed.
pub to_lower-IsTrimmed : (s : String) → IsTrimmed s → IsTrimmed (to_lower s)
to_lower-IsTrimmed s h = (
  Starts-to_lower s h.0,
  subst Starts (to_lower-reverse_onto s [] ∙ ap (reverse_onto (to_lower s)) to_lower-nil)
      (Starts-to_lower _ h.1),
)

pub to_lower_idem : (s : String) → to_lower (to_lower s) ≡ to_lower s
unfolding to_lower
to_lower_idem [] = refl
to_lower_idem (c ∷ s) = ap₂ ◌∷◌ (to_lower_char_idem c) (to_lower_idem s)

pub trim_space_idem : (s : String) → trim_space (trim_space s) ≡ trim_space s
trim_space_idem s = trim_space_of_IsTrimmed _ (trim_space-IsTrimmed s)

-- `strings.ToLower(strings.TrimSpace(s))`, the form in which the program keeps its key words.
pub to_lower-trim_space_idem :
    (s : String) → to_lower (trim_space (to_lower (trim_space s))) ≡ to_lower (trim_space s)
to_lower-trim_space_idem s =
    ap to_lower (trim_space_of_IsTrimmed _ (to_lower-IsTrimmed _ (trim_space-IsTrimmed s)))
    ∙ to_lower_idem (trim_space s)
