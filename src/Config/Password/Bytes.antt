-- ===== src/Config/Password/Bytes.antt =====
-- internal/config/password.go, subtleConstantEqual: the bytes of texts and their comparison.
use Prim.Native.Char.{Char, code}
use Prim.Native.Nat.{bit_or, bit_xor}
use text.Mathlib.TextEquality.{Char-path}
use wakehub.Base.{
  ap₂, sym, ◌≢◌, All-append, ℕ, ◌<◌, ◌≡◌, refl, ◌↔◌, String, List, [], ◌∷◌, ◌++◌, true, ◌||◌, ◌&&◌,
  not, ltb, nat_eq, length, All, arith, all_below, all_below_sound,
}
use wakehub.Config.Password.{utf8, bytes, collect_differences, subtle_constant_equal}

or_table :
    all_below 256 (λ v.
      all_below 256
        (λ x. let o = bit_or v x in ltb o 256 && (not (nat_eq o 0) || (nat_eq v 0 && nat_eq x 0))))
    ≡ true
unfolding all_below
or_table = refl

xor_table :
    all_below 256 (λ a.
      all_below 256 (λ b. let o = bit_xor a b in ltb o 256 && (not (nat_eq o 0) || nat_eq a b)))
    ≡ true
unfolding all_below
xor_table = refl

or_below : (v x : ℕ) → v < 256 → x < 256 → (bit_or v x < 256) × (bit_or v x ≡ 0 → (v ≡ 0) × (x ≡ 0))
or_below v x p q = ground (arith, all_below_sound 256 _ (all_below_sound 256 _ or_table v p) x q)

xor_below : (a b : ℕ) → a < 256 → b < 256 → (bit_xor a b < 256) × (bit_xor a b ≡ 0 → a ≡ b)
xor_below a b p q = ground (arith, all_below_sound 256 _ (all_below_sound 256 _ xor_table a p) b q)

self_table : all_below 256 (λ a. nat_eq (bit_or 0 (bit_xor a a)) 0) ≡ true
unfolding all_below
self_table = refl

xor_self : (a : ℕ) → a < 256 → bit_or 0 (bit_xor a a) ≡ 0
xor_self a h = ground (arith, all_below_sound 256 _ self_table a h)

abbrev IsByte : ℕ → Type 0
IsByte x = x < 256

-- No difference was collected exactly when the lists agree.
differences_eq_zero :
    (v : ℕ) (xs ys : List ℕ)
    → v < 256
    → All IsByte xs
    → All IsByte ys
    → length xs ≡ length ys
    → collect_differences v xs ys ≡ 0
    → (v ≡ 0) × (xs ≡ ys)
unfolding collect_differences
differences_eq_zero v [] [] h p q e z = (z, refl)
differences_eq_zero v (x ∷ xs) (y ∷ ys) h p q e z =
    let o = or_below v (bit_xor x y) h ((xor_below x y p.0 q.0).0) in
    let r = differences_eq_zero (bit_or v (bit_xor x y)) xs ys o.0 p.1 q.1 (omega arith) z in
    let s = o.1 r.0 in (s.0, ap₂ ◌∷◌ ((xor_below x y p.0 q.0).1 s.1) r.1)
differences_eq_zero v [] (y ∷ ys) h p q e z = absurd (omega arith)
differences_eq_zero v (x ∷ xs) [] h p q e z = absurd (omega arith)

differences_self : (xs : List ℕ) → All IsByte xs → collect_differences 0 xs xs ≡ 0
unfolding collect_differences
differences_self [] h = refl
differences_self (x ∷ xs) h = rw (xor_self x h.0) (differences_self xs h.1)

utf8-IsByte : (n : ℕ) → n < 0x110000 → All IsByte (utf8 n)
unfolding utf8
utf8-IsByte n h = ground arith

-- A character can be read back from the front of its bytes.
utf8-append_injective :
    (m n : ℕ) (xs ys : List ℕ)
    → m < 0x110000
    → n < 0x110000
    → utf8 m ++ xs ≡ utf8 n ++ ys
    → (m ≡ n) × (xs ≡ ys)
unfolding utf8
utf8-append_injective m n xs ys p q e = ground arith

utf8-append-ne-nil : (n : ℕ) (xs : List ℕ) → utf8 n ++ xs ≢ []
unfolding utf8
utf8-append-ne-nil n xs e = ground arith

code_bound : (c : Char) → code c < 0x110000
code_bound (Char.char n scalar) = ground arith

bytes-IsByte : (s : String) → All IsByte (bytes s)
unfolding bytes
bytes-IsByte String.[] = tt
bytes-IsByte (String.◌∷◌ c s) =
    All-append IsByte (utf8 (code c)) (bytes s) (utf8-IsByte (code c) (code_bound c))
      (bytes-IsByte s)

bytes-injective : (s t : String) → bytes s ≡ bytes t → s ≡ t
unfolding bytes
bytes-injective String.[] String.[] e = refl
bytes-injective String.[] (String.◌∷◌ d t) e =
    absurd (utf8-append-ne-nil (code d) (bytes t) (sym e))
bytes-injective (String.◌∷◌ c s) String.[] e = absurd (utf8-append-ne-nil (code c) (bytes s) e)
bytes-injective (String.◌∷◌ c s) (String.◌∷◌ d t) e =
    let r =
      utf8-append_injective (code c) (code d) (bytes s) (bytes t) (code_bound c) (code_bound d) e in
    ap₂ String.◌∷◌ (Char-path c d r.0) (bytes-injective s t r.1)

-- The comparison that takes the same time for every text of one length tests whether two texts
-- are equal.
pub subtle_constant_equal_iff : (a b : String) → (subtle_constant_equal a b ≡ true) ↔ (a ≡ b)
unfolding subtle_constant_equal
subtle_constant_equal_iff a b = (
  λ h.
      bytes-injective a b
        (differences_eq_zero 0 (bytes a) (bytes b) (omega arith) (bytes-IsByte a) (bytes-IsByte b)
          (ground arith) (ground arith)).1,
  λ e. rw (← e) (ground (arith, differences_self (bytes a) (bytes-IsByte a))),
)
