-- ===== src/Config/Random/Bounds.antt =====
-- internal/config/id.go: the lengths of what it makes, and the bytes that a token spells.
use Prim.Native.String.{len}
use Prim.Native.Char.{Char, len_utf8, code}
use Prim.Native.String.len
use wakehub.Base.{
  all_below, all_below_sound, ◌&&◌, ◌||◌, ◌/◌, ◌%◌, Bool, nat_eq, ◌↔◌, ℕ, zero, suc, ◌+◌, ◌*◌, ◌≡◌,
  refl, ap, ◌∙◌, ◌<◌, ◌≤◌, ◌≢◌, Option, none, some, List, arith, String, length, All, is_some, true,
  false, Bool-cases, inl, inr, Option-cases,
}
use wakehub.Base
use wakehub.Wol.{hex_value}
use wakehub.Config.Random.{hex_digit, encode_hex, prefix_to, random_id, random_token}

-- What crypto/rand promises: a read that succeeds fills the slice with bytes.
pub record FillsSlices (read : ℕ → Option (List ℕ)) : Type 0 where
  pub filled : (n : ℕ) (b : List ℕ) → read n ≡ some b → length b ≡ n
  pub bytes : (n : ℕ) (b : List ℕ) → read n ≡ some b → All (λ x. x < 256) b

reads_as : ℕ → Option ℕ → Bool
reads_as d none = false
reads_as d (some v) = nat_eq v d

-- hex.DecodeString
pub decode_hex : String → Option (List ℕ)
decode_hex String.[] = some Base.[]
decode_hex (String.◌∷◌ p String.[]) = none
decode_hex (String.◌∷◌ p (String.◌∷◌ q s)) = elim (hex_value (code p)) [
  | none ↦ none
  | some x ↦ elim (hex_value (code q)) [
    | none ↦ none
    | some y ↦ elim (decode_hex s) [ none ↦ none | some b ↦ some (Base.◌∷◌ (x * 16 + y) b) ]
  ]
]

digits_table : all_below 16 (λ k. nat_eq (len_utf8 (hex_digit k)) 1) ≡ true
unfolding all_below
digits_table = refl

len-hex_digit : (k : ℕ) → k < 16 → len_utf8 (hex_digit k) ≡ 1
len-hex_digit k h = ground (arith, all_below_sound 16 _ digits_table k)

pub len-encode_hex : (b : List ℕ) → All (λ x. x < 256) b → len (encode_hex b) ≡ 2 * length b
unfolding encode_hex
len-encode_hex Base.[] h = refl
len-encode_hex (Base.◌∷◌ x b) h =
    rw
      (
        len.cons,
        len.cons,
        len-hex_digit (x / 16) (omega arith),
        len-hex_digit (x % 16) (omega arith),
      )
      (omega (arith, len-encode_hex b h.1))

prefix_to-some : (s : String) (n : ℕ) → n ≤ len s → is_some (prefix_to s n) ≡ true
unfolding prefix_to
prefix_to-some s n h = ground arith

-- With a random source that fills the slices that it is given, an id of ten digits is made also
-- where the source fails.
pub random_id-some :
    (read : ℕ → Option (List ℕ)) → FillsSlices read → is_some (random_id read 10) ≡ true
unfolding random_id
random_id-some read h = elim (Option-cases (read 10)) [
  | inl e ↦ rw (e, random_id) refl
  | inr (b, e) ↦
      rw (e, random_id)
        (prefix_to-some (encode_hex b) 10
          (omega (arith, len-encode_hex b (h.bytes 10 b e), h.filled 10 b e)))
]

random_id-fallback :
    (read : ℕ → Option (List ℕ)) → read 16 ≡ none → is_some (random_id read 16) ≡ false
unfolding random_id
random_id-fallback read e = rw (e, random_id) refl

hex_value_table : all_below 16 (λ d. reads_as d (hex_value (code (hex_digit d)))) ≡ true
unfolding all_below reads_as hex_value
hex_value_table = refl

hex_value-hex_digit : (d : ℕ) → d < 16 → hex_value (code (hex_digit d)) ≡ some d
hex_value-hex_digit d small =
    let row = all_below_sound 16 _ hex_value_table d small in
    elim (Option-cases (hex_value (code (hex_digit d)))) [
      | inl e ↦ unfold reads_as in ground arith
      | inr (v, e) ↦ unfold reads_as in ground arith
    ]

decode_hex-pair :
    (p q : Char) (x y : ℕ) (s : String) (b : List ℕ)
    → hex_value (code p) ≡ some x
    → hex_value (code q) ≡ some y
    → decode_hex s ≡ some b
    → decode_hex (String.◌∷◌ p (String.◌∷◌ q s)) ≡ some (Base.◌∷◌ (x * 16 + y) b)
unfolding decode_hex
decode_hex-pair p q x y s b high low rest = ground arith

decode_hex-encode_hex : (b : List ℕ) → All (λ x. x < 256) b → decode_hex (encode_hex b) ≡ some b
unfolding decode_hex encode_hex
decode_hex-encode_hex Base.[] bytes = refl
decode_hex-encode_hex (Base.◌∷◌ x b) (byte, bytes) =
    let high = hex_value-hex_digit (x / 16) (omega arith) in
    let low = hex_value-hex_digit (x % 16) (omega arith) in
    let rest = decode_hex-encode_hex b bytes in
    let whole : x / 16 * 16 + x % 16 ≡ x = omega arith in
    decode_hex-pair (hex_digit (x / 16)) (hex_digit (x % 16)) (x / 16) (x % 16) (encode_hex b) b
      high low rest
    ∙ ap (λ v. some (Base.◌∷◌ v b)) whole

-- Where the random source answers for 16 bytes, the token that the program asks for is made: it has
-- 32 hexadecimal digits, and they spell exactly these bytes. The source fills the slices that it is
-- given with bytes.
pub random_token-spells :
    (read : ℕ → Option (List ℕ)) (b : List ℕ)
    → FillsSlices read
    → read 16 ≡ some b
    → (token : String) × (random_token read 32 ≡ some token)
      × (len token ≡ 32)
      × (decode_hex token ≡ some b)
unfolding random_token
random_token-spells read b h e =
    let long = len-encode_hex b (h.bytes 16 b e) in
    let filled = h.filled 16 b e in
    let exact : len (encode_hex b) ≡ 32 = omega arith in
    (
      encode_hex b,
      rw (random_token, e, exact) refl,
      exact,
      decode_hex-encode_hex b (h.bytes 16 b e),
    )

-- A token that is made has 32 characters.
pub len-random_token :
    (read : ℕ → Option (List ℕ)) (token : String)
    → FillsSlices read
    → random_token read 32 ≡ some token
    → len token ≡ 32
unfolding random_token
len-random_token read token h made = elim (Option-cases (read 16)) [
  | inl e ↦ absurd (ground (arith, random_id-fallback read e))
  | inr (b, e) ↦ ground (arith, len-encode_hex b (h.bytes 16 b e), h.filled 16 b e)
]
