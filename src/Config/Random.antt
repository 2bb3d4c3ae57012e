-- ===== src/Config/Random.antt =====
-- internal/config/id.go. `read n` is what rand.Read puts into a slice of n bytes, `none` where it
-- fails. A slice expression past the end of a text is a panic, which is `none` here.
pub mod Bounds
use Prim.Native.Char.{Char}
use Prim.Native.String.{[], ◌∷◌, len, slice, char_at}
use wakehub.Base.{
  ℕ, ◌+◌, ◌*◌, ◌/◌, ◌%◌, String, List, Option, none, some, leb, ltb, nat_eq, if◌then◌else◌,
}
use wakehub.Base

abbrev hex_digit : ℕ → Char
hex_digit n = char_at "0123456789abcdef" n

-- hex.EncodeToString
unfoldable pub encode_hex : List ℕ → String
encode_hex Base.[] = []
encode_hex (Base.◌∷◌ b bs) = hex_digit (b / 16) ∷ hex_digit (b % 16) ∷ encode_hex bs

-- s[:n]
unfoldable pub prefix_to : String → ℕ → Option String
prefix_to s n = if leb n (len s) then some (slice s 0 n) else none

-- The bytes of "fallbackid".
abbrev fallback_bytes : List ℕ
fallback_bytes = Base.◌∷◌ 0x66 (
    Base.◌∷◌ 0x61 (
      Base.◌∷◌ 0x6c (
        Base.◌∷◌ 0x6c (
          Base.◌∷◌ 0x62 (
            Base.◌∷◌ 0x61
              (Base.◌∷◌ 0x63 (Base.◌∷◌ 0x6b (Base.◌∷◌ 0x69 (Base.◌∷◌ 0x64 Base.[])))))))))

unfoldable pub random_id : (ℕ → Option (List ℕ)) → ℕ → Option String
unfolding encode_hex prefix_to
random_id read n = elim (read n) [
  | none ↦ prefix_to (encode_hex fallback_bytes) (n * 2)
  | some b ↦ prefix_to (encode_hex b) n
]

unfoldable pub random_token : (ℕ → Option (List ℕ)) → ℕ → Option String
unfolding random_id encode_hex
random_token read asked =
    let length = if nat_eq asked 0 then 32 else asked in
    let half = (length + 1) / 2 in
    let n = if ltb half 8 then 8 else half in
    elim (read n) [
      | none ↦ random_id read 16
      | some b ↦ let s = encode_hex b in if ltb length (len s) then prefix_to s length else some s
    ]
