-- ===== src/Wol/Hardware.antt =====
-- internal/wol/wol.go, NewMagicPacket: reading a hardware address as the library net writes it.
use Prim.Native.Char.{Char, code}
use wakehub.Base.{
  ℕ, zero, suc, ◌/◌, ◌%◌, ◌*◌, ◌+◌, ◌<◌, ◌≡◌, refl, ◌∙◌, ap, String, Bool, true, false, not, ◌&&◌,
  List, [], ◌∷◌, none, some, Option-cases, inl, inr, ok, length, replicate, nat_eq, all_below,
  all_below_sound, arith, All,
}
use wakehub.Text.{is_space, reverse_onto}
use wakehub.Text.Laws.{IsTrimmed, trim_space_of_IsTrimmed}
use wakehub.Interfaces.{hex_digit, mac_text}
use wakehub.Wol.{hex_value, is_hex, parse_bytes, matches_groups, third, new_magic_packet}

-- The digit is read as it was written, and is no white space.
is_readable : ℕ → Bool
is_readable d =
    is_hex (code (hex_digit d))
    && not (is_space (code (hex_digit d)))
    && elim (hex_value (code (hex_digit d))) [ none ↦ false | some v ↦ nat_eq v d ]

digit_table : all_below 16 is_readable ≡ true
unfolding all_below is_readable is_space hex_value
digit_table = refl

hex_value-hex_digit : (d : ℕ) → d < 16 → hex_value (code (hex_digit d)) ≡ some d
unfolding is_readable
hex_value-hex_digit d small =
    let row = all_below_sound 16 is_readable digit_table d small in
    elim (Option-cases (hex_value (code (hex_digit d)))) [
      | inl e ↦ ground arith
      | inr (v, e) ↦ ground arith
    ]

hex_digit-plain :
    (d : ℕ)
    → d < 16
    → (is_hex (code (hex_digit d)) ≡ true) × (is_space (code (hex_digit d)) ≡ false)
unfolding is_readable
hex_digit-plain d small =
    let row = all_below_sound 16 is_readable digit_table d small in (ground arith, ground arith)

-- Six bytes.
abbrev pub IsMac : List ℕ → Type 0
IsMac hw = (length hw ≡ 6) × All (λ b. b < 256) hw

-- Two digits, and two digits before a colon.
parse_bytes-last :
    (p q : Char) (x y : ℕ)
    → hex_value (code p) ≡ some x
    → hex_value (code q) ≡ some y
    → parse_bytes b':' 0 (String.◌∷◌ p (String.◌∷◌ q "")) ≡ some ((x * 16 + y) ∷ [])
unfolding parse_bytes
parse_bytes-last p q x y high low = ground arith

parse_bytes-colon :
    (p q : Char) (x y n : ℕ) (s : String) (bs : List ℕ)
    → hex_value (code p) ≡ some x
    → hex_value (code q) ≡ some y
    → parse_bytes b':' n s ≡ some bs
    → parse_bytes b':' (suc n) (String.◌∷◌ p (String.◌∷◌ q (String.◌∷◌ ":" s)))
      ≡ some ((x * 16 + y) ∷ bs)
unfolding parse_bytes
parse_bytes-colon p q x y n s bs high low rest = ground arith

matches_groups-last :
    (p q : Char)
    → is_hex (code p) ≡ true
    → is_hex (code q) ≡ true
    → matches_groups 0 (String.◌∷◌ p (String.◌∷◌ q "")) ≡ true
unfolding matches_groups
matches_groups-last p q high low = ground arith

matches_groups-colon :
    (p q : Char) (n : ℕ) (s : String)
    → is_hex (code p) ≡ true
    → is_hex (code q) ≡ true
    → matches_groups n s ≡ true
    → matches_groups (suc n) (String.◌∷◌ p (String.◌∷◌ q (String.◌∷◌ ":" s))) ≡ true
unfolding matches_groups
matches_groups-colon p q n s high low rest = ground arith

parse_bytes-mac_text :
    (n : ℕ) (hw : List ℕ)
    → length hw ≡ n + 1
    → All (λ b. b < 256) hw
    → (parse_bytes b':' n (mac_text hw) ≡ some hw) × (matches_groups n (mac_text hw) ≡ true)
unfolding mac_text matches_groups
parse_bytes-mac_text zero (b ∷ []) len (byte, rest) =
    let x = hex_value-hex_digit (b / 16) (omega arith) in
    let y = hex_value-hex_digit (b % 16) (omega arith) in
    let (hx, _) = hex_digit-plain (b / 16) (omega arith) in
    let (hy, _) = hex_digit-plain (b % 16) (omega arith) in
    let whole : b / 16 * 16 + b % 16 ≡ b = omega arith in
    (
      parse_bytes-last (hex_digit (b / 16)) (hex_digit (b % 16)) _ _ x y
          ∙ ap (λ v. some (v ∷ [])) whole,
      matches_groups-last (hex_digit (b / 16)) (hex_digit (b % 16)) hx hy,
    )
parse_bytes-mac_text (suc n) (b ∷ c ∷ hw) len (byte, rest) =
    let (parsed, shaped) = parse_bytes-mac_text n (c ∷ hw) (omega arith) rest in
    let x = hex_value-hex_digit (b / 16) (omega arith) in
    let y = hex_value-hex_digit (b % 16) (omega arith) in
    let (hx, _) = hex_digit-plain (b / 16) (omega arith) in
    let (hy, _) = hex_digit-plain (b % 16) (omega arith) in
    let whole : b / 16 * 16 + b % 16 ≡ b = omega arith in
    (
      parse_bytes-colon (hex_digit (b / 16)) (hex_digit (b % 16)) _ _ n (mac_text (c ∷ hw)) (c ∷ hw)
            x y parsed
          ∙ ap (λ v. some (v ∷ c ∷ hw)) whole,
      matches_groups-colon (hex_digit (b / 16)) (hex_digit (b % 16)) n (mac_text (c ∷ hw)) hx hy
          shaped,
    )
parse_bytes-mac_text zero [] len bytes = ground arith
parse_bytes-mac_text zero (b ∷ c ∷ hw) len bytes = absurd (omega arith)
parse_bytes-mac_text (suc n) [] len bytes = absurd (omega arith)
parse_bytes-mac_text (suc n) (b ∷ []) len bytes = absurd (omega arith)

mac_text-IsTrimmed :
    (hw : List ℕ) → IsMac hw → (IsTrimmed (mac_text hw)) × (third (mac_text hw) ≡ b':')
unfolding mac_text third reverse_onto
mac_text-IsTrimmed (a ∷ b ∷ c ∷ d ∷ e ∷ f ∷ []) (six, bytes) =
    let (_, front) = hex_digit-plain (a / 16) (omega arith) in
    let (_, back) = hex_digit-plain (f % 16) (omega arith) in ((front, back), refl)
mac_text-IsTrimmed [] (six, bytes) = absurd (omega arith)
mac_text-IsTrimmed (a ∷ []) (six, bytes) = absurd (omega arith)
mac_text-IsTrimmed (a ∷ b ∷ []) (six, bytes) = absurd (omega arith)
mac_text-IsTrimmed (a ∷ b ∷ c ∷ []) (six, bytes) = absurd (omega arith)
mac_text-IsTrimmed (a ∷ b ∷ c ∷ d ∷ []) (six, bytes) = absurd (omega arith)
mac_text-IsTrimmed (a ∷ b ∷ c ∷ d ∷ e ∷ []) (six, bytes) = absurd (omega arith)
mac_text-IsTrimmed (a ∷ b ∷ c ∷ d ∷ e ∷ f ∷ g ∷ rest) (six, bytes) = absurd (omega arith)

-- The text of six bytes makes their packet.
pub new_magic_packet-mac_text :
    (hw : List ℕ)
    → IsMac hw
    → new_magic_packet (mac_text hw)
      ≡ ok (record { header = replicate 6 0xff; payload = replicate 16 hw })
unfolding new_magic_packet
new_magic_packet-mac_text hw (six, bytes) =
    let (parsed, shaped) = parse_bytes-mac_text 5 hw six bytes in
    let (plain, sep) = mac_text-IsTrimmed hw (six, bytes) in
    let trimmed = trim_space_of_IsTrimmed (mac_text hw) plain in
    rw (trimmed, shaped, sep, parsed, six) refl
