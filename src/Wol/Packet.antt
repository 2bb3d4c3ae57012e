-- ===== src/Wol/Packet.antt =====
-- internal/wol/wol.go, NewMagicPacket and Bytes.
use Prim.Native.Char.{code}
use wakehub.Base.{
  subst, sym, ap, ℕ, suc, zero, ◌+◌, ◌*◌, ◌<◌, ◌≡◌, refl, String, List, [], ◌∷◌, ◌++◌, some, ok,
  replicate, length, length-append, All, All-append, arith, Option-cases, inl, inr,
}
use wakehub.Text.{trim_space}
use wakehub.Wol.{hex_value, parse_bytes, third, MagicPacket, new_magic_packet, packet_bytes, concat}

abbrev IsByte : ℕ → Type 0
IsByte x = x < 256

hex_value-lt : (c x : ℕ) → hex_value c ≡ some x → x < 16
unfolding hex_value
hex_value-lt c x h = ground arith

abbrev IsHardware : ℕ → List ℕ → Type 0
IsHardware n bs = (length bs ≡ n + 1) × All IsByte bs

parse_bytes-IsHardware :
    (sep n : ℕ) (s : String) (bs : List ℕ) → parse_bytes sep n s ≡ some bs → IsHardware n bs
unfolding parse_bytes
parse_bytes-IsHardware sep zero (String.◌∷◌ a (String.◌∷◌ b String.[])) bs h =
    elim (Option-cases (hex_value (code a))) [
      | inl e ↦ ground arith
      | inr (x, e) ↦ elim (Option-cases (hex_value (code b))) [
        | inl f ↦ ground arith
        | inr (y, f) ↦
            let same : (x * 16 + y) ∷ [] ≡ bs = ground arith in
            subst (IsHardware 0) same
              (refl, (omega (arith, hex_value-lt (code a) x e, hex_value-lt (code b) y f), tt))
      ]
    ]
parse_bytes-IsHardware sep (suc n) (String.◌∷◌ a (String.◌∷◌ b (String.◌∷◌ c s))) bs h =
    elim (Option-cases (hex_value (code a))) [
      | inl e ↦ ground arith
      | inr (x, e) ↦ elim (Option-cases (hex_value (code b))) [
        | inl f ↦ ground arith
        | inr (y, f) ↦ elim (Option-cases (parse_bytes sep n s)) [
          | inl g ↦ ground arith
          | inr (rest, g) ↦
              let ih = parse_bytes-IsHardware sep n s rest g in
              let same : (x * 16 + y) ∷ rest ≡ bs = ground arith in
              subst (IsHardware (suc n)) same (
                omega (arith, ih.0),
                (omega (arith, hex_value-lt (code a) x e, hex_value-lt (code b) y f), ih.1),
              )
        ]
      ]
    ]
parse_bytes-IsHardware sep _ _ bs h = cc

length-concat-replicate :
    (n m : ℕ) (bs : List ℕ) → length bs ≡ m → length (concat (replicate n bs)) ≡ n * m
unfolding concat
length-concat-replicate zero m bs h = omega arith
length-concat-replicate (suc n) m bs h =
    omega (arith, length-append bs (concat (replicate n bs)), length-concat-replicate n m bs h)

All-concat-replicate : (n : ℕ) (bs : List ℕ) → All IsByte bs → All IsByte (concat (replicate n bs))
unfolding concat
All-concat-replicate zero bs h = tt
All-concat-replicate (suc n) bs h = All-append IsByte bs _ h (All-concat-replicate n bs h)

abbrev packet_of : List ℕ → MagicPacket
packet_of hw = record { header = replicate 6 0xff; payload = replicate 16 hw }

length-packet_of : (hw : List ℕ) → length hw ≡ 6 → length (packet_bytes (packet_of hw)) ≡ 102
unfolding packet_bytes
length-packet_of hw h = omega (
  arith,
  length-append (replicate 6 0xff) (concat (replicate 16 hw)),
  length-concat-replicate 16 6 hw h,
)

packet_of-IsByte : (hw : List ℕ) → All IsByte hw → All IsByte (packet_bytes (packet_of hw))
unfolding packet_bytes
packet_of-IsByte hw h =
    All-append IsByte (replicate 6 0xff) _ (omega arith) (All-concat-replicate 16 hw h)

-- A packet that is made is 102 bytes long: six of 0xff and sixteen times the six bytes of the
-- address.
pub packet_bytes-new_magic_packet :
    (mac : String) (mp : MagicPacket)
    → new_magic_packet mac ≡ ok mp
    → (hw : List ℕ) × (parse_bytes (third (trim_space mac)) 5 (trim_space mac) ≡ some hw)
      × (length hw ≡ 6)
      × (packet_bytes mp ≡ replicate 6 0xff ++ concat (replicate 16 hw))
      × (length (packet_bytes mp) ≡ 102)
      × All IsByte (packet_bytes mp)
unfolding new_magic_packet packet_bytes
packet_bytes-new_magic_packet mac mp h =
    elim (Option-cases (parse_bytes (third (trim_space mac)) 5 (trim_space mac))) [
      | inl e ↦ absurd (ground arith)
      | inr (hw, e) ↦
          let ok_bytes = parse_bytes-IsHardware (third (trim_space mac)) 5 (trim_space mac) hw e in
          let made : packet_of hw ≡ mp = ground (arith, ok_bytes.0) in
          (
            hw,
            e,
            ok_bytes.0,
            ap packet_bytes (sym made),
            subst (λ p. length (packet_bytes p) ≡ 102) made (length-packet_of hw ok_bytes.0),
            subst (λ p. All IsByte (packet_bytes p)) made (packet_of-IsByte hw ok_bytes.1),
          )
    ]
