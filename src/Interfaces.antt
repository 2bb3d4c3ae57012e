-- ===== src/Interfaces.antt =====
-- The interfaces of the machine, as the package net of the library lists them, and the broadcast
-- address of an IPv4 network: what LocalIPv4Broadcasts of internal/wol/wol.go, CollectNICs of
-- internal/clientapp/nics.go and PrimaryMAC of internal/mdns/mdns.go share.
pub mod Addresses
use Prim.Native.Char.{Char}
use Prim.Native.Nat.{bit_or}
use Prim.Native.String.{char_at}
use Prim.Native.String
use Prim.Native.String.{◌++◌ as ◌<>◌}
use wakehub.Base.{
  ℕ, ◌-◌, ◌/◌, ◌%◌, String, Bool, not, ◌||◌, List, [], ◌∷◌, Option, none, some, Result,
  if◌then◌else◌, ltb,
}
use wakehub.Text.{decimal}

-- Four bytes.
abbrev pub Bytes4 : Type 0
Bytes4 = ℕ × ℕ × ℕ × ℕ

-- A net.Addr that is a *net.IPNet with an IPv4 address, and its mask if that has four bytes.
pub record Network : Type 0 where
  pub ip : Bytes4
  pub mask : Option Bytes4

-- A net.Interface: its addresses, where any other than such a network is `none`.
pub record Interface : Type 0 where
  pub name : String
  pub hardware : List ℕ
  pub up : Bool
  pub loopback : Bool
  pub addrs : Result (List (Option Network))

-- IP.DefaultMask of the library, by the class of the address.
unfoldable pub default_mask : Bytes4 → Bytes4
default_mask (a, b, c, d) =
    if ltb a 0x80
    then (255, 0, 0, 0)
    else if ltb a 0xc0
    then (255, 255, 0, 0)
    else (255, 255, 255, 0)

-- ip4[i] | ^mask[i]
abbrev pub broadcast_byte : ℕ → ℕ → ℕ
broadcast_byte ip mask = bit_or ip (255 - mask)

unfoldable pub broadcast : Bytes4 → Bytes4 → Bytes4
broadcast (a, b, c, d) (k, l, m, n) =
    (broadcast_byte a k, broadcast_byte b l, broadcast_byte c m, broadcast_byte d n)

-- IP.String
unfoldable pub dotted : Bytes4 → String
dotted (a, b, c, d) = decimal a <> "." <> decimal b <> "." <> decimal c <> "." <> decimal d

abbrev pub mask_of : Network → Bytes4
mask_of n = elim n.mask [ some m ↦ m | none ↦ default_mask n.ip ]

abbrev pub hex_digit : ℕ → Char
hex_digit n = char_at "0123456789abcdef" n

-- HardwareAddr.String
unfoldable pub mac_text : List ℕ → String
mac_text [] = ""
mac_text (b ∷ []) = String.◌∷◌ (hex_digit (b / 16)) (String.◌∷◌ (hex_digit (b % 16)) "")
mac_text (b ∷ bs) =
    String.◌∷◌ (hex_digit (b / 16)) (String.◌∷◌ (hex_digit (b % 16)) (String.◌∷◌ ":" (mac_text bs)))
