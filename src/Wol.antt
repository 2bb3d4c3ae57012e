-- ===== src/Wol.antt =====
-- internal/wol/wol.go: the magic packet, and the loop that sends it. What the network answers is
-- the parameter `Net`.

pub mod Broadcasts
pub mod Hardware
pub mod Packet
pub mod Sending
use Prim.Native.Char.{code}
use Prim.Native.Nat.{bit_or}
use Prim.Native.String
use wakehub.Base.{
  ℕ, suc, zero, ◌+◌, ◌-◌, ◌*◌, ◌≤◌, ℤ, pos, negsuc, String, Bool, true, false, ◌&&◌, ◌||◌, not,
  List, [], ◌∷◌, ◌++◌, map, Option, none, some, if◌then◌else◌, ◌==◌, nat_eq, leb, ltb, leb_ℤ, ltb_ℤ,
  Result, ok, err, replicate, length,
}
use wakehub.Text.{trim_space, decimal}
use wakehub.Interfaces.{Interface}
use wakehub.Wol.Broadcasts.{local_ipv4_broadcasts}

-- The value of a hexadecimal digit.
unfoldable pub hex_value : ℕ → Option ℕ
hex_value c =
    if leb b'0' c && leb c b'9'
    then some (c - b'0')
    else if leb b'a' c && leb c b'f'
    then some (c - b'a' + 10)
    else if leb b'A' c && leb c b'F'
    then some (c - b'A' + 10)
    else none

abbrev pub is_hex : ℕ → Bool
is_hex c = (leb b'0' c && leb c b'9') || (leb b'a' c && leb c b'f') || (leb b'A' c && leb c b'F')

abbrev pub is_separator : ℕ → Bool
is_separator c = nat_eq c b':' || nat_eq c b'-'

-- reMAC, from the place where n of its first groups are left.
unfoldable pub matches_groups : ℕ → String → Bool
matches_groups zero (String.◌∷◌ a (String.◌∷◌ b String.[])) = is_hex (code a) && is_hex (code b)
matches_groups (suc n) (String.◌∷◌ a (String.◌∷◌ b (String.◌∷◌ c s))) =
    is_hex (code a) && is_hex (code b) && is_separator (code c) && matches_groups n s
matches_groups _ _ = false

-- net.ParseMAC, for a text of the length that reMAC requires: n more bytes behind this one, each
-- with the separator of the first.
unfoldable pub parse_bytes : ℕ → ℕ → String → Option (List ℕ)
parse_bytes sep zero (String.◌∷◌ a (String.◌∷◌ b String.[])) = elim (hex_value (code a)) [
  | none ↦ none
  | some x ↦ elim (hex_value (code b)) [ none ↦ none | some y ↦ some ((x * 16 + y) ∷ []) ]
]
parse_bytes sep (suc n) (String.◌∷◌ a (String.◌∷◌ b (String.◌∷◌ c s))) = elim (hex_value (code a)) [
  | none ↦ none
  | some x ↦ elim (hex_value (code b)) [
    | none ↦ none
    | some y ↦
        let rest = parse_bytes sep n s in
        if nat_eq (code c) sep
        then elim rest [ none ↦ none | some bs ↦ some ((x * 16 + y) ∷ bs) ]
        else none
  ]
]
parse_bytes sep _ _ = none

-- s[2]
unfoldable pub third : String → ℕ
third (String.◌∷◌ a (String.◌∷◌ b (String.◌∷◌ c s))) = code c
third _ = 0

pub record MagicPacket : Type 0 where
  pub header : List ℕ
  pub payload : List (List ℕ)

unfoldable pub new_magic_packet : String → Result MagicPacket
new_magic_packet given =
    let mac = trim_space given in
    if matches_groups 5 mac
    then (elim (parse_bytes (third mac) 5 mac) [
      | none ↦ err (String.◌++◌ "address " (String.◌++◌ mac ": invalid MAC address"))
      | some hw ↦
          if not (nat_eq (length hw) 6)
          then err (String.◌++◌ "only MAC-48 supported: " mac)
          else ok (record { header = replicate 6 0xff; payload = replicate 16 hw })
    ])
    else err (String.◌++◌ "invalid MAC: " mac)

unfoldable pub concat : List (List ℕ) → List ℕ
concat [] = []
concat (b ∷ bs) = b ++ concat bs

-- The method `Bytes`; binary.Write into a buffer does not fail for arrays of bytes.
unfoldable pub packet_bytes : MagicPacket → List ℕ
packet_bytes mp = mp.header ++ concat mp.payload

-- What one call of DialUDP and Write comes to: an error, or the number of bytes written.
pub data Attempt : Type 0 where
  failed : String → Attempt
  wrote : ℕ → Attempt

-- LocalIPv4Broadcasts, the error of ResolveUDPAddr for a host and a port, and the i-th attempt to
-- send these bytes to it.
pub record Net : Type 0 where
  pub interfaces : Result (List Interface)
  pub resolve : String → ℤ → Option String
  pub attempt : String → ℤ → ℕ → List ℕ → Attempt

-- The variables of the loops: lastErr and sent.
pub record Progress : Type 0 where
  pub last_err : Option String
  pub sent : ℕ

-- The round of the inner loop: what its attempt does to the variables.
unfoldable pub attempted : Attempt → Progress → Progress
attempted (failed e) p = record p { last_err = some e }
attempted (wrote n) p =
    if not (nat_eq n 102)
    then record p {
      last_err = some (String.◌++◌ "wrote " (String.◌++◌ (decimal n) " bytes, want 102"));
    }
    else record p { sent = p.sent + 1 }

-- The inner loop, with `left` rounds to go from round i.
unfoldable pub send_repeats : Net → String → ℤ → List ℕ → ℕ → ℕ → Progress → Progress
send_repeats net host port payload i zero p = p
send_repeats net host port payload i (suc left) p =
    send_repeats net host port payload (i + 1) left (attempted (net.attempt host port i payload) p)

abbrev pub rounds : ℤ → ℕ
rounds (pos n) = n
rounds (negsuc n) = 0

-- The outer loop.
unfoldable pub send_targets : Net → ℤ → List ℕ → ℕ → List String → Progress → Progress
send_targets net port payload repeat [] p = p
send_targets net port payload repeat (host ∷ hosts) p =
    send_targets net port payload repeat hosts (elim (net.resolve host port) [
      | some e ↦ record p { last_err = some e }
      | none ↦ send_repeats net host port payload 0 repeat p
    ])

abbrev pub port_or_nine : ℤ → ℤ
port_or_nine port = if leb_ℤ port (pos 0) || ltb_ℤ (pos 65535) port then pos 9 else port

abbrev pub repeat_or_three : ℤ → ℤ
repeat_or_three repeat = if leb_ℤ repeat (pos 0) then pos 3 else repeat

unfoldable pub targets : Net → String → Result (List String)
targets net broadcast =
    if not (trim_space broadcast == "")
    then ok (trim_space broadcast ∷ [])
    else elim (local_ipv4_broadcasts net.interfaces) [
      | err e ↦ err e
      | ok hosts ↦ elim hosts [
        | [] ↦ err "no local IPv4 broadcast address found"
        | host ∷ rest ↦ ok (host ∷ rest)
      ]
    ]

unfoldable pub outcome : Progress → Option String
outcome p =
    if nat_eq p.sent 0
    then elim p.last_err [ some e ↦ some e | none ↦ some "failed to send magic packet" ]
    else none

-- What `Wake` has sent, and its error.
unfoldable pub wake : Net → String → String → ℤ → ℤ → Progress × Option String
wake net mac broadcast port repeat =
    let none_sent : Progress = record { last_err = none; sent = 0 } in
    elim (new_magic_packet mac) [
      | err e ↦ (none_sent, some e)
      | ok mp ↦ elim (targets net broadcast) [
        | err e ↦ (none_sent, some e)
        | ok hosts ↦
            let p =
              send_targets net (port_or_nine port) (packet_bytes mp)
                (rounds (repeat_or_three repeat)) hosts none_sent in
            (p, outcome p)
      ]
    ]
