-- ===== src/Wol/Broadcasts.antt =====
-- internal/wol/wol.go, LocalIPv4Broadcasts: the addresses that a packet goes to where no other is given.
pub mod Coverage
use wakehub.Base.{
  String, Bool, not, ◌||◌, List, [], ◌∷◌, ◌++◌, Option, none, some, Result, ok, err, if◌then◌else◌,
  ◌==◌, any,
}
use wakehub.Interfaces.{Interface, Network, broadcast, dotted, mask_of}

abbrev pub limited : String
limited = "255.255.255.255"

-- seen[s], which has the addresses of `out`
abbrev pub has : String → List String → Bool
has s out = any (λ t. t == s) out

abbrev pub network_text : Network → String
network_text n = dotted (broadcast n.ip (mask_of n))

-- The loop over the addresses of an interface.
unfoldable pub add_networks : List (Option Network) → List String → List String
add_networks [] out = out
add_networks (none ∷ rest) out = add_networks rest out
add_networks (some n ∷ rest) out =
    let s = network_text n in add_networks rest (if has s out then out else out ++ s ∷ [])

-- The loop over the interfaces.
unfoldable pub add_interfaces : List Interface → List String → List String
add_interfaces [] out = out
add_interfaces (i ∷ rest) out = add_interfaces rest (
    if not i.up || i.loopback
    then out
    else elim i.addrs [ err e ↦ out | ok addrs ↦ add_networks addrs out ])

unfoldable pub local_ipv4_broadcasts : Result (List Interface) → Result (List String)
local_ipv4_broadcasts (err e) = err e
local_ipv4_broadcasts (ok interfaces) =
    let out = add_interfaces interfaces [] in
    ok (if has limited out then out else out ++ limited ∷ [])
