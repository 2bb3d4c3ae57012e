-- ===== src/Client/Nics.antt =====
-- internal/clientapp/nics.go, CollectNICs, and PrimaryMAC of internal/mdns/mdns.go: what a client
-- tells of the interfaces of its machine.
pub mod Wakeable
use wakehub.Base.{
  ℕ, String, Bool, not, ◌||◌, List, [], ◌∷◌, ◌++◌, Option, none, some, Result, ok, err,
  if◌then◌else◌, ◌==◌, nat_eq, length,
}
use wakehub.Config.{NicInfo}
use wakehub.Interfaces.{Interface, Network, broadcast, dotted, mac_text}

-- The loop over the addresses of an interface.
unfoldable pub add_addresses : List (Option Network) → NicInfo → NicInfo
add_addresses [] info = info
add_addresses (none ∷ rest) info = add_addresses rest info
add_addresses (some n ∷ rest) info =
    let broadcasts : List String = elim n.mask [
      | none ↦ info.broadcast
      | some m ↦ info.broadcast ++ dotted (broadcast n.ip m) ∷ []
    ] in
    add_addresses rest
      (record info { ipv4 = info.ipv4 ++ dotted n.ip ∷ []; broadcast = broadcasts })

unfoldable pub info_of : Interface → NicInfo
info_of i =
    let info : NicInfo = record {
      name = i.name;
      mac = mac_text i.hardware;
      ipv4 = [];
      broadcast = [];
    } in
    elim i.addrs [ err e ↦ info | ok addrs ↦ add_addresses addrs info ]

-- The loop over the interfaces.
unfoldable pub collect : List Interface → List NicInfo
collect [] = []
collect (i ∷ rest) =
    let later = collect rest in
    if i.loopback || nat_eq (length i.hardware) 0 || not i.up
    then later
    else if not ((info_of i).mac == "")
    then info_of i ∷ later
    else later

unfoldable pub collect_nics : Result (List Interface) → List NicInfo
collect_nics (err e) = []
collect_nics (ok interfaces) = collect interfaces

-- The loop of PrimaryMAC.
unfoldable pub first_mac : List Interface → String
first_mac [] = ""
first_mac (i ∷ rest) =
    let later = first_mac rest in
    if i.loopback || not (nat_eq (length i.hardware) 6) then later else mac_text i.hardware

unfoldable pub primary_mac : Result (List Interface) → String
primary_mac (err e) = ""
primary_mac (ok interfaces) = first_mac interfaces
