-- ===== src/Tests/Networks.antt =====
-- The interfaces of a small machine.
use wakehub.Base.{
  ◌^◌, ◌≡◌, refl, String, true, false, List, [], ◌∷◌, none, some, ok, err, filter_by, ◌||◌, ◌==◌,
  arith,
}
use wakehub.Interfaces.{Network, Interface, broadcast, default_mask}
use wakehub.Interfaces.Addresses.{number, last, mask_with_hosts, broadcast-last}
use wakehub.Wol.Broadcasts.{limited, has, local_ipv4_broadcasts}
use wakehub.Wol.Broadcasts.Coverage.{is_nodup, of_interface, local_ipv4_broadcasts-IsCovering}
use wakehub.Client.Nics.{collect_nics, primary_mac}
use wakehub.Client.Nics.Wakeable.{Told, WakesFirst, is_told, collect_nics-IsWakeable}

abbrev home_network : Network
home_network = record { ip = (192, 168, 1, 10); mask = some (255, 255, 255, 0) }

-- A mask of another length.
abbrev old_network : Network
old_network = record { ip = (10, 0, 0, 7); mask = none }

abbrev wired : Interface
wired = record {
  name = "eth0";
  hardware = 0xaa ∷ 0xbb ∷ 0xcc ∷ 0 ∷ 1 ∷ 2 ∷ [];
  up = true;
  loopback = false;
  addrs = ok (some home_network ∷ none ∷ some old_network ∷ []);
}

abbrev wireless : Interface
wireless = record wired {
  name = "wlan0";
  hardware = 0xaa ∷ 0xbb ∷ 0xcc ∷ 0 ∷ 1 ∷ 3 ∷ [];
  addrs = ok (some home_network ∷ []);
}

abbrev loop : Interface
loop = record wired {
  name = "lo";
  hardware = [];
  loopback = true;
  addrs = ok (some (record home_network { ip = (127, 0, 0, 1) }) ∷ []);
}

abbrev spare : Interface
spare = record wired { name = "eth1"; up = false; addrs = err "gone" }

abbrev all_interfaces : List Interface
all_interfaces = loop ∷ wired ∷ wireless ∷ spare ∷ []

abbrev their_broadcasts : List String
their_broadcasts = "192.168.1.255" ∷ "10.255.255.255" ∷ limited ∷ []

interfaces_tests :
    (local_ipv4_broadcasts (ok all_interfaces) ≡ ok their_broadcasts)
    × (primary_mac (ok all_interfaces) ≡ "aa:bb:cc:00:01:02")
    × (broadcast (172, 16, 5, 1) (mask_with_hosts 12) ≡ (172, 16, 15, 255))
unfolding local_ipv4_broadcasts primary_mac broadcast wakehub.Wol.Broadcasts.add_interfaces
    wakehub.Wol.Broadcasts.add_networks wakehub.Interfaces.dotted wakehub.Text.decimal default_mask
    wakehub.Client.Nics.first_mac wakehub.Interfaces.mac_text
interfaces_tests = (refl, refl, refl)

local_ipv4_broadcasts-IsCovering_example :
    (is_nodup their_broadcasts ≡ true)
    × ((s : String) → has s their_broadcasts ≡ (of_interface s all_interfaces || (limited == s)))
local_ipv4_broadcasts-IsCovering_example =
    local_ipv4_broadcasts-IsCovering all_interfaces their_broadcasts interfaces_tests.0

broadcast-last_example :
    number (broadcast (172, 16, 5, 1) (mask_with_hosts 12)) ≡ last (number (172, 16, 5, 1)) (2 ^ 12)
broadcast-last_example =
    broadcast-last 172 16 5 1 12 (omega arith) (omega arith) (omega arith) (omega arith)
      (omega arith)

collect_nics-IsWakeable_example :
    Told (collect_nics (ok all_interfaces)) (filter_by is_told all_interfaces)
    × WakesFirst all_interfaces (primary_mac (ok all_interfaces))
collect_nics-IsWakeable_example = collect_nics-IsWakeable all_interfaces (omega arith)
