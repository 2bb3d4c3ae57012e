-- ===== src/Client/Nics/Wakeable.antt =====
-- internal/clientapp/nics.go and internal/mdns/mdns.go: the hardware addresses that a client tells.
use Prim.Native.Char.{Char}
use wakehub.Base.{
  ℕ, ◌<◌, ◌≡◌, refl, ◌∙◌, sym, subst, ap, String, Bool, true, false, not, ◌&&◌, List, [], ◌∷◌, none,
  some, Option, ◌||◌, Result-cases, Bool-cases, filter_by, if◌then◌else◌, inl, inr, ok, length,
  replicate, nat_eq, arith, All, ◌==◌, eq_iff,
}
use wakehub.Config.{NicInfo}
use wakehub.Interfaces.{Interface, Network, mac_text}
use wakehub.Wol.{new_magic_packet}
use wakehub.Client.Nics.{info_of, collect, collect_nics, first_mac, primary_mac, add_addresses}
use wakehub.Wol.Hardware.{new_magic_packet-mac_text}

add_addresses-keeps :
    (addrs : List (Option Network)) (info : NicInfo)
    → ((add_addresses addrs info).name ≡ info.name) × ((add_addresses addrs info).mac ≡ info.mac)
unfolding add_addresses
add_addresses-keeps [] info = (refl, refl)
add_addresses-keeps (none ∷ rest) info = add_addresses-keeps rest info
add_addresses-keeps (some n ∷ rest) info = add_addresses-keeps rest _

info_of-keeps :
    (i : Interface) → ((info_of i).name ≡ i.name) × ((info_of i).mac ≡ mac_text i.hardware)
unfolding info_of
info_of-keeps i = elim (Result-cases i.addrs) [
  | inr (e, failed) ↦ rw failed (refl, refl)
  | inl (addrs, told) ↦ rw told (add_addresses-keeps addrs _)
]

-- The text wakes the interface: its packet has the interface's six bytes.
abbrev pub Wakes : String → Interface → Type 0
Wakes mac i =
    length i.hardware ≡ 6
    → new_magic_packet mac
      ≡ ok (record { header = replicate 6 0xff; payload = replicate 16 i.hardware })

-- An interface that CollectNICs tells.
abbrev pub is_told : Interface → Bool
is_told i = i.up && not i.loopback && not (nat_eq (length i.hardware) 0)

-- Each entry has the name of its interface and a text that wakes it.
abbrev pub Told : List NicInfo → List Interface → Type 0
Told [] [] = Unit
Told (nic ∷ nics) (i ∷ rest) = (nic.name ≡ i.name) × Wakes nic.mac i × Told nics rest
Told _ _ = ⊥

cons-eq_empty : (c : Char) (s : String) → (String.◌∷◌ c s == "") ≡ false
cons-eq_empty c s = elim (Bool-cases (String.◌∷◌ c s == "")) [
  | inr different ↦ different
  | inl same ↦ let empty : String.◌∷◌ c s ≡ "" = (eq_iff (String.◌∷◌ c s) "").0 same in cc
]

mac_text-some : (hw : List ℕ) → nat_eq (length hw) 0 ≡ false → (mac_text hw == "") ≡ false
unfolding mac_text
mac_text-some [] some_byte = ground arith
mac_text-some (b ∷ []) some_byte = cons-eq_empty _ _
mac_text-some (b ∷ c ∷ hw) some_byte = cons-eq_empty _ _

collect-cons :
    (i : Interface) (rest : List Interface)
    → collect (i ∷ rest) ≡ (if is_told i then info_of i ∷ collect rest else collect rest)
unfolding collect
collect-cons i rest =
    let (named, texted) = info_of-keeps i in
    let shown : nat_eq (length i.hardware) 0 ≡ false → ((info_of i).mac == "") ≡ false =
      λ some_byte. rw texted (mac_text-some i.hardware some_byte) in
    ground arith

-- One entry more on both sides, or on none.
Told-cons :
    (b : Bool) (nic : NicInfo) (nics : List NicInfo) (i : Interface) (rest : List Interface)
    → nic.name ≡ i.name
    → Wakes nic.mac i
    → Told nics rest
    → Told (if b then nic ∷ nics else nics) (elim b [ true ↦ i ∷ rest | false ↦ rest ])
Told-cons true nic nics i rest named wakes later = (named, wakes, later)
Told-cons false nic nics i rest named wakes later = later

collect-Told :
    (interfaces : List Interface)
    → All (λ i. All (λ b. b < 256) i.hardware) interfaces
    → Told (collect interfaces) (filter_by is_told interfaces)
unfolding collect
collect-Told [] bytes = tt
collect-Told (i ∷ rest) (byte, bytes) =
    let (named, texted) = info_of-keeps i in
    subst (λ nics. Told nics (filter_by is_told (i ∷ rest))) (sym (collect-cons i rest))
      (Told-cons (is_told i) (info_of i) (collect rest) i (filter_by is_told rest) named
        (λ six. ap new_magic_packet texted ∙ new_magic_packet-mac_text i.hardware (six, byte))
        (collect-Told rest bytes))

-- The text wakes the first interface that is no loopback and has six bytes.
abbrev pub WakesFirst : List Interface → String → Type 0
WakesFirst [] mac = mac ≡ ""
WakesFirst (i ∷ rest) mac = elim (i.loopback || not (nat_eq (length i.hardware) 6)) [
  | true ↦ WakesFirst rest mac
  | false ↦ Wakes mac i
]

WakesFirst-choice :
    (b : Bool) (i : Interface) (rest : List Interface) (here later : String)
    → (b ≡ false → Wakes here i)
    → WakesFirst rest later
    → elim b as (λ _. Type 0) [
      | true ↦ WakesFirst rest (if b then later else here)
      | false ↦ Wakes (if b then later else here) i
    ]
WakesFirst-choice true i rest here later wakes first = first
WakesFirst-choice false i rest here later wakes first = wakes refl

first_mac-WakesFirst :
    (interfaces : List Interface)
    → All (λ i. All (λ b. b < 256) i.hardware) interfaces
    → WakesFirst interfaces (first_mac interfaces)
unfolding first_mac
first_mac-WakesFirst [] bytes = refl
first_mac-WakesFirst (i ∷ rest) (byte, bytes) =
    WakesFirst-choice (i.loopback || not (nat_eq (length i.hardware) 6)) i rest
      (mac_text i.hardware) (first_mac rest)
      (λ chosen six. new_magic_packet-mac_text i.hardware (six, byte))
      (first_mac-WakesFirst rest bytes)

-- What a client tells of its interfaces can wake them. CollectNICs lists, in their order, the
-- interfaces that are up, are no loopback and have a hardware address; each entry has the
-- interface's name, and where the address has six bytes NewMagicPacket makes of the entry's text
-- the packet with these bytes. It does so too of what PrimaryMAC returns and the first interface
-- that is no loopback and has six bytes; PrimaryMAC returns the empty text where there is none.
pub collect_nics-IsWakeable :
    (interfaces : List Interface)
    → All (λ i. All (λ b. b < 256) i.hardware) interfaces
    → Told (collect_nics (ok interfaces)) (filter_by is_told interfaces)
      × WakesFirst interfaces (primary_mac (ok interfaces))
unfolding collect_nics primary_mac
collect_nics-IsWakeable interfaces bytes =
    (collect-Told interfaces bytes, first_mac-WakesFirst interfaces bytes)
