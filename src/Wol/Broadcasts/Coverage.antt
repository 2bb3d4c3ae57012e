-- ===== src/Wol/Broadcasts/Coverage.antt =====
-- internal/wol/wol.go, LocalIPv4Broadcasts: which addresses are listed.
use wakehub.Base.{
  ◌≡◌, refl, ap, subst, ◌∙◌, String, Bool, true, false, not, ◌||◌, ◌&&◌, List, [], ◌∷◌, ◌++◌,
  Option, none, some, ok, err, if◌then◌else◌, ◌==◌, eq_iff, Bool-cases, Result-cases, inl, inr,
  arith,
}
use wakehub.Interfaces.{Interface, Network}
use wakehub.Wol.Broadcasts.{
  limited, has, network_text, add_networks, add_interfaces, local_ipv4_broadcasts,
}

or_assoc : (a b c : Bool) → ((a || b) || c) ≡ (a || (b || c))
or_assoc true b c = refl
or_assoc false b c = refl

-- No text stands twice in the list.
abbrev pub is_nodup : List String → Bool
is_nodup [] = true
is_nodup (t ∷ rest) = not (has t rest) && is_nodup rest

-- The text is the broadcast address of one of the networks.
abbrev pub of_network : String → List (Option Network) → Bool
of_network s [] = false
of_network s (none ∷ rest) = of_network s rest
of_network s (some n ∷ rest) = network_text n == s || of_network s rest

-- It is that of a network of an interface that is up and is no loopback.
abbrev pub of_interface : String → List Interface → Bool
of_interface s [] = false
of_interface s (i ∷ rest) =
    (i.up && not i.loopback && elim i.addrs [ err e ↦ false | ok addrs ↦ of_network s addrs ])
    || of_interface s rest

has-append : (s : String) (out more : List String) → has s (out ++ more) ≡ (has s out || has s more)
has-append s [] more = refl
has-append s (t ∷ out) more = let rest = has-append s out more in ground arith

is_nodup-append :
    (s : String) (out : List String)
    → has s out ≡ false
    → is_nodup out ≡ true
    → is_nodup (out ++ s ∷ []) ≡ true
is_nodup-append s [] absent unique = refl
is_nodup-append s (t ∷ out) absent unique =
    let rest = is_nodup-append s out in
    let elsewhere = has-append t out (s ∷ []) in
    ground (arith, rest (ground arith) (ground arith), eq_iff t s, eq_iff s t)

-- The list with one more address, if it is new.
abbrev with_new : String → List String → List String
with_new s out = if has s out then out else out ++ s ∷ []

has_seen :
    (s at : String) (out : List String) → has s out ≡ true → has at out ≡ (has at out || (s == at))
has_seen s at out seen = elim (Bool-cases (s == at)) [
  | inr other ↦ ground arith
  | inl same ↦
      let there : has at out ≡ true = subst (λ t. has t out ≡ true) ((eq_iff s at).0 same) seen in
      ground arith
]

has-with_new :
    (s at : String) (out : List String) → has at (with_new s out) ≡ (has at out || (s == at))
has-with_new s at out = elim (Bool-cases (has s out)) [
  | inl seen ↦ rw seen (has_seen s at out seen)
  | inr new ↦ rw new (has-append at out (s ∷ []) ∙ ground arith)
]

is_nodup-with_new :
    (s : String) (out : List String) → is_nodup out ≡ true → is_nodup (with_new s out) ≡ true
is_nodup-with_new s out unique = elim (Bool-cases (has s out)) [
  | inl seen ↦ rw seen unique
  | inr new ↦ rw new (is_nodup-append s out new unique)
]

has-add_networks :
    (s : String) (addrs : List (Option Network)) (out : List String)
    → has s (add_networks addrs out) ≡ (has s out || of_network s addrs)
unfolding add_networks
has-add_networks s [] out = ground arith
has-add_networks s (none ∷ rest) out = has-add_networks s rest out
has-add_networks s (some n ∷ rest) out =
    let here = has-with_new (network_text n) s out in
    let later = has-add_networks s rest (with_new (network_text n) out) in
    later ∙ ap (λ b. b || of_network s rest) here ∙ or_assoc (has s out) (network_text n == s) _

is_nodup-add_networks :
    (addrs : List (Option Network)) (out : List String)
    → is_nodup out ≡ true
    → is_nodup (add_networks addrs out) ≡ true
unfolding add_networks
is_nodup-add_networks [] out unique = unique
is_nodup-add_networks (none ∷ rest) out unique = is_nodup-add_networks rest out unique
is_nodup-add_networks (some n ∷ rest) out unique =
    is_nodup-add_networks rest (with_new (network_text n) out)
      (is_nodup-with_new (network_text n) out unique)

-- The list with what one interface adds.
added : Interface → List String → List String
added i out =
    if not i.up || i.loopback
    then out
    else elim i.addrs [ err e ↦ out | ok addrs ↦ add_networks addrs out ]

has-added :
    (s : String) (i : Interface) (out : List String)
    → has s (added i out) ≡ (
        has s out
        || (i.up
            && not i.loopback
            && elim i.addrs [ err e ↦ false | ok addrs ↦ of_network s addrs ]))
unfolding added
has-added s i out = elim (Result-cases i.addrs) [
  | inr (e, failed) ↦ ground arith
  | inl (addrs, e) ↦ let some_of = has-add_networks s addrs out in ground arith
]

is_nodup-added :
    (i : Interface) (out : List String) → is_nodup out ≡ true → is_nodup (added i out) ≡ true
unfolding added
is_nodup-added i out unique = elim (Result-cases i.addrs) [
  | inr (e, failed) ↦ ground arith
  | inl (addrs, e) ↦ let later = is_nodup-add_networks addrs out unique in ground arith
]

has-add_interfaces :
    (s : String) (interfaces : List Interface) (out : List String)
    → has s (add_interfaces interfaces out) ≡ (has s out || of_interface s interfaces)
unfolding add_interfaces added
has-add_interfaces s [] out = ground arith
has-add_interfaces s (i ∷ rest) out =
    has-add_interfaces s rest (added i out)
    ∙ ap (λ b. b || of_interface s rest) (has-added s i out)
    ∙ or_assoc (has s out) _ (of_interface s rest)

is_nodup-add_interfaces :
    (interfaces : List Interface) (out : List String)
    → is_nodup out ≡ true
    → is_nodup (add_interfaces interfaces out) ≡ true
unfolding add_interfaces added
is_nodup-add_interfaces [] out unique = unique
is_nodup-add_interfaces (i ∷ rest) out unique =
    is_nodup-add_interfaces rest (added i out) (is_nodup-added i out unique)

-- LocalIPv4Broadcasts lists no address twice, and lists the limited broadcast and the broadcast
-- addresses of the networks of the interfaces that are up, can tell their addresses and are no
-- loopback, and nothing else.
pub local_ipv4_broadcasts-IsCovering :
    (interfaces : List Interface) (out : List String)
    → local_ipv4_broadcasts (ok interfaces) ≡ ok out
    → (is_nodup out ≡ true)
      × ((s : String) → has s out ≡ (of_interface s interfaces || (limited == s)))
unfolding local_ipv4_broadcasts
local_ipv4_broadcasts-IsCovering interfaces out e =
    let found = add_interfaces interfaces [] in
    let same : with_new limited found ≡ out = ground arith in
    (
      subst (λ l. is_nodup l ≡ true) same
          (is_nodup-with_new limited found (is_nodup-add_interfaces interfaces [] refl)),
      λ s.
          subst (λ l. has s l ≡ (of_interface s interfaces || (limited == s))) same
            (has-with_new limited s found
              ∙ ap (λ b. b || (limited == s)) (has-add_interfaces s interfaces [])),
    )
