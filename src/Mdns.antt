-- ===== src/Mdns.antt =====
-- internal/mdns/mdns.go: the peers that the server hears of, and what a client announces. The library
-- zeroconf is an entry that it delivers and a registration that it takes. A lock makes each change of
-- the peers one step.
pub mod Announcement
use Prim.Native.Char.{Char, code}
use Prim.Native.String
use wakehub.Base.{
  ℕ, ◌+◌, ℤ, pos, String, Bool, true, false, not, List, [], ◌∷◌, ◌++◌, Option, none, some, map,
  if◌then◌else◌, ◌==◌, nat_eq, ltb, leb_ℤ, lookup, insert, filter_by,
}

pub record Peer : Type 0 where
  pub instance_name : String
  pub hostname : String
  pub key : String
  pub mac : String
  pub ips : List String
  pub port : ℤ
  pub text : List (String × String)
  pub seen_at : ℕ

-- A ServiceEntry of the library.
pub record ServiceEntry : Type 0 where
  pub instance_name : String
  pub host_name : String
  pub port : ℤ
  pub text : List String
  pub addr_ipv4 : List String
  pub addr_ipv6 : List String

abbrev pub prepend : Char → Option (String × String) → Option (String × String)
prepend c none = none
prepend c (some (k, v)) = some (String.◌∷◌ c k, v)

unfoldable pub split_kv : String → Option (String × String)
split_kv String.[] = none
split_kv (String.◌∷◌ c s) =
    let rest = split_kv s in if nat_eq (code c) b'=' then some ("", s) else prepend c rest

unfoldable pub first_non_empty : String → String → String
first_non_empty a b = if a == "" then b else a

-- The loop over the texts of an entry.
unfoldable pub read_text : List String → List (String × String) → List (String × String)
read_text [] txt = txt
read_text (t ∷ ts) txt = elim (split_kv t) [
  | none ↦ read_text ts txt
  | some (k, v) ↦ read_text ts (insert k v txt)
]

-- txt[key]
abbrev pub value_of : String → List (String × String) → String
value_of key txt = elim (lookup key txt) [ none ↦ "" | some v ↦ v ]

unfoldable pub peer_of : ℕ → ServiceEntry → Peer
peer_of now e =
    let txt = read_text e.text [] in
    record {
      instance_name = e.instance_name;
      hostname = first_non_empty (value_of "hostname" txt) e.host_name;
      key = value_of "key" txt;
      mac = value_of "mac" txt;
      ips = e.addr_ipv4 ++ e.addr_ipv6;
      port = e.port;
      text = txt;
      seen_at = now;
    }

-- The body of the loop over the entries of a scan.
unfoldable pub heard : ℕ → ServiceEntry → List (String × Peer) → List (String × Peer)
heard now e peers =
    let p = peer_of now e in insert (if p.key == "" then p.instance_name else p.key) p peers

-- The end of a scan.
unfoldable pub prune : ℕ → List (String × Peer) → List (String × Peer)
prune now peers = filter_by (λ entry. not (ltb (entry.1.seen_at + 120) now)) peers

unfoldable pub list : List (String × Peer) → List Peer
list peers = map (λ entry. entry.1) peers

-- What Publish registers: the instance, the port and the texts.
unfoldable pub publish : String → String → String → String → ℤ → String × ℤ × List String
publish instance_name key hostname mac port = (
  (if instance_name == "" then String.◌++◌ "wakehub-" key else instance_name),
  (if leb_ℤ port (pos 0) then pos 9 else port),
  String.◌++◌ "key=" key ∷ String.◌++◌ "hostname=" hostname ∷ String.◌++◌ "mac=" mac ∷ [],
)
