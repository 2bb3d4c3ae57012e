-- ===== src/Mdns/Announcement.antt =====
-- internal/mdns/mdns.go: what the server hears of a client that has announced itself.
use Prim.Native.Char.{code}
use Prim.Native.String
use text.Mathlib.TextLemmas.{cons-append, nil-append, append_assoc}
use wakehub.Base.{
  ℕ, ℤ, ◌≡◌, refl, ap, ◌∙◌, String, true, not, [], ◌∷◌, some, nat_eq, lookup, insert, Bool-cases,
  inl, inr, arith,
}
use wakehub.Text.{all_chars}
use wakehub.Mdns.{ServiceEntry, split_kv, first_non_empty, read_text, value_of, peer_of, publish}

-- A text is split at its first "=".
pub split_kv-append :
    (k v : String)
    → all_chars (λ n. not (nat_eq n b'=')) k ≡ true
    → split_kv (String.◌++◌ k (String.◌++◌ "=" v)) ≡ some (k, v)
unfolding split_kv all_chars
split_kv-append String.[] v h =
    ap split_kv (nil-append (String.◌++◌ "=" v) ∙ cons-append _ "" v)
    ∙ ap (λ t. some ("", t)) (nil-append v)
split_kv-append (String.◌∷◌ c k) v h =
    let rest = split_kv-append k v (ground arith) in
    elim (Bool-cases (nat_eq (code c) b'=')) [
      | inl is_equals ↦ absurd (ground arith)
      | inr other ↦ ap split_kv (cons-append c k (String.◌++◌ "=" v)) ∙ rw (other, rest) refl
    ]

-- The texts of an announcement, read.
read_text-publish :
    (key hostname mac : String)
    → read_text
        (String.◌++◌ "key=" key ∷ String.◌++◌ "hostname=" hostname ∷ String.◌++◌ "mac=" mac ∷ [])
        []
      ≡ ("key", key) ∷ ("hostname", hostname) ∷ ("mac", mac) ∷ []
unfolding read_text insert all_chars
read_text-publish key hostname mac =
    let k : split_kv (String.◌++◌ "key=" key) ≡ some ("key", key) =
      ap split_kv (append_assoc "key" "=" key) ∙ split_kv-append "key" key refl in
    let h : split_kv (String.◌++◌ "hostname=" hostname) ≡ some ("hostname", hostname) =
      ap split_kv (append_assoc "hostname" "=" hostname)
      ∙ split_kv-append "hostname" hostname refl in
    let m : split_kv (String.◌++◌ "mac=" mac) ≡ some ("mac", mac) =
      ap split_kv (append_assoc "mac" "=" mac) ∙ split_kv-append "mac" mac refl in
    simp (k, h, m, read_text) refl

-- Whoever announces itself with a key is heard under this key, with the host name and the address
-- that it gave; without a host name, with that of the entry.
pub heard-publish :
    (now : ℕ) (given key hostname mac : String) (port : ℤ) (e : ServiceEntry)
    → e.text ≡ (publish given key hostname mac port).2
    → ((peer_of now e).key ≡ key)
      × ((peer_of now e).hostname ≡ first_non_empty hostname e.host_name)
      × ((peer_of now e).mac ≡ mac)
unfolding peer_of publish lookup
heard-publish now given key hostname mac port e same =
    let txt = ap (λ t. read_text t []) same ∙ read_text-publish key hostname mac in
    (
      ap (value_of "key") txt,
      ap (λ t. first_non_empty (value_of "hostname" t) e.host_name) txt,
      ap (value_of "mac") txt,
    )
