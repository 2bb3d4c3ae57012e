-- ===== src/Client/Version/Order.antt =====
-- internal/clientapp/update.go: isNewerVersion as an order of released versions.
use wakehub.Base.{ℕ, ◌≡◌, refl, sym, String, true, false, ◌==◌, eq_iff, Bool-cases, inl, inr, arith}
use wakehub.Client.Version.{is_newer_version, is_unreleased, trimmed, later, split_ver}

later_irrefl : (v : ℕ × ℕ × ℕ) → later v v ≡ false
unfolding later
later_irrefl (a, b, c) = ground arith

later_trans : (u v w : ℕ × ℕ × ℕ) → later u v ≡ true → later v w ≡ true → later u w ≡ true
unfolding later
later_trans (a, b, c) (d, e, f) (g, h, i) p q = ground arith

later_asym : (u v : ℕ × ℕ × ℕ) → later u v ≡ true → later v u ≡ false
later_asym u v p = elim (Bool-cases (later v u)) [
  | inr single ↦ single
  | inl both ↦
      let loop = later_trans u v u p both in let never = later_irrefl u in absurd (ground arith)
]

-- Between released versions the comparison is that of their three numbers.
is_newer_version_lem :
    (latest current : String)
    → is_unreleased (trimmed current) ≡ false
    → is_newer_version latest current
      ≡ later (split_ver (trimmed latest)) (split_ver (trimmed current))
unfolding is_newer_version
is_newer_version_lem latest current released =
    elim (Bool-cases (trimmed latest == trimmed current)) [
      | inr other ↦ rw (released, other) refl
      | inl same ↦
          let e = (eq_iff (trimmed latest) (trimmed current)).0 same in
          rw (released, same) (sym (rw e (later_irrefl (split_ver (trimmed current)))))
    ]

-- For versions that are neither empty nor "dev" nor "unknown" to be newer is a strict order: what is
-- newer than a newer version is newer, and no version is newer than one that is newer than it.
pub is_newer_version-order :
    (a b c : String)
    → is_unreleased (trimmed a) ≡ false
    → is_unreleased (trimmed b) ≡ false
    → is_unreleased (trimmed c) ≡ false
    → is_newer_version a b ≡ true
    → is_newer_version b c ≡ true
    → (is_newer_version a c ≡ true) × (is_newer_version b a ≡ false)
is_newer_version-order a b c p q r h k =
    let u = split_ver (trimmed a) in
    let v = split_ver (trimmed b) in
    let w = split_ver (trimmed c) in
    let ab = is_newer_version_lem a b q in
    let bc = is_newer_version_lem b c r in
    let ac = is_newer_version_lem a c r in
    let ba = is_newer_version_lem b a p in
    let trans = later_trans u v w (cc (ab, h)) (cc (bc, k)) in
    (cc (ac, trans), cc (ba, later_asym u v (cc (ab, h))))
