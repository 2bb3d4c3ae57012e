-- ===== src/Programs/Client/Commands.antt =====
-- cmd/client/main.go: the commands that stand for others, and those that change nothing.
use wakehub.Base.{
  ◌≡◌, ◌≢◌, refl, ap, String, true, false, List, ◌∷◌, ◌==◌, eq_iff, Bool-cases, inl, inr, arith,
}
use wakehub.Text.{has_prefix}
use wakehub.Programs.Client.{Flags, World, is_help, is_version, main}

-- A text with "-" in front is none of these.
is_dashed-ne :
    (cmd word : String)
    → has_prefix cmd "-" ≡ true
    → has_prefix word "-" ≡ false
    → (cmd == word) ≡ false
is_dashed-ne cmd word dashed plain = elim (Bool-cases (cmd == word)) [
  | inr other ↦ other
  | inl same ↦
      let e = ap (λ s. has_prefix s "-") ((eq_iff cmd word).0 same) in absurd (ground arith)
]

module _ {W : Type 0} (flags : Flags) (world : World W) where
  -- "install", "uninstall", "start", "stop" and "status" are short for the same words after
  -- "service". What begins with "-" and asks for neither the help nor the version, that is, is none
  -- of "-h", "--help", "-v", "-version" and "--version", is taken as flags of `run`.
  pub main-aliases :
      (cmd : String) (rest : List String) (w : W)
      → has_prefix cmd "-" ≡ true
      → cmd ≢ "-h"
      → cmd ≢ "--help"
      → cmd ≢ "-v"
      → cmd ≢ "-version"
      → cmd ≢ "--version"
      → (main flags world ("install" ∷ rest) w ≡ main flags world ("service" ∷ "install" ∷ rest) w)
        × (main flags world ("uninstall" ∷ rest) w
            ≡ main flags world ("service" ∷ "uninstall" ∷ rest) w)
        × (main flags world ("start" ∷ rest) w ≡ main flags world ("service" ∷ "start" ∷ rest) w)
        × (main flags world ("stop" ∷ rest) w ≡ main flags world ("service" ∷ "stop" ∷ rest) w)
        × (main flags world ("status" ∷ rest) w ≡ main flags world ("service" ∷ "status" ∷ rest) w)
        × (main flags world (cmd ∷ rest) w ≡ main flags world ("run" ∷ cmd ∷ rest) w)
  unfolding main has_prefix
  main-aliases cmd rest w dashed h help v version long_version =
      let n₁ = is_dashed-ne cmd "run" dashed refl in
      let n₂ = is_dashed-ne cmd "service" dashed refl in
      let n₃ = is_dashed-ne cmd "update" dashed refl in
      let n₄ = is_dashed-ne cmd "install" dashed refl in
      let n₅ = is_dashed-ne cmd "uninstall" dashed refl in
      let n₆ = is_dashed-ne cmd "start" dashed refl in
      let n₇ = is_dashed-ne cmd "stop" dashed refl in
      let n₈ = is_dashed-ne cmd "status" dashed refl in
      let n₉ = is_dashed-ne cmd "help" dashed refl in
      let m = is_dashed-ne cmd "version" dashed refl in
      let no_help : is_help cmd ≡ false = ground (arith, eq_iff cmd "-h", eq_iff cmd "--help") in
      let no_version : is_version cmd ≡ false =
        ground (arith, eq_iff cmd "-v", eq_iff cmd "-version", eq_iff cmd "--version") in
      (
        refl,
        refl,
        refl,
        refl,
        refl,
        rw (no_help, no_version, n₁, n₂, n₃, n₄, n₅, n₆, n₇, n₈, dashed, main) refl,
      )
