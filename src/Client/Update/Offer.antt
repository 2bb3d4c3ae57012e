-- ===== src/Client/Update/Offer.antt =====
-- internal/clientapp/update.go: what CheckUpdate answers for a release.
use Prim.Native.String.{◌++◌ as ◌<>◌}
use wakehub.Base.{
  ◌≡◌, ◌≢◌, ◌⊎◌, ◌↔◌, inl, inr, refl, sym, ap, subst, ◌∙◌, String, true, not, List, Option, none,
  some, Result, ok, ◌==◌, eq_iff, nat_eq, All, Bool-cases, arith,
}
use wakehub.Client.Version.{is_newer_version, without_v}
use wakehub.Client.Update.{
  Asset, Release, UpdateInfo, Target, Response, choose, release_info, judged, release_url,
  current_or_dev, with_asset, check_update,
}
use wakehub.Client.Update.Choice.{Suits, Any, Any-map, IsOffered, choose-IsOffered, choose-given}

check_update-judged :
    (t : Target) (get : String → String → Result Response) (given repo : String) (r : Response)
    (rel : Release)
    → get (release_url repo) ("wakehub-client/" <> current_or_dev given) ≡ ok r
    → r.status ≡ 200
    → r.body ≡ ok rel
    → check_update t get given repo
      ≡ judged t rel (choose t rel.assets (release_info (current_or_dev given) rel))
unfolding check_update
check_update-judged t get given repo r rel answered fine decoded =
    let found : nat_eq r.status 200 ≡ true = ground arith in
    rw (answered, found, decoded, check_update) refl

-- The choice changes nothing but the offer.
up_to_date-choose :
    (t : Target) (assets : List Asset) (info : UpdateInfo)
    → (choose t assets info).up_to_date ≡ info.up_to_date
unfolding choose with_asset
up_to_date-choose t assets info = ground arith

info-judged :
    (t : Target) (rel : Release) (info shown : UpdateInfo) (failed : Option String)
    → judged t rel info ≡ (some shown, failed)
    → (shown ≡ info) × ((failed ≡ none) ↔ ((info.up_to_date ≡ true) ⊎ (info.download_url ≢ "")))
unfolding judged
info-judged t rel info shown failed e = elim (Bool-cases (info.download_url == "")) [
  | inr given ↦
      let offered : info.download_url ≢ "" = λ u. ground (arith, eq_iff info.download_url "") in
      let plain : judged t rel info ≡ (some info, none) = rw (given, judged) refl in
      (cc (plain, e), (λ d. inr offered, λ s. cc (plain, e)))
  | inl empty ↦
      let without = (eq_iff info.download_url "").0 empty in
      elim (Bool-cases info.up_to_date) [
        | inl current ↦
            let plain : judged t rel info ≡ (some info, none) = rw (empty, current, judged) refl in
            (cc (plain, e), (λ d. inl current, λ s. cc (plain, e)))
        | inr newer ↦ (
          ground arith,
          (
            λ d. absurd (ground arith),
            λ s. elim s [
              | inl current ↦ cc (current, newer)
              | inr offered ↦ absurd (offered without)
            ],
          ),
        )
      ]
]

-- For a release of which every file has a URL, CheckUpdate reports whether its version is newer than
-- the program's; it offers a file exactly where one has the name of the system's archives or mentions
-- the client, the system and the architecture, and the offer is such a file; and it reports an error
-- exactly where the release is newer and no file suits.
pub check_update-IsChosen :
    (t : Target) (get : String → String → Result Response) (given repo : String) (r : Response)
    (rel : Release) (info : UpdateInfo) (failed : Option String)
    → get (release_url repo) ("wakehub-client/" <> current_or_dev given) ≡ ok r
    → r.status ≡ 200
    → r.body ≡ ok rel
    → All (λ a. a.download_url ≢ "") rel.assets
    → check_update t get given repo ≡ (some info, failed)
    → (info.up_to_date ≡ not (is_newer_version (without_v rel.tag_name) (current_or_dev given)))
      × ((info.download_url ≢ "") ↔ Any (Suits t) rel.assets)
      × (info.download_url ≢ "" → Any (IsOffered t info) rel.assets)
      × ((failed ≡ none) ↔ ((info.up_to_date ≡ true) ⊎ Any (Suits t) rel.assets))
check_update-IsChosen t get given repo r rel info failed answered fine decoded urls e =
    let current = current_or_dev given in
    let blank = release_info current rel in
    let chosen = choose t rel.assets blank in
    let answer = check_update-judged t get given repo r rel answered fine decoded in
    let (same, error) = info-judged t rel chosen info failed (sym answer ∙ e) in
    let dated = up_to_date-choose t rel.assets blank in
    let given_of = choose-given t rel.assets blank urls in
    let offered : info.download_url ≢ "" → Any (IsOffered t info) rel.assets = λ g.
      subst (λ i. Any (IsOffered t i) rel.assets) (sym same)
        (choose-IsOffered t rel.assets blank (subst (λ i. i.download_url ≢ "") same g) refl) in
    let suits : info.download_url ≢ "" → Any (Suits t) rel.assets =
      λ g. Any-map (IsOffered t info) (Suits t) rel.assets (λ a h. h.2) (offered g) in
    let current_of = ap (λ i. i.up_to_date) same in
    (
      current_of ∙ dated,
      (suits, λ s. subst (λ i. i.download_url ≢ "") (sym same) (given_of s)),
      offered,
      (
        λ d. elim (error.0 d) [
          | inl now ↦ inl (current_of ∙ now)
          | inr g ↦ inr (suits (subst (λ i. i.download_url ≢ "") (sym same) g))
        ],
        λ s. error.1 (elim s [ inl now ↦ inl (sym current_of ∙ now) | inr h ↦ inr (given_of h) ]),
      ),
    )
