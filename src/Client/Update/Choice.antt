-- ===== src/Client/Update/Choice.antt =====
-- internal/clientapp/update.go: the file of a release that CheckUpdate offers.
use wakehub.Base.{
  ◌≡◌, ◌≢◌, ◌⊎◌, inl, inr, refl, sym, ap, subst, ◌∙◌, Bool, true, false, List, [], ◌∷◌, none, some,
  ◌==◌, eq_iff, All, Bool-cases, Option-cases, arith,
}
use wakehub.Client.Update.{
  Asset, UpdateInfo, Target, is_named, mentions, first_of, with_asset, choose,
}

-- The file has the name of the system's archives, or mentions the client and the system.
abbrev pub Suits : Target → Asset → Type 0
Suits t a = (is_named t a ≡ true) ⊎ (mentions t a ≡ true)

abbrev pub Any : (Asset → Type 0) → List Asset → Type 0
Any P [] = ⊥
Any P (a ∷ rest) = P a ⊎ Any P rest

-- The offer is a file of the list that suits.
abbrev pub IsOffered : Target → UpdateInfo → Asset → Type 0
IsOffered t info a = (a.name ≡ info.asset_name) × (a.download_url ≡ info.download_url) × Suits t a

abbrev IsFirst : (Asset → Bool) → List Asset → Asset → Type 0
IsFirst test assets found = Any (λ a. (a ≡ found) × (test a ≡ true)) assets

first_of-some :
    (test : Asset → Bool) (assets : List Asset) (found : Asset)
    → first_of test assets ≡ some found
    → IsFirst test assets found
unfolding first_of
first_of-some test [] found e = absurd (cc (e))
first_of-some test (a ∷ rest) found e = elim (Bool-cases (test a)) [
  | inl passes ↦ inl (ground arith, passes)
  | inr fails ↦ inr (first_of-some test rest found (ground arith))
]

first_of-none :
    (test : Asset → Bool) (assets : List Asset)
    → first_of test assets ≡ none
    → Any (λ a. test a ≡ true) assets
    → ⊥
unfolding first_of
first_of-none test [] e h = elim h [ ]
first_of-none test (a ∷ rest) e (inl passes) = ground arith
first_of-none test (a ∷ rest) e (inr later) = first_of-none test rest (ground arith) later

pub Any-map :
    (P Q : Asset → Type 0) (assets : List Asset)
    → ((a : Asset) → P a → Q a)
    → Any P assets
    → Any Q assets
Any-map P Q [] f h = elim h [ ]
Any-map P Q (a ∷ rest) f (inl h) = inl (f a h)
Any-map P Q (a ∷ rest) f (inr h) = inr (Any-map P Q rest f h)

Any-split :
    (P Q : Asset → Type 0) (assets : List Asset)
    → Any (λ a. P a ⊎ Q a) assets
    → Any P assets ⊎ Any Q assets
Any-split P Q [] h = elim h [ ]
Any-split P Q (a ∷ rest) (inl (inl h)) = inl (inl h)
Any-split P Q (a ∷ rest) (inl (inr h)) = inr (inl h)
Any-split P Q (a ∷ rest) (inr later) = elim (Any-split P Q rest later) [
  | inl h ↦ inl (inr h)
  | inr h ↦ inr (inr h)
]

-- What holds of all files holds of the one that is found.
first_of-All :
    (P : Asset → Type 0) (test : Asset → Bool) (assets : List Asset) (found : Asset)
    → first_of test assets ≡ some found
    → All P assets
    → P found
unfolding first_of
first_of-All P test [] found e h = absurd (cc (e))
first_of-All P test (a ∷ rest) found e h = elim (Bool-cases (test a)) [
  | inl passes ↦ let same : a ≡ found = ground arith in subst P same h.0
  | inr fails ↦ first_of-All P test rest found (ground arith) h.1
]

IsOffered-first :
    (t : Target) (test : Asset → Bool) (assets : List Asset) (info : UpdateInfo) (found : Asset)
    → ((a : Asset) → test a ≡ true → Suits t a)
    → first_of test assets ≡ some found
    → Any (IsOffered t (with_asset (some found) info)) assets
unfolding with_asset
IsOffered-first t test assets info found suits e =
    Any-map (λ a. (a ≡ found) × (test a ≡ true)) (IsOffered t (with_asset (some found) info)) assets
      (λ a h. (ap (λ x. x.name) h.0, ap (λ x. x.download_url) h.0, suits a h.1))
      (first_of-some test assets found e)

module _ (t : Target) (assets : List Asset) (info : UpdateInfo) where
  -- The second loop chooses where the first has left no offer.
  choose_again :
      (named : UpdateInfo)
      → with_asset (first_of (is_named t) assets) info ≡ named
      → (named.download_url == "") ≡ true
      → choose t assets info ≡ with_asset (first_of (mentions t) assets) named
  unfolding choose
  choose_again named e empty = rw (e, empty, choose) refl

  choose_once :
      (named : UpdateInfo)
      → with_asset (first_of (is_named t) assets) info ≡ named
      → (named.download_url == "") ≡ false
      → choose t assets info ≡ named
  unfolding choose
  choose_once named e given = rw (e, given, choose) refl

  IsOffered-again :
      (named : UpdateInfo)
      → (named.download_url == "") ≡ true
      → (with_asset (first_of (mentions t) assets) named).download_url ≢ ""
      → Any (IsOffered t (with_asset (first_of (mentions t) assets) named)) assets
  unfolding with_asset
  IsOffered-again named empty given = elim (Option-cases (first_of (mentions t) assets)) [
    | inl without ↦ absurd (given (rw without ((eq_iff named.download_url "").0 empty)))
    | inr (b, e) ↦ rw e (IsOffered-first t (mentions t) assets named b (λ a m. inr m) e)
  ]

  IsOffered-once :
      ((with_asset (first_of (is_named t) assets) info).download_url == "") ≡ false
      → info.download_url ≡ ""
      → Any (IsOffered t (with_asset (first_of (is_named t) assets) info)) assets
  unfolding with_asset
  IsOffered-once closed empty = elim (Option-cases (first_of (is_named t) assets)) [
    | inl without ↦ absurd (
        ground (
          arith,
          ap (λ o. (with_asset o info).download_url == "") without,
          eq_iff info.download_url "",
        ))
    | inr (a, e) ↦ rw e (IsOffered-first t (is_named t) assets info a (λ x n. inl n) e)
  ]

  -- What is chosen is offered.
  pub choose-IsOffered :
      (choose t assets info).download_url ≢ ""
      → info.download_url ≡ ""
      → Any (IsOffered t (choose t assets info)) assets
  choose-IsOffered given empty =
      let named = with_asset (first_of (is_named t) assets) info in
      elim (Bool-cases (named.download_url == "")) [
        | inl left ↦
            let again = choose_again named refl left in
            subst (λ o. Any (IsOffered t o) assets) (sym again)
              (IsOffered-again named left (subst (λ o. o.download_url ≢ "") again given))
        | inr closed ↦
            subst (λ o. Any (IsOffered t o) assets) (sym (choose_once named refl closed))
              (IsOffered-once closed empty)
      ]

  given_again :
      (named : UpdateInfo)
      → with_asset (first_of (is_named t) assets) info ≡ named
      → (named.download_url == "") ≡ true
      → All (λ a. a.download_url ≢ "") assets
      → Any (Suits t) assets
      → (with_asset (first_of (mentions t) assets) named).download_url ≢ ""
  unfolding with_asset
  given_again named made left urls suiting = elim (Option-cases (first_of (is_named t) assets)) [
    | inr (a, e) ↦
        let url = first_of-All (λ x. x.download_url ≢ "") (is_named t) assets a e urls in
        let same : a.download_url ≡ "" =
          ap (λ o. (with_asset o info).download_url) (sym e)
          ∙ ap (λ o. o.download_url) made
          ∙ (eq_iff named.download_url "").0 left in
        absurd (url same)
    | inl without ↦ elim (Option-cases (first_of (mentions t) assets)) [
      | inr (b, e) ↦ rw e (first_of-All (λ x. x.download_url ≢ "") (mentions t) assets b e urls)
      | inl neither ↦
          elim (Any-split (λ a. is_named t a ≡ true) (λ a. mentions t a ≡ true) assets suiting) [
            | inl h ↦ absurd (first_of-none (is_named t) assets without h)
            | inr h ↦ absurd (first_of-none (mentions t) assets neither h)
          ]
    ]
  ]

  -- A file that suits is not passed over, where all have a URL.
  pub choose-given :
      All (λ a. a.download_url ≢ "") assets
      → Any (Suits t) assets
      → (choose t assets info).download_url ≢ ""
  choose-given urls suiting =
      let named = with_asset (first_of (is_named t) assets) info in
      elim (Bool-cases (named.download_url == "")) [
        | inr closed ↦
            subst (λ o. o.download_url ≢ "") (sym (choose_once named refl closed))
              (λ e. ground (arith, eq_iff named.download_url ""))
        | inl left ↦
            subst (λ o. o.download_url ≢ "") (sym (choose_again named refl left))
              (given_again named refl left urls suiting)
      ]
