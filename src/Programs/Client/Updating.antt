-- ===== src/Programs/Client/Updating.antt =====
-- cmd/client/main.go: the command `update` and the program that it replaces.
use Prim.Native.String.{◌++◌ as ◌<>◌}
use wakehub.Base.{
  ◌≡◌, ◌≢◌, refl, ◌∙◌, sym, subst, ℕ, String, Bool, true, false, List, [], ◌∷◌, Option, none, some,
  ok, ◌==◌, Bool-cases, inl, inr, arith,
}
use wakehub.Os.Files.{IsFiles}
use wakehub.Client.Install.{default_service_name}
use wakehub.Client.Update.{UpdateInfo, check_update, apply_update, located}
use wakehub.Client.Update.Replacing.{IsApart, IsKept}
use wakehub.Client.Update.Safety.{IsUpdated, apply_update-IsSafe}
use wakehub.Programs.Client.{
  Parsed, given, asks_help, misused, UpdateFlags, Flags, World, env_or, is_help, stopped_for,
  restarted, with_release, with_flags, apply_release, run_update,
}

module _ {W : Type 0} (flags : Flags) (world : World W) (content : W → String → Option String)
    (files : IsFiles world.os content) (exe : String) (apart_exe : IsApart world.net content exe)
    (apart_old : IsApart world.net content (exe <> ".old"))
    (apart_new : IsApart world.net content (exe <> ".new"))
    (stops : (at : String) (w : W)
      → content (world.platform.stop default_service_name w).0 at ≡ content w at)
    (starts : (at : String) (w : W)
      → content (world.platform.start default_service_name w).0 at ≡ content w at) where
  abbrev pub Kept : W → W → Type 0
  Kept = IsKept world.os world.net content files exe

  abbrev pub Updated : UpdateInfo → W → W → Type 0
  Updated = IsUpdated world.os world.net content files exe apart_exe apart_old apart_new

  content-stopped_for :
      (f : UpdateFlags) (at : String) (w : W)
      → content (stopped_for flags world f w) at ≡ content w at
  unfolding stopped_for
  content-stopped_for f at w = let same = stops at w in ground arith

  -- Before the service is stopped and after it is started the files are the same.
  Kept-of :
      (f : UpdateFlags) (w v : W)
      → Kept (stopped_for flags world f w) v
      → Kept w v × Kept w (world.platform.start default_service_name v).0
  Kept-of f w v kept =
      let before = content-stopped_for f exe w in
      elim kept [
        | inl h ↦ (inl (h ∙ before), inl (starts exe v ∙ h ∙ before))
        | inr h ↦ (inr (h ∙ before), inr (starts (exe <> ".old") v ∙ h ∙ before))
      ]

  Updated-of :
      (info : UpdateInfo) (s v : W)
      → Updated info s v
      → Updated info s (world.platform.start default_service_name v).0
  Updated-of info s v (dir, bin, text, made, found, read, now, saved) =
      (dir, bin, text, made, found, read, starts exe v ∙ now, starts (exe <> ".old") v ∙ saved)

  -- What the end of `apply` does to a file, and to the service.
  abbrev IsEnded : UpdateFlags → UpdateInfo → W → Bool → W × ℕ → Type 0
  IsEnded f info w on r =
      Kept w r.0
      × (r.1 ≢ 1 → Updated info (stopped_for flags world f w) r.0)
      × (on ≡ true → (v : W) × (r.0 ≡ (world.platform.start default_service_name v).0))

  restarted-IsEnded :
      (f : UpdateFlags) (info : UpdateInfo) (w : W) (on : Bool) (r : W × Option String)
      → (r.1 ≡ none → Updated info (stopped_for flags world f w) r.0)
      → Kept (stopped_for flags world f w) r.0
      → IsEnded f info w on (restarted flags world on r)
  unfolding restarted
  restarted-IsEnded f info w true (v, none) updated kept = (
    (Kept-of f w v kept).1,
    λ s. Updated-of info (stopped_for flags world f w) v (updated refl),
    λ t. (v, refl),
  )
  restarted-IsEnded f info w true (v, some e) updated kept =
      ((Kept-of f w v kept).1, λ s. absurd (s refl), λ t. (v, refl))
  restarted-IsEnded f info w false (v, none) updated kept =
      ((Kept-of f w v kept).0, λ s. updated refl, λ t. absurd (cc (t)))
  restarted-IsEnded f info w false (v, some e) updated kept =
      ((Kept-of f w v kept).0, λ s. absurd (s refl), λ t. absurd (cc (t)))

  apply_release-IsEnded :
      (f : UpdateFlags) (info : UpdateInfo) (w : W)
      → located world.os world.net ≡ ok exe
      → IsEnded f info w f.with_service (apply_release flags world f info w)
  unfolding apply_release
  apply_release-IsEnded f info w at =
      let stopped = stopped_for flags world f w in
      let safe =
        apply_update-IsSafe world.os world.net content files exe apart_exe apart_old apart_new info
          stopped at in
      restarted-IsEnded f info w f.with_service
        (apply_update world.os world.net (some info) stopped) safe.0 safe.1

  with_release-Kept :
      (verb : String) (f : UpdateFlags) (release : Option UpdateInfo) (w : W)
      → located world.os world.net ≡ ok exe
      → Kept w (with_release flags world verb f release w).0
  unfolding with_release
  with_release-Kept verb f none w at = inl refl
  with_release-Kept verb f (some info) w at =
      let ended = (apply_release-IsEnded f info w at).0 in
      elim (Bool-cases (verb == "check")) [
        | inl check ↦ rw (check, with_release) (inl refl)
        | inr other ↦ elim (Bool-cases (verb == "apply")) [
          | inr unknown ↦ rw (other, unknown, with_release) (inl refl)
          | inl apply ↦ elim (Bool-cases info.up_to_date) [
            | inl current ↦ rw (other, apply, current, with_release) (inl refl)
            | inr newer ↦
                let same : with_release flags world verb f (some info) w
                    ≡ apply_release flags world f info w =
                  rw (other, apply, newer, with_release) refl in
                subst (λ r. Kept w r.0) (sym same) ended
          ]
        ]
      ]

  with_flags-Kept :
      (verb : String) (parsed : Parsed UpdateFlags) (w : W)
      → located world.os world.net ≡ ok exe
      → Kept w (with_flags flags world verb parsed w).0
  unfolding with_flags
  with_flags-Kept verb asks_help w at = inl refl
  with_flags-Kept verb misused w at = inl refl
  with_flags-Kept verb (given f) w at = with_release-Kept verb f _ w at

  run_update-Kept :
      (arguments : List String) (w : W)
      → located world.os world.net ≡ ok exe
      → Kept w (run_update flags world arguments w).0
  unfolding run_update
  run_update-Kept [] w at = inl refl
  run_update-Kept (verb ∷ rest) w at = elim (Bool-cases (is_help verb)) [
    | inl help ↦ rw (help, run_update) (inl refl)
    | inr real ↦
        let same : run_update flags world (verb ∷ rest) w
            ≡ with_flags flags world verb
                (flags.update (env_or world.repo_variable "leganck/wakehub") rest) w =
          rw (real, run_update) refl in
        subst (λ r. Kept w r.0) (sym same) (with_flags-Kept verb _ w at)
  ]

  -- Whatever the arguments of `update`, the program is kept, under its name or with ".old". Where
  -- they are those of `apply` and the release is newer, a status other than 1 says that under its
  -- name is what the archive held; and with -service the service is started at the end, also where
  -- the update has failed. Starting and stopping it changes no file.
  pub run_update-IsSafe :
      (arguments : List String) (w : W)
      → located world.os world.net ≡ ok exe
      → Kept w (run_update flags world arguments w).0
        × ((rest : List String) (f : UpdateFlags) (info : UpdateInfo)
            → arguments ≡ "apply" ∷ rest
            → flags.update (env_or world.repo_variable "leganck/wakehub") rest ≡ given f
            → (check_update world.target world.get world.version f.repo).0 ≡ some info
            → info.up_to_date ≡ false
            → ((run_update flags world arguments w).1 ≢ 1
                → Updated info (stopped_for flags world f w) (run_update flags world arguments w).0)
              × (f.with_service ≡ true
                  → (v : W) × ((run_update flags world arguments w).0
                      ≡ (world.platform.start default_service_name v).0)))
  unfolding run_update with_flags with_release
  run_update-IsSafe arguments w at = (
    run_update-Kept arguments w at,
    λ rest f info is_apply parsed checked newer.
        let same : run_update flags world arguments w ≡ apply_release flags world f info w =
          rw (is_apply, parsed, checked, newer, with_flags, with_release, run_update) refl in
        let ended = apply_release-IsEnded f info w at in
        subst
          (λ r.
            (r.1 ≢ 1 → Updated info (stopped_for flags world f w) r.0)
            × (f.with_service ≡ true
                → (v : W) × (r.0 ≡ (world.platform.start default_service_name v).0)))
          (sym same) (ended.1, ended.2),
  )
