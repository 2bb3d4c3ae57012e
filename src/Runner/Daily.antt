-- ===== src/Runner/Daily.antt =====
-- internal/schedule/runner.go: the days of the last runs that a tick sets.
use mathlib.Core.List.{append_assoc}
use wakehub.Base.{
  ℕ, ◌+◌, ◌≡◌, refl, sym, subst, ◌∙◌, ap, String, Bool, false, List, [], ◌∷◌, ◌++◌, some,
  if◌then◌else◌, ◌==◌, eq_iff, eq_refl, arith, map, Bool-cases, inl, inr,
}
use wakehub.Config.{Schedule}
use wakehub.Config.Table.{find, replace, IsFresh, HasUniqueIds}
use wakehub.Config.Store.{Store, Env, save_locked, schedule_id}
use wakehub.Config.Store.Schedules.{list_schedules, mark_schedule_run}
use wakehub.Runner.{Runner, Clock, is_due, fire, fire_all, tick}

module _ {A : Type 0} (key : A → String) where
  IsFresh-middle :
      (xs : List A) (y : A) (ys : List A) → HasUniqueIds key (xs ++ y ∷ ys) → IsFresh key (key y) xs
  IsFresh-middle [] y ys h = tt
  IsFresh-middle (x ∷ xs) y ys h = (before xs h.0, IsFresh-middle xs y ys h.1)
    where
      before : (zs : List A) → IsFresh key (key x) (zs ++ y ∷ ys) → (key x == key y) ≡ false
      before [] g = ground (arith, g.0, eq_iff (key x) (key y), eq_iff (key y) (key x))
      before (z ∷ zs) g = before zs g.1

  -- The entry in the middle of a table is found, and the one that replaces it takes its place.
  find-middle :
      (xs : List A) (y : A) (ys : List A)
      → IsFresh key (key y) xs
      → find key (key y) (xs ++ y ∷ ys) ≡ some y
  unfolding find
  find-middle [] y ys h = rw (eq_refl (key y)) refl
  find-middle (x ∷ xs) y ys h = ground (arith, find-middle xs y ys h.1)

  replace-middle :
      (xs : List A) (y y' : A) (ys : List A)
      → IsFresh key (key y) xs
      → key y' ≡ key y
      → replace key y' (xs ++ y ∷ ys) ≡ xs ++ y' ∷ ys
  unfolding replace
  replace-middle [] y y' ys h e = ground (arith, eq_iff (key y) (key y'))
  replace-middle (x ∷ xs) y y' ys h e = ground (arith, replace-middle xs y y' ys h.1 e)

  HasUniqueIds-middle :
      (xs : List A) (y y' : A) (ys : List A)
      → key y' ≡ key y
      → HasUniqueIds key (xs ++ y ∷ ys)
      → HasUniqueIds key (xs ++ y' ∷ ys)
  HasUniqueIds-middle [] y y' ys e h = (subst (λ k. IsFresh key k ys) (sym e) h.0, h.1)
  HasUniqueIds-middle (x ∷ xs) y y' ys e h = (still xs h.0, HasUniqueIds-middle xs y y' ys e h.1)
    where
      still :
          (zs : List A) → IsFresh key (key x) (zs ++ y ∷ ys) → IsFresh key (key x) (zs ++ y' ∷ ys)
      still [] g = (subst (λ k. (k == key x) ≡ false) (sym e) g.0, g.1)
      still (z ∷ zs) g = (g.0, still zs g.1)

-- The schedule as a tick at this time leaves it.
abbrev pub marked : Clock → Schedule → Schedule
marked c sc = if is_due c sc then record sc { last_run_day = c.day } else sc

skipped : {A : Type 0} {b : Bool} → b ≡ false → (x y : A) → (if b then x else y) ≡ y
skipped e x y = rw e refl

is_due-run : (c : Clock) (sc : Schedule) → is_due c (record sc { last_run_day = c.day }) ≡ false
unfolding is_due
is_due-run c sc = ground (arith, eq_refl c.day)

is_due-marked : (c : Clock) (sc : Schedule) → is_due c (marked c sc) ≡ false
is_due-marked c sc = elim (Bool-cases (is_due c sc)) [
  | inl due ↦ rw due (is_due-run c sc)
  | inr idle ↦ rw idle idle
]

abbrev schedules_of : Store → List Schedule
schedules_of s = s.file.schedules

save_locked-schedules :
    (env : Env) (s : Store) → schedules_of (save_locked env s).0 ≡ schedules_of s
unfolding save_locked
save_locked-schedules env s = ground arith

mark_schedule_run-middle :
    (env : Env) (day : String) (s : Store) (xs : List Schedule) (sc : Schedule) (ys : List Schedule)
    → HasUniqueIds schedule_id (xs ++ sc ∷ ys)
    → schedules_of s ≡ xs ++ sc ∷ ys
    → schedules_of (mark_schedule_run env sc.id day s).0
      ≡ xs ++ record sc { last_run_day = day } ∷ ys
unfolding mark_schedule_run
mark_schedule_run-middle env day s xs sc ys u e =
    let fresh = IsFresh-middle schedule_id xs sc ys u in
    let found : find schedule_id sc.id s.file.schedules ≡ some sc =
      (rw e (find-middle schedule_id xs sc ys fresh)) in
    rw (found, schedules_of)
      (save_locked-schedules env _
        ∙ rw e (replace-middle schedule_id xs sc (record sc { last_run_day = day }) ys fresh refl))

marked-id : (c : Clock) (sc : Schedule) → (marked c sc).id ≡ sc.id
marked-id c sc = elim (Bool-cases (is_due c sc)) [ inl due ↦ rw due refl | inr idle ↦ rw idle refl ]

module _ {W : Type 0} where
  fire-middle :
      (r : Runner W) (env : Env) (c : Clock) (sw : Store × W) (xs : List Schedule) (sc : Schedule)
      (ys : List Schedule)
      → HasUniqueIds schedule_id (xs ++ sc ∷ ys)
      → schedules_of sw.0 ≡ xs ++ sc ∷ ys
      → schedules_of (if is_due c sc then fire r env c.day sc sw else sw).0 ≡ xs ++ marked c sc ∷ ys
  unfolding fire
  fire-middle r env c sw xs sc ys u e = elim (Bool-cases (is_due c sc)) [
    | inl due ↦ rw due (mark_schedule_run-middle env c.day sw.0 xs sc ys u e)
    | inr idle ↦ rw idle e
  ]

  fire_all-schedules :
      (r : Runner W) (envs : ℕ → Env) (c : Clock) (k : ℕ) (xs ys : List Schedule) (sw : Store × W)
      → HasUniqueIds schedule_id (xs ++ ys)
      → schedules_of sw.0 ≡ xs ++ ys
      → schedules_of (fire_all r envs c k ys sw).0 ≡ xs ++ map (marked c) ys
  unfolding fire_all
  fire_all-schedules r envs c k xs [] sw u e = e
  fire_all-schedules r envs c k xs (sc ∷ ys) sw u e =
      fire_all-schedules r envs c (k + 1) (xs ++ marked c sc ∷ []) ys
        (if is_due c sc then fire r (envs k) c.day sc sw else sw)
        (subst (HasUniqueIds schedule_id) (sym (append_assoc xs (marked c sc ∷ []) ys))
          (HasUniqueIds-middle schedule_id xs sc (marked c sc) ys (marked-id c sc) u))
        (fire-middle r (envs k) c sw xs sc ys u e ∙ sym (append_assoc xs (marked c sc ∷ []) ys))
      ∙ append_assoc xs (marked c sc ∷ []) (map (marked c) ys)

  -- Where no two schedules share an id, a tick sets LastRunDay in the schedules that are due,
  -- whatever the actions and the saves come to, and changes no other schedule.
  pub tick-schedules :
      (r : Runner W) (envs : ℕ → Env) (c : Clock) (s : Store) (w : W)
      → HasUniqueIds schedule_id s.file.schedules
      → list_schedules (tick r envs c (s, w)).0 ≡ map (marked c) (list_schedules s)
  unfolding tick list_schedules
  tick-schedules r envs c s w u = fire_all-schedules r envs c 0 [] s.file.schedules (s, w) u refl

  fire_all-idle :
      (r : Runner W) (envs : ℕ → Env) (c : Clock) (k : ℕ) (ys : List Schedule) (sw : Store × W)
      → fire_all r envs c k (map (marked c) ys) sw ≡ sw
  unfolding fire_all
  fire_all-idle r envs c k [] sw = refl
  fire_all-idle r envs c k (sc ∷ ys) sw =
      ap (fire_all r envs c (k + 1) (map (marked c) ys))
        (skipped (is_due-marked c sc) (fire r (envs k) c.day (marked c sc) sw) sw)
      ∙ fire_all-idle r envs c (k + 1) ys sw

  -- Where no two schedules share an id, a second tick in the minute of a first one does nothing:
  -- it acts for no schedule, notifies nobody and leaves the store as it is.
  pub tick-tick :
      (r : Runner W) (envs envs' : ℕ → Env) (c : Clock) (s : Store) (w : W)
      → HasUniqueIds schedule_id s.file.schedules
      → tick r envs' c (tick r envs c (s, w)) ≡ tick r envs c (s, w)
  unfolding tick
  tick-tick r envs envs' c s w u =
      ap (λ xs. fire_all r envs' c 0 xs (tick r envs c (s, w))) (tick-schedules r envs c s w u)
      ∙ fire_all-idle r envs' c 0 (list_schedules s) (tick r envs c (s, w))
