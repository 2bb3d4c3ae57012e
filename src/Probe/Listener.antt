-- ===== src/Probe/Listener.antt =====
-- internal/probe/probe.go: what a listener on onChange can know.
use wakehub.Base.{
  ℕ, ◌≡◌, sym, subst, refl, String, Bool, true, List, [], ◌∷◌, Option, none, some, if◌then◌else◌,
  ◌==◌, lookup, lookup-insert, Option-cases, inl, inr, eq_iff, arith,
}
use wakehub.Config.{Device}
use wakehub.Config.Store.{Store, list_devices, get_device}
use wakehub.Probe.Rounds.{visit_lem}
use wakehub.Probe.{
  Result, Net, Runner, Watch, get, observe, change_of, visit, visit_all, tick, probe_device,
  new_status_cache, probe_once, nics_for,
}

-- What the calls of onChange, the last one first, have said of the device with an id.
abbrev pub told : List (Result × Result) → String → Option Bool
told [] id = none
told ((prev, cur) ∷ rest) id = if cur.device_id == id then some cur.online else told rest id

-- Whether a device is online, as the cache has it.
abbrev pub known : Watch → String → Option Bool
known w id = elim (get id w) [ none ↦ none | some r ↦ some r.online ]

abbrev IsTold : Watch → Type 0
IsTold w = (id : String) → told w.changes id ≡ known w id

observe-IsTold :
    (runner : Runner) (cur : Result) (w : Watch)
    → runner.has_on_change ≡ true
    → IsTold w
    → IsTold (observe runner cur w)
unfolding observe get change_of
observe-IsTold runner cur w on before id =
    let inserted = lookup-insert cur.device_id id cur w.cache in
    let here = before cur.device_id in
    let there = before id in
    elim (Option-cases (lookup cur.device_id w.cache)) [
      | inl free ↦ ground (arith, inserted, there, eq_iff cur.device_id id)
      | inr (old, held) ↦ ground (arith, inserted, here, there, held, eq_iff cur.device_id id)
    ]

visit-IsTold :
    (runner : Runner) (now : ℕ) (net : Net) (d : Device) (w : Watch)
    → runner.has_on_change ≡ true
    → IsTold w
    → IsTold (visit runner now net d w)
visit-IsTold runner now net d w on before = elim (visit_lem runner now net d w) [
  | inl same ↦ subst IsTold (sym same) before
  | inr seen ↦ subst IsTold (sym seen) (observe-IsTold runner _ w on before)
]

visit_all-IsTold :
    (runner : Runner) (now : ℕ) (nets : String → Net) (ds : List Device) (w : Watch)
    → runner.has_on_change ≡ true
    → IsTold w
    → IsTold (visit_all runner now nets ds w)
unfolding visit_all
visit_all-IsTold runner now nets [] w on before = before
visit_all-IsTold runner now nets (d ∷ ds) w on before =
    visit_all-IsTold runner now nets ds _ on (visit-IsTold runner now (nets d.id) d w on before)

-- A round of the runner, or a probe that is asked for.
pub data Step : Type 0 where
  round : ℕ → (String → Net) → Step
  forced : Net → String → Step

-- The watch after a history of steps, each with the store that it meets; the last one stands first.
unfoldable pub watch_after : Runner → List (Step × Store) → Watch
watch_after runner [] = new_status_cache
watch_after runner ((round now nets, s) ∷ history) =
    tick runner now nets s (watch_after runner history)
watch_after runner ((forced net id, s) ∷ history) =
    (probe_device runner net id s (watch_after runner history)).0

probe_device-IsTold :
    (runner : Runner) (net : Net) (id : String) (s : Store) (w : Watch)
    → runner.has_on_change ≡ true
    → IsTold w
    → IsTold (probe_device runner net id s w).0
unfolding probe_device
probe_device-IsTold runner net id s w on before = elim (Option-cases (get_device s id)) [
  | inl missing ↦ simp (missing, probe_device) before
  | inr (d, found) ↦
      simp (found, probe_device)
        (observe-IsTold runner (probe_once net d (nics_for runner id)) w on before)
]

-- After any history of rounds and of probes that are asked for, none of which begins before the one
-- before it has ended, the last call of onChange for a device says whether it is online as the cache
-- does, and there has been a call where the cache has a result.
pub told-watch_after :
    (runner : Runner) (history : List (Step × Store)) (id : String)
    → runner.has_on_change ≡ true
    → told (watch_after runner history).changes id ≡ known (watch_after runner history) id
unfolding watch_after new_status_cache tick get lookup
told-watch_after runner [] id on = refl
told-watch_after runner ((round now nets, s) ∷ history) id on =
    visit_all-IsTold runner now nets (list_devices s) _ on
      (λ j. told-watch_after runner history j on) id
told-watch_after runner ((forced net at, s) ∷ history) id on =
    probe_device-IsTold runner net at s _ on (λ j. told-watch_after runner history j on) id
