-- ===== src/Probe/Rounds.antt =====
-- internal/probe/probe.go: what a round of the runner and one probe leave.
use wakehub.Base.{
  ap, ℕ, ℤ, ◌+◌, ◌≤◌, ◌<◌, ◌≡◌, ◌≢◌, ◌⊎◌, ◌↔◌, inl, inr, refl, String, true, false, List, [], ◌∷◌,
  none, some, if◌then◌else◌, ◌==◌, ltb, lookup-insert, All, Option-cases, Bool-cases, eq_iff, arith,
  subst,
}
use wakehub.Config.{Device, NicInfo}
use wakehub.Config.Store.{Store, list_devices}
use wakehub.Probe.{
  Result, Net, Runner, Watch, get, is_off, method_of, interval_of, nics_for, resolve_target,
  host_of, probe_tcp, probe_icmp, probed, probe_at, probe_once, observe, visit, visit_all, tick,
}

-- The cache has a result for the id that is younger than an interval.
abbrev pub IsFresh : ℕ → ℕ → String → Watch → Type 0
IsFresh now interval id w = (r : Result) × (get id w ≡ some r) × (now < r.checked_at + interval)

probe_once-fields :
    (net : Net) (d : Device) (nics : List NicInfo)
    → ((probe_once net d nics).device_id ≡ d.id) × ((probe_once net d nics).checked_at ≡ net.now)
unfolding probe_once probe_at probed
probe_once-fields net d nics = ground arith

get-observe :
    (runner : Runner) (cur : Result) (w : Watch) (id : String)
    → get id (observe runner cur w) ≡ (if cur.device_id == id then some cur else get id w)
unfolding observe get
get-observe runner cur w id = lookup-insert cur.device_id id cur w.cache

positive-interval_of : (d : Device) → 15 ≤ interval_of d
positive-interval_of d = ground arith

observe-IsFresh :
    (runner : Runner) (now : ℕ) (net : Net) (d : Device) (w : Watch)
    → now ≤ net.now
    → IsFresh now (interval_of d) d.id (observe runner (probe_once net d (nics_for runner d.id)) w)
observe-IsFresh runner now net d w clock =
    let cur = probe_once net d (nics_for runner d.id) in
    let (own, dated) = probe_once-fields net d (nics_for runner d.id) in
    let found = get-observe runner cur w d.id in
    let long = positive-interval_of d in
    (cur, ground (arith, found, own, eq_iff cur.device_id d.id), omega arith)

visit-IsFresh :
    (runner : Runner) (now : ℕ) (net : Net) (d : Device) (w : Watch)
    → now ≤ net.now
    → (is_off (method_of d) ≡ true) ⊎ IsFresh now (interval_of d) d.id (visit runner now net d w)
unfolding visit
visit-IsFresh runner now net d w clock =
    let fresh = observe-IsFresh runner now net d w clock in
    elim (Bool-cases (is_off (method_of d))) [
      | inl off ↦ inl off
      | inr on ↦ elim (Option-cases (get d.id w)) [
        | inl none_yet ↦ inr (simp (on, none_yet, visit) fresh)
        | inr (p, held) ↦ elim (Bool-cases (ltb now (p.checked_at + interval_of d))) [
          | inl recent ↦ inr (simp (on, held, recent, visit) (p, refl, ground arith))
          | inr old ↦ inr (simp (on, held, old, visit) fresh)
        ]
      ]
    ]

pub visit_lem :
    (runner : Runner) (now : ℕ) (net : Net) (d : Device) (w : Watch)
    → (visit runner now net d w ≡ w)
      ⊎ (visit runner now net d w ≡ observe runner (probe_once net d (nics_for runner d.id)) w)
unfolding visit
visit_lem runner now net d w = ground arith

observe-keeps :
    (runner : Runner) (now k : ℕ) (id : String) (cur : Result) (w : Watch)
    → now < cur.checked_at + k
    → IsFresh now k id w
    → IsFresh now k id (observe runner cur w)
observe-keeps runner now k id cur w young (r, held, was) =
    let found = get-observe runner cur w id in
    elim (Bool-cases (cur.device_id == id)) [
      | inl mine ↦ (cur, ground (arith, found), young)
      | inr other ↦ (r, ground (arith, found), was)
    ]

-- A visit to any device leaves what is fresh fresh.
visit-keeps :
    (runner : Runner) (now k : ℕ) (id : String) (net : Net) (d : Device) (w : Watch)
    → now ≤ net.now
    → 15 ≤ k
    → IsFresh now k id w
    → IsFresh now k id (visit runner now net d w)
visit-keeps runner now k id net d w clock long fresh =
    let cur = probe_once net d (nics_for runner d.id) in
    let (own, dated) = probe_once-fields net d (nics_for runner d.id) in
    elim (visit_lem runner now net d w) [
      | inl same ↦ rw same fresh
      | inr seen ↦ rw seen (observe-keeps runner now k id cur w (omega arith) fresh)
    ]

module _ (runner : Runner) (now : ℕ) (nets : String → Net)
    (clock : (id : String) → now ≤ (nets id).now) where
  visit_all-keeps :
      (k : ℕ) (id : String) (ds : List Device) (w : Watch)
      → 15 ≤ k
      → IsFresh now k id w
      → IsFresh now k id (visit_all runner now nets ds w)
  unfolding visit_all
  visit_all-keeps k id [] w long fresh = fresh
  visit_all-keeps k id (d ∷ ds) w long fresh =
      visit_all-keeps k id ds (visit runner now (nets d.id) d w) long
        (visit-keeps runner now k id (nets d.id) d w (clock d.id) long fresh)

  visit_all-IsFresh :
      (ds : List Device) (w : Watch)
      → All
          (λ d.
            (is_off (method_of d) ≡ true)
            ⊎ IsFresh now (interval_of d) d.id (visit_all runner now nets ds w))
          ds
  unfolding visit_all
  visit_all-IsFresh [] w = tt
  visit_all-IsFresh (d ∷ ds) w =
      let w' = visit runner now (nets d.id) d w in
      (
        elim (visit-IsFresh runner now (nets d.id) d w (clock d.id)) [
          | inl off ↦ inl off
          | inr fresh ↦
              inr (visit_all-keeps (interval_of d) d.id ds w' (positive-interval_of d) fresh)
        ],
        visit_all-IsFresh ds w',
      )

  -- After a round of the runner every stored device whose probing is not switched off has a result
  -- in the cache that is younger than the device's interval, whatever the probes found. The probes
  -- of the round are not dated before it begins.
  pub tick-IsFresh :
      (s : Store) (w : Watch)
      → All
          (λ d.
            (is_off (method_of d) ≡ true)
            ⊎ IsFresh now (interval_of d) d.id (tick runner now nets s w))
          (list_devices s)
  unfolding tick
  tick-IsFresh s w = visit_all-IsFresh (list_devices s) w

probe_at-online_iff :
    (net : Net) (d : Device) (host : String) (port : ℤ) (method : String)
    → ((probe_at net d (host, port, method)).online ≡ true) ↔ (
        (host ≢ "")
        × (((method ≡ "tcp") × (probe_tcp net host port ≡ none))
            ⊎ (((method ≡ "icmp") ⊎ (method ≡ "ping")) × (probe_icmp net host ≡ none))))
unfolding probe_at probed
probe_at-online_iff net d host port method =
    let tcp : method ≡ "tcp" → (method == "off") ≡ false = λ e. ap (λ m. m == "off") e in
    let icmp : method ≡ "icmp" → ((method == "off") ≡ false) × ((method == "tcp") ≡ false) =
      λ e. (ap (λ m. m == "off") e, ap (λ m. m == "tcp") e) in
    let ping : method ≡ "ping" → ((method == "off") ≡ false) × ((method == "tcp") ≡ false) =
      λ e. (ap (λ m. m == "off") e, ap (λ m. m == "tcp") e) in
    ground (
      arith,
      tcp,
      icmp,
      ping,
      eq_iff host "",
      eq_iff method "off",
      eq_iff method "tcp",
      eq_iff method "icmp",
      eq_iff method "ping",
    )

switched_off :
    (method : String)
    → is_off method ≡ true
    → ((method ≡ "tcp") ⊎ ((method ≡ "icmp") ⊎ (method ≡ "ping")))
    → ⊥
switched_off method off (inl e) = absurd (ground (arith, subst (λ m. is_off m ≡ true) e off))
switched_off method off (inr (inl e)) = absurd (ground (arith, subst (λ m. is_off m ≡ true) e off))
switched_off method off (inr (inr e)) = absurd (ground (arith, subst (λ m. is_off m ≡ true) e off))

probe_once_off :
    (net : Net) (d : Device) (nics : List NicInfo)
    → is_off (method_of d) ≡ true
    → (probe_once net d nics).online ≡ false
unfolding probe_once probe_at resolve_target
probe_once_off net d nics off = rw off refl

-- A probe finds a device online where its method is "tcp", "icmp" or "ping", there is a host for it
-- and the connection or the ping has no error, and nowhere else.
pub probe_once-online_iff :
    (net : Net) (d : Device) (nics : List NicInfo)
    → ((probe_once net d nics).online ≡ true) ↔ (
        (host_of d nics ≢ "")
        × (((method_of d ≡ "tcp")
              × (probe_tcp net (host_of d nics) (resolve_target d nics).1 ≡ none))
            ⊎ (((method_of d ≡ "icmp") ⊎ (method_of d ≡ "ping"))
                × (probe_icmp net (host_of d nics) ≡ none))))
unfolding probe_once resolve_target
probe_once-online_iff net d nics =
    let m = method_of d in
    elim (Bool-cases (is_off m)) [
      | inr on ↦
          simp (on, probe_once, resolve_target) (probe_at-online_iff net d (host_of d nics) _ m)
      | inl off ↦ (
        λ h. absurd (ground (arith, probe_once_off net d nics off)),
        λ k. absurd (switched_off m off (elim k.1 [ inl t ↦ inl t.0 | inr t ↦ inr t.0 ])),
      )
    ]
