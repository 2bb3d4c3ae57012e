-- ===== src/Service/Devices/Cloud.antt =====
-- internal/device/service.go with internal/bemfa/manager.go: the service over the manager of the
-- topics at the cloud, which fills the interface `Bemfa` of the service.
use wakehub.Base.{
  Option, String, true, none, ◌≡◌, ◌≢◌, refl, sym, subst, ◌∙◌, arith, inl, inr, Option-cases,
  eq_iff,
}
use wakehub.Config.{Device}
use wakehub.Config.Store.{
  Store, Env, new_id, upsert_device, stored_device, with_wol_defaults, save_locked,
}
use wakehub.Config.Normalize.{normalize_device_fields}
use wakehub.Service.Devices.{Bemfa, normalize, validate_bemfa, create}
use wakehub.Service.Devices.Creation.{id-upsert_device}
use wakehub.Config.Store.Globals.{settings}
use wakehub.Config.Store.{list_devices}
use wakehub.Bemfa.Session.{reconfigure}
use wakehub.Bemfa.{Call, Manager}
use wakehub.Bemfa.Topics.{validate_topic}
use wakehub.Bemfa.Ensure.{ensure_device, remove_device}
use wakehub.Bemfa.Ensure.Binding.{IsBound, ensure_device-IsBound}

unfoldable pub cloud : Call → Bemfa Manager
cloud call = record {
  ensure_device = λ m d. ensure_device call d m;
  remove_device = λ m d. remove_device call d m;
  validate_topic = λ topic. validate_topic call.quote topic;
}

-- StartBemfa, with the settings and the devices of the store.
unfoldable pub start_bemfa : Call → Store → Manager → Manager × Option String
start_bemfa call s m = reconfigure call (settings s).bemfa_uid (list_devices s) m

-- The topic and the switch of a device that UpsertDevice stores are those that it was given.
record Keeps (given kept : Device) : Type 0 where
  pub topic : kept.bemfa_topic ≡ given.bemfa_topic
  pub switch : kept.bemfa_enable ≡ given.bemfa_enable
  pub own_id : given.id ≢ "" → kept.id ≡ given.id

stored_device-Keeps : (env : Env) (d : Device) (s : Store) → Keeps d (stored_device env d s)
unfolding stored_device
stored_device-Keeps env d s = record {
  topic = ground arith;
  switch = ground arith;
  own_id = λ named. ground (arith, eq_iff d.id "");
}

upsert_device-Keeps :
    (env : Env) (d : Device) (s : Store)
    → (upsert_device env d s).2 ≡ none
    → Keeps d (upsert_device env d s).1
unfolding upsert_device save_locked normalize_device_fields
upsert_device-Keeps env d s e =
    let kept = stored_device-Keeps env (normalize_device_fields (with_wol_defaults d)) s in
    record {
      topic = ground (arith, kept.topic);
      switch = ground (arith, kept.switch);
      own_id = λ named. ground (arith, kept.own_id named);
    }

-- Create over the manager: a device with Bemfa enabled that it makes without an error has a topic
-- that ValidateTopic accepts, and commands on the topic are bound to the device under the id that
-- the service reports. The id that is drawn is not empty.
pub create-IsBound :
    (call : Call) (first second : Env) (given last : Device) (s s' : Store) (m m' : Manager)
    → given.bemfa_enable ≡ true
    → new_id first ≢ ""
    → create (cloud call) first second given (s, m) ≡ ((s', m'), last, none)
    → IsBound call last.bemfa_topic last.id m'
unfolding create cloud
create-IsBound call first second given last s s' m m' on named e =
    let d = normalize (record given { id = "" }) in
    elim (Option-cases (validate_bemfa (cloud call) s d)) [
      | inr (x, bad) ↦ absurd (ground arith)
      | inl good ↦ elim (Option-cases (upsert_device first d s).2) [
        | inr (x, bad) ↦ absurd (ground arith)
        | inl saved ↦ elim (Option-cases (ensure_device call (upsert_device first d s).1 m).2) [
          | inr (x, bad) ↦ absurd (ground arith)
          | inl ensured ↦
              let one = upsert_device first d s in
              let held = ensure_device call one.1 m in
              let ready : Device = record one.1 { bemfa_topic = held.1 } in
              let two = upsert_device second ready one.0 in
              let left : held.0 ≡ m' = ground arith in
              let kept : two.1 ≡ last = ground arith in
              let done : two.2 ≡ none = ground arith in
              let was = upsert_device-Keeps first d s saved in
              let now = upsert_device-Keeps second ready one.0 done in
              let live : one.1.bemfa_enable ≡ true = was.switch ∙ (unfold normalize in on) in
              let bound = ensure_device-IsBound call one.1 m live ensured in
              let drawn = id-upsert_device first d s saved (unfold normalize in refl) in
              let own = now.own_id (λ h. named (sym drawn ∙ h)) in
              let last_bound : IsBound call two.1.bemfa_topic two.1.id held.0 =
                subst (λ t. IsBound call t two.1.id held.0) (sym now.topic)
                  (subst (λ i. IsBound call ready.bemfa_topic i held.0) (sym own) bound) in
              subst (λ l. IsBound call l.bemfa_topic l.id m') kept
                (subst (λ w. IsBound call two.1.bemfa_topic two.1.id w) left last_bound)
        ]
      ]
    ]
