-- ===== src/Service/Devices/Creation.antt =====
-- internal/device/service.go, Create with the store.
use wakehub.Base.{
  String, none, some, ◌≡◌, ◌≢◌, refl, sym, subst, ◌∙◌, arith, inl, inr, Option-cases, eq_iff,
}
use wakehub.Config.{Device}
use wakehub.Config.Normalize.Ranges.{IsNormal}
use wakehub.Config.Store.{
  Store, Env, encode, new_id, get_device, upsert_device, save_locked, with_wol_defaults,
}
use wakehub.Config.Normalize.{normalize_device_fields}
use wakehub.Config.Store.Lookup.{stored_device-id, Upserted, upsert_device-Upserted}
use wakehub.Service.Devices.{Bemfa, normalize, validate_bemfa, create}

-- What two calls of UpsertDevice with an ensured topic in between have done.
pub record Created (s s' : Store) (last : Device) : Type 0 where
  pub fresh : get_device s last.id ≡ none
  pub normal : IsNormal last
  pub found : get_device s' last.id ≡ some last
  pub others : (j : String) → last.id ≢ j → get_device s' j ≡ get_device s j
  pub written : s'.disk ≡ some (encode s'.file)

Upserted-twice :
    (s s1 s2 : Store) (d ensured saved last : Device)
    → Upserted s s1 d saved
    → Upserted s1 s2 ensured last
    → ensured.id ≡ saved.id
    → saved.id ≢ ""
    → get_device s saved.id ≡ none
    → Created s s2 last
Upserted-twice s s1 s2 d ensured saved last u v same named fresh =
    let kept : last.id ≡ saved.id = v.own_id (λ e. named (sym same ∙ e)) ∙ same in
    record {
      fresh = subst (λ k. get_device s k ≡ none) (sym kept) fresh;
      normal = v.normal;
      found = v.found;
      others = λ j n. v.others j n ∙ u.others j (λ e. n (kept ∙ e));
      written = v.written;
    }

pub id-upsert_device :
    (env : Env) (d : Device) (s : Store)
    → (upsert_device env d s).2 ≡ none
    → d.id ≡ ""
    → (upsert_device env d s).1.id ≡ new_id env
unfolding upsert_device save_locked normalize_device_fields
id-upsert_device env d s e blank =
    let kept = stored_device-id env (normalize_device_fields (with_wol_defaults d)) s in
    ground (arith, kept, eq_iff d.id "")

-- Both calls of UpsertDevice that Create makes, once it has made them without an error.
twice-Created :
    (first second : Env) (d : Device) (topic : String) (s : Store)
    → d.id ≡ ""
    → get_device s (new_id first) ≡ none
    → new_id first ≢ ""
    → (upsert_device first d s).2 ≡ none
    → (upsert_device second
        (record (upsert_device first d s).1 { bemfa_topic = topic })
        (upsert_device first d s).0).2
      ≡ none
    → Created s
        (upsert_device second
          (record (upsert_device first d s).1 { bemfa_topic = topic })
          (upsert_device first d s).0).0
        (upsert_device second
          (record (upsert_device first d s).1 { bemfa_topic = topic })
          (upsert_device first d s).0).1
twice-Created first second d topic s blank fresh named e f =
    let one = upsert_device first d s in
    let ensured : Device = record one.1 { bemfa_topic = topic } in
    let two = upsert_device second ensured one.0 in
    let drawn : one.1.id ≡ new_id first = id-upsert_device first d s e blank in
    let u = upsert_device-Upserted first d one.1 s one.0 (λ _. fresh) (cc e) in
    let v =
      upsert_device-Upserted second ensured two.1 one.0 two.0 (λ h. absurd (named (sym drawn ∙ h)))
        (cc f) in
    Upserted-twice s one.0 two.0 d ensured one.1 two.1 u v refl (λ h. named (sym drawn ∙ h))
      (rw drawn fresh)

module _ {B : Type 0} (bemfa : Bemfa B) where
  -- A device that Create makes without an error has an id that was no device's, is normalised, and
  -- is found under its id and on disk, with the topic that the manager ensured; no other device
  -- changes. The id that is drawn is no device's and not empty.
  pub create-Created :
      (first second : Env) (given last : Device) (s s' : Store) (b b' : B)
      → get_device s (new_id first) ≡ none
      → new_id first ≢ ""
      → create bemfa first second given (s, b) ≡ ((s', b'), last, none)
      → Created s s' last
  unfolding create
  create-Created first second given last s s' b b' fresh named e =
      let d = normalize (record given { id = "" }) in
      elim (Option-cases (validate_bemfa bemfa s d)) [
        | inr (m, bad) ↦ absurd (ground arith)
        | inl good ↦ elim (Option-cases (upsert_device first d s).2) [
          | inr (m, bad) ↦ absurd (ground arith)
          | inl saved ↦ elim (Option-cases (bemfa.ensure_device b (upsert_device first d s).1).2) [
            | inr (m, bad) ↦ absurd (ground arith)
            | inl ensured ↦
                let one = upsert_device first d s in
                let topic = (bemfa.ensure_device b one.1).1 in
                let two = upsert_device second (record one.1 { bemfa_topic = topic }) one.0 in
                let left : two.0 ≡ s' = ground arith in
                let kept : two.1 ≡ last = ground arith in
                let made =
                  twice-Created first second d topic s (unfold normalize in refl) fresh named saved
                    (ground arith) in
                subst (Created s s') kept (subst (λ t. Created s t two.1) left made)
          ]
        ]
      ]
