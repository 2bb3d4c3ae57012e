-- ===== src/Config/Store/Lookup.antt =====
-- internal/config/store.go, UpsertDevice, and what GetDevice returns after it.
use wakehub.Base.{
  String, true, none, some, if◌then◌else◌, ◌==◌, eq_iff, eq_refl, is_some, arith, ◌≡◌, ◌≢◌, refl,
  sym, Option-cases, inl, inr, ◌↔◌, ◌∙◌, subst, ◌⊎◌,
}
use wakehub.Config.{Device}
use wakehub.Config.Normalize.{normalize_device_fields}
use wakehub.Config.Normalize.Ranges.{IsNormal, normalize_device_fields-IsNormal}
use wakehub.Config.Table.{find, existing, id_or}
use wakehub.Config.Table.Laws.{find-upserted}
use wakehub.Config.Store.{
  Store, Env, encode, save_locked, new_id, device_id, get_device, stored_device, devices_with,
  with_wol_defaults, upsert_device,
}

-- The id that an upsert draws is no device's: an assumption on rand.Read, where an id is drawn.
abbrev pub DrawsFresh : Env → Device → Store → Type 0
DrawsFresh env d s = d.id ≡ "" → get_device s (new_id env) ≡ none

pub stored_device-id :
    (env : Env) (d : Device) (s : Store) → (stored_device env d s).id ≡ id_or (new_id env) d.id
unfolding stored_device
stored_device-id env d s = ground (arith, eq_iff d.id "")

-- A normalised device stays so: an upsert changes its id and its times.
pub stored_device-IsNormal :
    (env : Env) (d : Device) (s : Store) → IsNormal d → IsNormal (stored_device env d s)
unfolding stored_device
stored_device-IsNormal env d s v = elim (Option-cases (existing device_id d.id s.file.devices)) [
  | inl e ↦
      rw (e, stored_device)
        (record {
          port = v.port;
          repeat = v.repeat;
          method = v.method;
          named = v.named;
          probe_port = v.probe_port;
          interval = v.interval;
        })
  | inr (old, e) ↦
      rw (e, stored_device)
        (record {
          port = v.port;
          repeat = v.repeat;
          method = v.method;
          named = v.named;
          probe_port = v.probe_port;
          interval = v.interval;
        })
]

find-devices_with :
    (env : Env) (d : Device) (s : Store) (j : String)
    → DrawsFresh env d s
    → find device_id j (devices_with env d s)
      ≡ (if (stored_device env d s).id == j then some (stored_device env d s) else get_device s j)
unfolding devices_with get_device
find-devices_with env d s j fresh =
    find-upserted device_id (new_id env) d.id s.file.devices (stored_device env d s)
      (stored_device-id env d s) fresh j

-- The device that UpsertDevice passes on to the table, and the store that it saves.
abbrev accepted : Device → Device
accepted given = normalize_device_fields (with_wol_defaults given)

abbrev saved_store : Env → Device → Store → Store
saved_store env d s =
    let file = record s.file { devices = devices_with env d s } in
    record s { file = file; disk = some (encode file) }

upsert_device-inverse :
    (env : Env) (given saved : Device) (s s' : Store)
    → upsert_device env given s ≡ (s', saved, none)
    → (given.name ≢ "")
      × (given.mac ≢ "")
      × (saved_store env (accepted given) s ≡ s')
      × (stored_device env (accepted given) s ≡ saved)
unfolding upsert_device save_locked
upsert_device-inverse env given saved s s' e = (
  ground (arith, eq_iff given.name ""),
  ground (arith, eq_iff given.mac ""),
  ground arith,
  ground arith,
)

-- What a successful UpsertDevice has done.
pub record Upserted (s s' : Store) (given saved : Device) : Type 0 where
  pub named : given.name ≢ ""
  pub addressed : given.mac ≢ ""
  pub normal : IsNormal saved
  pub own_id : given.id ≢ "" → saved.id ≡ given.id
  pub found : get_device s' saved.id ≡ some saved
  pub others : (j : String) → saved.id ≢ j → get_device s' j ≡ get_device s j
  pub groups : s'.file.groups ≡ s.file.groups
  pub schedules : s'.file.schedules ≡ s.file.schedules
  pub settings : s'.file.settings ≡ s.file.settings
  pub written : s'.disk ≡ some (encode s'.file)

accepted-id : (given : Device) → (accepted given).id ≡ given.id
unfolding normalize_device_fields
accepted-id given = refl

saved_store-Upserted :
    (env : Env) (given : Device) (s : Store)
    → DrawsFresh env given s
    → given.name ≢ ""
    → given.mac ≢ ""
    → Upserted s (saved_store env (accepted given) s) given (stored_device env (accepted given) s)
unfolding get_device
saved_store-Upserted env given s fresh named addressed =
    let d = accepted given in
    let fresh' = λ (h : d.id ≡ ""). fresh (sym (accepted-id given) ∙ h) in
    let own = stored_device-id env d s in
    record {
      named = named;
      addressed = addressed;
      normal =
          stored_device-IsNormal env d s
            (normalize_device_fields-IsNormal (with_wol_defaults given));
      own_id = λ h. ground (arith, own, accepted-id given, eq_iff d.id "");
      found =
          find-devices_with env d s _ fresh' ∙ ground (arith, eq_refl (stored_device env d s).id);
      others = λ j h.
          find-devices_with env d s j fresh' ∙ ground (arith, eq_iff (stored_device env d s).id j);
      groups = refl;
      schedules = refl;
      settings = refl;
      written = refl;
    }

pub upsert_device-Upserted :
    (env : Env) (given saved : Device) (s s' : Store)
    → DrawsFresh env given s
    → upsert_device env given s ≡ (s', saved, none)
    → Upserted s s' given saved
upsert_device-Upserted env given saved s s' fresh e =
    let (named, addressed, left, kept) = upsert_device-inverse env given saved s s' e in
    subst (λ t. Upserted s t given saved) left
      (subst (Upserted s (saved_store env (accepted given) s) given) kept
        (saved_store-Upserted env given s fresh named addressed))

-- UpsertDevice fails on an empty name or address and where the file cannot be written, and on
-- nothing else.
pub upsert_device-error_iff :
    (env : Env) (given : Device) (s : Store)
    → (is_some (upsert_device env given s).2 ≡ true)
      ↔ ((given.name ≡ "") ⊎ ((given.mac ≡ "") ⊎ (is_some env.save ≡ true)))
unfolding upsert_device save_locked
upsert_device-error_iff env given s = ground (arith, eq_iff given.name "", eq_iff given.mac "")
