-- ===== src/Config/Store/Requests/Shape.antt =====
-- internal/config/store.go: the operations, and the ids and fields of the entries.
use wakehub.Base.{
  String, map, Option, none, ◌≡◌, refl, sym, subst, ◌⊎◌, inl, inr, arith, eq_iff, Option-cases,
}
use wakehub.Text.{trim_space, to_lower}
use wakehub.Config.{Device, Group, Schedule, Settings, File}
use wakehub.Config.Password.{Bcrypt}
use wakehub.Config.Normalize.{normalize_device_fields, normalize_schedule_fields}
use wakehub.Config.Normalize.Ranges.{
  IsNormal, IsTimed, normalize_device_fields-IsNormal, normalize_schedule_fields-IsTimed,
}
use wakehub.Config.Table.{find, existing, replace, remove, id_or}
use wakehub.Config.Table.Laws.{
  HasUniqueIds-upserted, HasUniqueIds-replace, HasUniqueIds-remove, HasUniqueIds-map, All-upserted,
  All-replace, All-remove, All-find,
}
use wakehub.Config.Store.{
  Store, Env, new_id, device_id, group_id, schedule_id, upsert_device, delete_device, save_locked,
  stored_device, devices_with, with_wol_defaults, without_device,
}
use wakehub.Config.Store.Lookup.{stored_device-id, stored_device-IsNormal}
use wakehub.Config.Store.Groups.{upsert_group, delete_group, stored_group, groups_with}
use wakehub.Config.Store.Schedules.{
  upsert_schedule, mark_schedule_run, delete_schedule, stored_schedule, schedules_with,
}
use wakehub.Config.Store.Globals.{update_settings, ensure_client_token}
use wakehub.Config.Store.Requests.{
  Request, put_device, drop_device, put_group, drop_group, put_schedule, mark_run, drop_schedule,
  change_settings, ensure_token, save, serve, IsWellFormed, DrawsNew, History, start, step,
}

-- A file that is the old one or a new one is well formed if both are.
either-IsWellFormed :
    {f g h : File} → (h ≡ f) ⊎ (h ≡ g) → IsWellFormed f → IsWellFormed g → IsWellFormed h
either-IsWellFormed (inl e) v w = subst IsWellFormed (sym e) v
either-IsWellFormed (inr e) v w = subst IsWellFormed (sym e) w

module _ (env : Env) (s : Store) (v : IsWellFormed s.file) where
  devices_with-IsWellFormed :
      (d : Device)
      → IsNormal d
      → (d.id ≡ "" → find device_id (new_id env) s.file.devices ≡ none)
      → IsWellFormed (record s.file { devices = devices_with env d s })
  unfolding devices_with
  devices_with-IsWellFormed d normal new = record {
    device_ids =
        HasUniqueIds-upserted device_id (new_id env) d.id s.file.devices (stored_device env d s)
          (stored_device-id env d s) new v.device_ids;
    group_ids = v.group_ids;
    schedule_ids = v.schedule_ids;
    devices =
        All-upserted device_id IsNormal (existing device_id d.id s.file.devices) _ s.file.devices
          (stored_device-IsNormal env d s normal) v.devices;
    schedules = v.schedules;
  }

  put_device-IsWellFormed :
      (given : Device)
      → (given.id ≡ "" → find device_id (new_id env) s.file.devices ≡ none)
      → IsWellFormed (upsert_device env given s).0.file
  unfolding upsert_device save_locked
  put_device-IsWellFormed given new =
      let d = normalize_device_fields (with_wol_defaults given) in
      either-IsWellFormed {g = record s.file { devices = devices_with env d s }} (ground arith) v (
        devices_with-IsWellFormed d (normalize_device_fields-IsNormal (with_wol_defaults given))
          (unfold normalize_device_fields in new))

  stored_group-id : (g : Group) → (stored_group env g s).id ≡ id_or (new_id env) g.id
  unfolding stored_group
  stored_group-id g = ground (arith, eq_iff g.id "")

  put_group-IsWellFormed :
      (given : Group)
      → (given.id ≡ "" → find group_id (new_id env) s.file.groups ≡ none)
      → IsWellFormed (upsert_group env given s).0.file
  unfolding upsert_group save_locked groups_with
  put_group-IsWellFormed given new =
      let g = record given { name = trim_space given.name } in
      either-IsWellFormed {g = record s.file { groups = groups_with env g s }} (ground arith) v
        (record {
          device_ids = v.device_ids;
          group_ids =
              HasUniqueIds-upserted group_id (new_id env) g.id s.file.groups (stored_group env g s)
                (stored_group-id g) new v.group_ids;
          schedule_ids = v.schedule_ids;
          devices = v.devices;
          schedules = v.schedules;
        })

  stored_schedule-id : (sc : Schedule) → (stored_schedule env sc s).id ≡ id_or (new_id env) sc.id
  unfolding stored_schedule
  stored_schedule-id sc = ground (arith, eq_iff sc.id "")

  stored_schedule-IsTimed : (sc : Schedule) → IsTimed sc → IsTimed (stored_schedule env sc s)
  unfolding stored_schedule
  stored_schedule-IsTimed sc t = ground arith

  put_schedule-IsWellFormed :
      (given : Schedule)
      → (given.id ≡ "" → find schedule_id (new_id env) s.file.schedules ≡ none)
      → IsWellFormed (upsert_schedule env given s).0.file
  unfolding upsert_schedule save_locked schedules_with normalize_schedule_fields
  put_schedule-IsWellFormed given new =
      let acting = record given {
        name = trim_space given.name;
        action = to_lower (trim_space given.action);
      } in
      let sc = normalize_schedule_fields acting in
      either-IsWellFormed {g = record s.file { schedules = schedules_with env sc s }} (ground arith)
        v
        (record {
          device_ids = v.device_ids;
          group_ids = v.group_ids;
          schedule_ids =
              HasUniqueIds-upserted schedule_id (new_id env) sc.id s.file.schedules
                (stored_schedule env sc s) (stored_schedule-id sc) new v.schedule_ids;
          devices = v.devices;
          schedules =
              All-upserted schedule_id IsTimed (existing schedule_id sc.id s.file.schedules) _
                s.file.schedules
                (stored_schedule-IsTimed sc (normalize_schedule_fields-IsTimed acting)) v.schedules;
        })

  drop_device-IsWellFormed : (id : String) → IsWellFormed (delete_device env id s).0.file
  unfolding delete_device save_locked
  drop_device-IsWellFormed id =
      either-IsWellFormed
        {g = record s.file {
          devices = remove device_id id s.file.devices;
          groups = map (without_device id) s.file.groups;
        }}
        (ground arith) v
        (record {
          device_ids = HasUniqueIds-remove device_id id s.file.devices v.device_ids;
          group_ids =
              HasUniqueIds-map group_id (without_device id) (λ g. refl) s.file.groups v.group_ids;
          schedule_ids = v.schedule_ids;
          devices = All-remove device_id IsNormal id s.file.devices v.devices;
          schedules = v.schedules;
        })

  drop_group-IsWellFormed : (id : String) → IsWellFormed (delete_group env id s).0.file
  unfolding delete_group save_locked
  drop_group-IsWellFormed id =
      either-IsWellFormed {g = record s.file { groups = remove group_id id s.file.groups }}
        (ground arith) v
        (record {
          device_ids = v.device_ids;
          group_ids = HasUniqueIds-remove group_id id s.file.groups v.group_ids;
          schedule_ids = v.schedule_ids;
          devices = v.devices;
          schedules = v.schedules;
        })

  drop_schedule-IsWellFormed : (id : String) → IsWellFormed (delete_schedule env id s).0.file
  unfolding delete_schedule save_locked
  drop_schedule-IsWellFormed id =
      either-IsWellFormed {g = record s.file { schedules = remove schedule_id id s.file.schedules }}
        (ground arith) v
        (record {
          device_ids = v.device_ids;
          group_ids = v.group_ids;
          schedule_ids = HasUniqueIds-remove schedule_id id s.file.schedules v.schedule_ids;
          devices = v.devices;
          schedules = All-remove schedule_id IsTimed id s.file.schedules v.schedules;
        })

  marked-IsWellFormed :
      (sc : Schedule) (day : String)
      → IsTimed sc
      → IsWellFormed (record s.file {
        schedules = replace schedule_id (record sc { last_run_day = day }) s.file.schedules;
      })
  marked-IsWellFormed sc day t =
      let new = record sc { last_run_day = day } in
      record {
        device_ids = v.device_ids;
        group_ids = v.group_ids;
        schedule_ids = HasUniqueIds-replace schedule_id s.file.schedules new v.schedule_ids;
        devices = v.devices;
        schedules =
            All-replace schedule_id IsTimed s.file.schedules new
              (record { action = t.action; hour = t.hour; minute = t.minute }) v.schedules;
      }

  mark_run-IsWellFormed : (id day : String) → IsWellFormed (mark_schedule_run env id day s).0.file
  unfolding mark_schedule_run save_locked
  mark_run-IsWellFormed id day = elim (Option-cases (find schedule_id id s.file.schedules)) [
    | inl e ↦ rw (e, mark_schedule_run) v
    | inr (sc, e) ↦ either-IsWellFormed (inr (ground arith)) v (
        marked-IsWellFormed sc day
          (All-find schedule_id IsTimed id s.file.schedules sc e v.schedules))
  ]

  settings-IsWellFormed : (st : Settings) → IsWellFormed (record s.file { settings = st })
  settings-IsWellFormed st = record {
    device_ids = v.device_ids;
    group_ids = v.group_ids;
    schedule_ids = v.schedule_ids;
    devices = v.devices;
    schedules = v.schedules;
  }

-- The two operations on settings leave the rest of the file alone.
change_settings-file :
    (crypt : Bcrypt) (env : Env) (change : Settings → Settings × Option String) (s : Store)
    → (update_settings crypt env change s).0.file
      ≡ record s.file { settings = (update_settings crypt env change s).0.file.settings }
unfolding update_settings save_locked
change_settings-file crypt env change s = ground arith

ensure_token-file :
    (env : Env) (s : Store)
    → (ensure_client_token env s).0.file
      ≡ record s.file { settings = (ensure_client_token env s).0.file.settings }
unfolding ensure_client_token save_locked
ensure_token-file env s = ground arith

save-file : (env : Env) (s : Store) → (save_locked env s).0.file ≡ s.file
unfolding save_locked
save-file env s = ground arith

-- Every operation keeps ids unique and the entries normalised, on its error paths too.
pub serve-IsWellFormed :
    (crypt : Bcrypt) (env : Env) (r : Request) (s : Store)
    → DrawsNew env r s
    → IsWellFormed s.file
    → IsWellFormed (serve crypt env r s).0.file
unfolding serve
serve-IsWellFormed crypt env (put_device d) s new v = put_device-IsWellFormed env s v d new
serve-IsWellFormed crypt env (drop_device id) s new v = drop_device-IsWellFormed env s v id
serve-IsWellFormed crypt env (put_group g) s new v = put_group-IsWellFormed env s v g new
serve-IsWellFormed crypt env (drop_group id) s new v = drop_group-IsWellFormed env s v id
serve-IsWellFormed crypt env (put_schedule sc) s new v = put_schedule-IsWellFormed env s v sc new
serve-IsWellFormed crypt env (mark_run id day) s new v = mark_run-IsWellFormed env s v id day
serve-IsWellFormed crypt env (drop_schedule id) s new v = drop_schedule-IsWellFormed env s v id
serve-IsWellFormed crypt env (change_settings change) s new v =
    subst IsWellFormed (sym (change_settings-file crypt env change s))
      (settings-IsWellFormed env s v _)
serve-IsWellFormed crypt env ensure_token s new v =
    subst IsWellFormed (sym (ensure_token-file env s)) (settings-IsWellFormed env s v _)
serve-IsWellFormed crypt env save s new v = subst IsWellFormed (sym (save-file env s)) v

-- A store with unique ids and normalised devices and schedules has both after any history of its
-- operations, failing ones included, where each id that is drawn is nobody else's.
pub History-IsWellFormed :
    {crypt : Bcrypt} {s t : Store} → IsWellFormed s.file → History crypt s t → IsWellFormed t.file
History-IsWellFormed v start = v
History-IsWellFormed {crypt} v (step env r h new e) =
    subst (λ u. IsWellFormed u.file) (sym e)
      (serve-IsWellFormed crypt env r _ new (History-IsWellFormed v h))
