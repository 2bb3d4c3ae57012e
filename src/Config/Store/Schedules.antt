-- ===== src/Config/Store/Schedules.antt =====
-- internal/config/store.go, lines 576 to 672: the operations on schedules.
use wakehub.Base.{
  pos, String, false, ◌&&◌, not, List, [], Option, none, some, if◌then◌else◌, ◌==◌, is_some,
}
use wakehub.Text.{trim_space, to_lower}
use wakehub.Config.{Schedule}
use wakehub.Config.Normalize.{normalize_schedule_fields}
use wakehub.Config.Table.{upserted, existing, id_or, find, replace, remove}
use wakehub.Config.Store.{
  Store, Env, save_locked, saving, new_id, with_schedules, not_found, schedule_id,
}

abbrev pub zero_schedule : Schedule
zero_schedule = record {
  id = "";
  name = "";
  enabled = false;
  action = "";
  device_id = "";
  group_id = "";
  hour = pos 0;
  minute = pos 0;
  weekdays = [];
  last_run_day = "";
  created_at = 0;
  updated_at = 0;
}

unfoldable pub list_schedules : Store → List Schedule
list_schedules s = s.file.schedules

unfoldable pub get_schedule : Store → String → Option Schedule
get_schedule s id = find schedule_id id s.file.schedules

unfoldable pub stored_schedule : Env → Schedule → Store → Schedule
stored_schedule env sc s = elim (existing schedule_id sc.id s.file.schedules) [
  | none ↦ record sc { id = id_or (new_id env) sc.id; created_at = env.now; updated_at = env.now }
  | some old ↦ record sc {
    created_at = old.created_at;
    last_run_day = if sc.last_run_day == "" then old.last_run_day else sc.last_run_day;
    updated_at = env.now;
  }
]

unfoldable pub schedules_with : Env → Schedule → Store → List Schedule
schedules_with env sc s =
    upserted schedule_id (existing schedule_id sc.id s.file.schedules) (stored_schedule env sc s)
      s.file.schedules

unfoldable pub upsert_schedule : Env → Schedule → Store → Store × Schedule × Option String
upsert_schedule env given s =
    let named = record given { name = trim_space given.name } in
    let acting = record named { action = to_lower (trim_space given.action) } in
    if named.name == ""
    then (s, zero_schedule, some "name is required")
    else if not (acting.action == "wake") && not (acting.action == "shutdown")
    then (s, zero_schedule, some "action must be wake or shutdown")
    else if given.device_id == "" && given.group_id == ""
    then (s, zero_schedule, some "deviceId or groupId required")
    else let sc = normalize_schedule_fields acting in
      saving env (with_schedules s (schedules_with env sc s)) (stored_schedule env sc s)
        zero_schedule

-- LastRunDay is set in the first schedule with this id.
unfoldable pub mark_schedule_run : Env → String → String → Store → Store × Option String
mark_schedule_run env id day s = elim (find schedule_id id s.file.schedules) [
  | none ↦ (s, some (not_found "schedule" id))
  | some sc ↦
      save_locked env
        (with_schedules s (replace schedule_id (record sc { last_run_day = day }) s.file.schedules))
]

unfoldable pub delete_schedule : Env → String → Store → Store × Option String
delete_schedule env id s =
    if is_some (find schedule_id id s.file.schedules)
    then save_locked env (with_schedules s (remove schedule_id id s.file.schedules))
    else (s, some (not_found "schedule" id))
