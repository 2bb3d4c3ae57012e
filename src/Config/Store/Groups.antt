-- ===== src/Config/Store/Groups.antt =====
-- internal/config/store.go, lines 498 to 574: the operations on groups.
use wakehub.Base.{String, List, [], Option, none, some, if◌then◌else◌, ◌==◌, is_some}
use wakehub.Text.{trim_space}
use wakehub.Config.{Group}
use wakehub.Config.Table.{upserted, existing, id_or, find, remove}
use wakehub.Config.Store.{Store, Env, save_locked, saving, new_id, with_groups, not_found, group_id}

abbrev pub zero_group : Group
zero_group = record { id = ""; name = ""; device_ids = []; created_at = 0; updated_at = 0 }

unfoldable pub list_groups : Store → List Group
list_groups s = s.file.groups

unfoldable pub get_group : Store → String → Option Group
get_group s id = find group_id id s.file.groups

unfoldable pub stored_group : Env → Group → Store → Group
stored_group env g s = elim (existing group_id g.id s.file.groups) [
  | none ↦ record g { id = id_or (new_id env) g.id; created_at = env.now; updated_at = env.now }
  | some old ↦ record g { created_at = old.created_at; updated_at = env.now }
]

unfoldable pub groups_with : Env → Group → Store → List Group
groups_with env g s =
    upserted group_id (existing group_id g.id s.file.groups) (stored_group env g s) s.file.groups

unfoldable pub upsert_group : Env → Group → Store → Store × Group × Option String
upsert_group env given s =
    let g = record given { name = trim_space given.name } in
    if g.name == ""
    then (s, zero_group, some "name is required")
    else saving env (with_groups s (groups_with env g s)) (stored_group env g s) zero_group

unfoldable pub delete_group : Env → String → Store → Store × Option String
delete_group env id s =
    if is_some (find group_id id s.file.groups)
    then save_locked env (with_groups s (remove group_id id s.file.groups))
    else (s, some (not_found "group" id))
