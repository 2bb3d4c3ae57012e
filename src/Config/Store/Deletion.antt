-- ===== src/Config/Store/Deletion.antt =====
-- internal/config/store.go, DeleteDevice.
use wakehub.Base.{String, true, map, none, some, ◌==◌, is_some, any, arith, ◌≡◌, ◌≢◌, All}
use wakehub.Config.{Group}
use wakehub.Config.Table.{remove}
use wakehub.Config.Store.{
  Store, Env, encode, device_id, get_device, delete_device, without_device, not_found,
}

abbrev pub Lists : String → Group → Type 0
Lists id g = any (λ did. did == id) g.device_ids ≡ true

-- What a successful DeleteDevice has done.
pub record Deleted (id : String) (s s' : Store) : Type 0 where
  pub existed : is_some (get_device s id) ≡ true
  pub gone : get_device s' id ≡ none
  pub others : (j : String) → id ≢ j → get_device s' j ≡ get_device s j
  pub ungrouped : All (λ g. ¬ (Lists id g)) s'.file.groups
  pub regrouped : s'.file.groups ≡ map (without_device id) s.file.groups
  pub schedules : s'.file.schedules ≡ s.file.schedules
  pub settings : s'.file.settings ≡ s.file.settings
  pub written : s'.disk ≡ some (encode s'.file)

abbrev deleted_store : String → Store → Store
deleted_store id s =
    let file = record s.file {
      devices = remove device_id id s.file.devices;
      groups = map (without_device id) s.file.groups;
    } in
    record s { file = file; disk = some (encode file) }

-- DeleteDevice of an unknown id is an error that changes nothing.
pub delete_device-unknown :
    (env : Env) (id : String) (s : Store)
    → get_device s id ≡ none
    → delete_device env id s ≡ (s, some (not_found "device" id))
unfolding delete_device get_device
delete_device-unknown env id s h = ground arith
