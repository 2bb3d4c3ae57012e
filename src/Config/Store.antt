-- ===== src/Config/Store.antt =====
-- internal/config/store.go: the store and its operations on devices, groups and schedules. The
-- store's lock makes each operation one step; a method returns the new store and its results, a Go
-- `error` being its message or `none`. What the environment contributes to a call is an `Env`. The
-- getters copy the slices that they return, so no caller shares memory with the store.
pub mod Groups
pub mod Schedules
pub mod Lookup
pub mod Deletion
pub mod Globals
pub mod Loading
pub mod Requests
use Prim.Native.String
use wakehub.Base.{
  ℕ, ℤ, pos, String, Bool, true, false, ◌&&◌, ◌||◌, not, List, [], ◌∷◌, ◌++◌, map, Option, none,
  some, if◌then◌else◌, ◌==◌, nat_eq, leb_ℤ, ltb_ℤ, filter_by, is_some,
}
use wakehub.Text.{trim_space, to_lower}
use wakehub.Config.{Device, Group, Schedule, Settings, File}
use wakehub.Config.Random.{random_id}
use wakehub.Config.Normalize.{normalize_device_fields, normalize_schedule_fields}
use wakehub.Config.Table.{upserted, existing, id_or, find, replace, remove}

-- The bytes of the configuration file, as json.Unmarshal reads them: no byte, a text that it
-- refuses, or one that overwrites the fields that it names, with whether `settings` has the key
-- "basicAuthEnable".
pub data Content : Type 0 where
  empty : Content
  malformed : String → Content
  json : (File → File) → Bool → Content

-- json.MarshalIndent of a whole `File`: every field that it leaves out is the zero value.
unfoldable pub encode : File → Content
encode f = json (λ _. f) true

pub record Store : Type 0 where
  pub file : File
  pub disk : Option Content
  pub backup : Option Content

-- time.Now().Unix(), rand.Read, and the first error of the four calls that write the file.
pub record Env : Type 0 where
  pub now : ℕ
  pub read : ℕ → Option (List ℕ)
  pub save : Option String

-- The file is written beside the configuration and renamed over it, so a failure leaves the
-- configuration file as it was.
unfoldable pub save_locked : Env → Store → Store × Option String
save_locked env s = elim env.save [
  | none ↦ (record s { disk = some (encode s.file) }, none)
  | some e ↦ (s, some e)
]

-- The result of a method that ends in `if err := s.saveLocked(); err != nil { return zero, err }`.
abbrev pub saving : {A : Type 0} → Env → Store → A → A → Store × A × Option String
saving env s value zero =
    let (s', failed) = save_locked env s in
    elim failed [ none ↦ (s', value, none) | some e ↦ (s', zero, some e) ]

-- randomID(10), which never panics
unfoldable pub new_id : Env → String
new_id env = elim (random_id env.read 10) [ some id ↦ id | none ↦ "" ]

abbrev pub zero_device : Device
zero_device = record {
  id = "";
  name = "";
  mac = "";
  broadcast = "";
  port = pos 0;
  repeat = pos 0;
  bemfa_enable = false;
  bemfa_topic = "";
  bemfa_name = "";
  bound_client_key = "";
  preferred_nic = "";
  probe_method = "";
  probe_host = "";
  probe_port = pos 0;
  probe_interval = pos 0;
  created_at = 0;
  updated_at = 0;
}

abbrev pub device_id : Device → String
device_id d = d.id

abbrev pub group_id : Group → String
group_id g = g.id

abbrev pub schedule_id : Schedule → String
schedule_id sc = sc.id

abbrev pub with_devices : Store → List Device → Store
with_devices s ds = record s { file = record s.file { devices = ds } }

abbrev pub with_groups : Store → List Group → Store
with_groups s gs = record s { file = record s.file { groups = gs } }

abbrev pub with_schedules : Store → List Schedule → Store
with_schedules s scs = record s { file = record s.file { schedules = scs } }

unfoldable pub list_devices : Store → List Device
list_devices s = s.file.devices

unfoldable pub get_device : Store → String → Option Device
get_device s id = find device_id id s.file.devices

-- The entry that UpsertDevice stores, and the devices with it.
unfoldable pub stored_device : Env → Device → Store → Device
stored_device env d s = elim (existing device_id d.id s.file.devices) [
  | none ↦ record d { id = id_or (new_id env) d.id; created_at = env.now; updated_at = env.now }
  | some old ↦ record d {
    created_at = if nat_eq old.created_at 0 then env.now else old.created_at;
    updated_at = env.now;
  }
]

unfoldable pub devices_with : Env → Device → Store → List Device
devices_with env d s =
    upserted device_id (existing device_id d.id s.file.devices) (stored_device env d s)
      s.file.devices

abbrev pub with_wol_defaults : Device → Device
with_wol_defaults d = record d {
  port = if leb_ℤ d.port (pos 0) || ltb_ℤ (pos 65535) d.port then pos 9 else d.port;
  repeat = if leb_ℤ d.repeat (pos 0) || ltb_ℤ (pos 20) d.repeat then pos 3 else d.repeat;
}

unfoldable pub upsert_device : Env → Device → Store → Store × Device × Option String
upsert_device env given s =
    if given.name == ""
    then (s, zero_device, some "name is required")
    else if given.mac == ""
    then (s, zero_device, some "mac is required")
    else let d = normalize_device_fields (with_wol_defaults given) in
      saving env (with_devices s (devices_with env d s)) (stored_device env d s) zero_device

-- ids = append(ids, did) for the ids that differ
abbrev pub without_device : String → Group → Group
without_device id g = record g { device_ids = filter_by (λ did. not (did == id)) g.device_ids }

abbrev pub not_found : String → String → String
not_found kind id = String.◌++◌ kind (String.◌++◌ " " (String.◌++◌ id " not found"))

unfoldable pub delete_device : Env → String → Store → Store × Option String
delete_device env id s =
    if is_some (find device_id id s.file.devices)
    then save_locked env (record s {
      file = record s.file {
        devices = remove device_id id s.file.devices;
        groups = map (without_device id) s.file.groups;
      };
    })
    else (s, some (not_found "device" id))
