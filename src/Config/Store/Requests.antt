-- ===== src/Config/Store/Requests.antt =====
-- internal/config/store.go: the operations that change the store, as one step function, and the
-- histories that they make.
pub mod Steps
pub mod Shape
use wakehub.Base.{
  String, Bool, true, false, List, [], ◌∷◌, Option, none, some, ◌≡◌, ◌≢◌, All, ◌==◌, ◌⊎◌,
}
use wakehub.Config.{Device, Group, Schedule, Settings, File}
use wakehub.Config.Password.{Bcrypt}
use wakehub.Config.Normalize.Ranges.{IsNormal, IsTimed}
use wakehub.Config.Table.{HasUniqueIds, find}
use wakehub.Config.Store.{
  Store, Env, new_id, device_id, group_id, schedule_id, upsert_device, delete_device, save_locked,
}
use wakehub.Config.Store.Groups.{upsert_group, delete_group}
use wakehub.Config.Store.Schedules.{upsert_schedule, mark_schedule_run, delete_schedule}
use wakehub.Config.Store.Globals.{update_settings, ensure_client_token}

pub data Request : Type 0 where
  put_device : Device → Request
  drop_device : String → Request
  put_group : Group → Request
  drop_group : String → Request
  put_schedule : Schedule → Request
  mark_run : String → String → Request
  drop_schedule : String → Request
  change_settings : (Settings → Settings × Option String) → Request
  ensure_token : Request
  save : Request

-- The error of an answer of EnsureClientToken; a panic is an error too.
abbrev token_error : Option (String × Bool × Option String) → Option String
token_error none = some "panic"
token_error (some (tok, generated, failed)) = failed

-- The store that an operation leaves, and its error.
unfoldable pub serve : Bcrypt → Env → Request → Store → Store × Option String
serve crypt env (put_device d) s = let (s', _, e) = upsert_device env d s in (s', e)
serve crypt env (drop_device id) s = delete_device env id s
serve crypt env (put_group g) s = let (s', _, e) = upsert_group env g s in (s', e)
serve crypt env (drop_group id) s = delete_group env id s
serve crypt env (put_schedule sc) s = let (s', _, e) = upsert_schedule env sc s in (s', e)
serve crypt env (mark_run id day) s = mark_schedule_run env id day s
serve crypt env (drop_schedule id) s = delete_schedule env id s
serve crypt env (change_settings change) s = update_settings crypt env change s
serve crypt env ensure_token s = let (s', r) = ensure_client_token env s in (s', token_error r)
serve crypt env save s = save_locked env s

-- Ids tell entries apart, devices and schedules are normalised.
pub record IsWellFormed (f : File) : Type 0 where
  pub device_ids : HasUniqueIds device_id f.devices
  pub group_ids : HasUniqueIds group_id f.groups
  pub schedule_ids : HasUniqueIds schedule_id f.schedules
  pub devices : All IsNormal f.devices
  pub schedules : All IsTimed f.schedules

-- Where an operation draws an id, it is nobody's: an assumption on rand.Read.
abbrev pub DrawsNew : Env → Request → Store → Type 0
DrawsNew env (put_device d) s = d.id ≡ "" → find device_id (new_id env) s.file.devices ≡ none
DrawsNew env (put_group g) s = g.id ≡ "" → find group_id (new_id env) s.file.groups ≡ none
DrawsNew env (put_schedule sc) s =
    sc.id ≡ "" → find schedule_id (new_id env) s.file.schedules ≡ none
DrawsNew env _ s = Unit {0}

-- The server's history: operations in the order in which they took the lock, each with the
-- environment that it met.
pub data History (crypt : Bcrypt) (s : Store) : Store → Type 0 where
  start : History crypt s s
  step :
      {t u : Store} (env : Env) (r : Request)
      → History crypt s t
      → DrawsNew env r t
      → u ≡ (serve crypt env r t).0
      → History crypt s u
