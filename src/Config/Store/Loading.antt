-- ===== src/Config/Store/Loading.antt =====
-- internal/config/store.go, lines 106 to 214: reading the configuration when the server starts.

pub mod Migration
pub mod Opened
use Prim.Native.String
use wakehub.Base.{
  String, Bool, true, false, ◌||◌, none, some, if◌then◌else◌, ◌==◌, [], ltb, Result, ok, err,
}
use wakehub.Text.{trim_space}
use wakehub.Config.{
  Settings, File, default_listen, default_ws_path, default_auth_user, default_auth_password,
  current_config_version,
}
use wakehub.Config.Password.{Bcrypt}
use wakehub.Config.Normalize.{default_password_hash, normalize}
use wakehub.Config.Store.{Content, empty, malformed, json, Store, Env, save_locked}

unfoldable pub default_file : Bcrypt → File
default_file crypt = record {
  version = current_config_version;
  settings = record {
    listen = default_listen;
    bemfa_uid = "";
    client_token = "";
    ws_path = default_ws_path;
    basic_auth_enable = true;
    basic_auth_user = default_auth_user;
    basic_auth_password = default_password_hash crypt;
    global_managed_by_luci = false;
    web_global_mode = "";
    notify_webhook = "";
    notify_on_wake = false;
    notify_on_shutdown = false;
    notify_on_probe_change = false;
    notify_on_schedule = false;
  };
  devices = [];
  groups = [];
  schedules = [];
}

-- The settings of a file that has no key "basicAuthEnable".
unfoldable pub enable_basic_auth : Settings → Settings
enable_basic_auth st = record st {
  basic_auth_enable = true;
  basic_auth_user =
      if trim_space st.basic_auth_user == "" then default_auth_user else st.basic_auth_user;
  basic_auth_password =
      if trim_space st.basic_auth_password == ""
      then default_auth_password
      else st.basic_auth_password;
}

-- What os.ReadFile answers: there is no file, an error, or the file's bytes.
pub data Reading : Type 0 where
  absent : Reading
  unreadable : String → Reading
  holds : Content → Reading

-- The data that the file's bytes give, and whether they have no key "basicAuthEnable".
unfoldable pub parse : Bcrypt → Content → Result (File × Bool)
parse crypt empty = ok (default_file crypt, false)
parse crypt (malformed e) = err (String.◌++◌ "parse config: " e)
parse crypt (json overwrite has_key) =
    let file = overwrite (default_file crypt) in
    if has_key
    then ok (file, false)
    else ok (record file { settings = enable_basic_auth file.settings }, true)

-- The data that the store starts with, and whether to save it.
unfoldable pub migrate : Bcrypt → File × Bool → File × Bool
migrate crypt (file, enabled) =
    let (normal, dirty) = normalize crypt file in
    let old = ltb normal.version current_config_version in
    (
      if old then record normal { version = current_config_version } else normal,
      enabled || dirty || old,
    )

-- Open, once the directory is there. A migrated file is copied to its backup first.
unfoldable pub open_store : Bcrypt → Env → Reading → Result Store
open_store crypt env absent =
    let fresh : Store = record { file = default_file crypt; disk = none; backup = none } in
    let (s, failed) = save_locked env fresh in elim failed [ none ↦ ok s | some e ↦ err e ]
open_store crypt env (unreadable e) = err e
open_store crypt env (holds content) = elim (parse crypt content) [
  | err e ↦ err e
  | ok parsed ↦
      let (file, changed) = migrate crypt parsed in
      if changed
      then (let copied : Store = record {
        file = file;
        disk = some content;
        backup = some content;
      } in
          let (s, failed) = save_locked env copied in
          elim failed [ none ↦ ok s | some e ↦ err (String.◌++◌ "migrate config: " e) ])
      else ok (record { file = file; disk = some content; backup = none })
]
