-- ===== src/Web/Globals.antt =====
-- internal/web/server.go, handleSettings, with OnSettingsChanged of internal/device/service.go. The
-- store, the hub and the manager of the topics are what the handler changes.
pub mod Agreement
use Prim.Native.String
use wakehub.Base.{
  ℕ, String, Bool, true, false, ◌&&◌, ◌||◌, not, Option, none, some, if◌then◌else◌, ◌==◌, Result,
  ok, err,
}
use wakehub.Text.{trim_space}
use wakehub.Web.{Method, get, post, put, delete, other}
use wakehub.Config.{Settings}
use wakehub.Config.Password.{Bcrypt, hash_password}
use wakehub.Config.Random.{random_token}
use wakehub.Config.Store.{Store, Env, list_devices}
use wakehub.Config.Store.Globals.{
  settings, update_settings, globals_writable, PublicSettings, public, ensure_client_token,
}
use wakehub.Hub.{Hub, set_token}
use wakehub.Bemfa.{Call, Manager}
use wakehub.Bemfa.Session.{reconfigure}

pub record Site : Type 0 where
  pub store : Store
  pub hub : Hub
  pub manager : Manager

-- The status code, and the keys "error", "warning", "settings" and "tokenGenerated", "", `none` or
-- `false` where the answer does not have them.
pub record Answer : Type 0 where
  pub code : ℕ
  pub error : String
  pub warning : String
  pub shown : Option PublicSettings
  pub token_generated : Bool

abbrev pub refusal : ℕ → String → Answer
refusal code e = record {
  code = code;
  error = e;
  warning = "";
  shown = none;
  token_generated = false;
}

abbrev pub shows : PublicSettings → Option String → Answer
shows st warning = record {
  code = 200;
  error = "";
  warning = elim warning [ none ↦ "" | some w ↦ w ];
  shown = some st;
  token_generated = false;
}

-- The case of GET. It panics where RandomToken does, which is `none`.
unfoldable pub get_settings : Bcrypt → Env → Site → Option (Site × Answer)
get_settings crypt env site =
    let (s, made) = ensure_client_token env site.store in
    elim made [
      | none ↦ none
      | some (tok, fresh, failed) ↦ elim failed [
        | some e ↦ some (record site { store = s }, refusal 500 e)
        | none ↦ some (
          record site { store = s; hub = if fresh then set_token tok site.hub else site.hub },
          record (shows (public crypt (settings s)) none) { token_generated = fresh },
        )
      ]
    ]

pub record Body : Type 0 where
  pub given : Settings
  pub regenerate_token : Bool

abbrev pub draws_token : Body → Bool
draws_token b = b.regenerate_token || trim_space b.given.client_token == ""

-- The callback of UpdateSettings but for the password; `drawn` is what RandomToken gave.
unfoldable pub changed : String → Body → Settings → Settings
changed drawn b st = record st {
  listen = b.given.listen;
  bemfa_uid = trim_space b.given.bemfa_uid;
  client_token = if draws_token b then drawn else b.given.client_token;
  ws_path = if b.given.ws_path == "" then st.ws_path else b.given.ws_path;
  basic_auth_enable = b.given.basic_auth_enable;
  basic_auth_user = trim_space b.given.basic_auth_user;
}

abbrev pub notifying : Body → Settings → Settings
notifying b st = record st {
  notify_webhook = trim_space b.given.notify_webhook;
  notify_on_wake = b.given.notify_on_wake;
  notify_on_shutdown = b.given.notify_on_shutdown;
  notify_on_probe_change = b.given.notify_on_probe_change;
  notify_on_schedule = b.given.notify_on_schedule;
}

-- The whole callback. An error of the hashing leaves what was changed before it.
unfoldable pub change_settings : Bcrypt → String → Body → Settings → Settings × Option String
change_settings crypt drawn b st =
    let st' = changed drawn b st in
    let password = trim_space b.given.basic_auth_password in
    if password == "" then (notifying b st', none) else elim (hash_password crypt password) [
      | err e ↦ (st', some e)
      | ok hash ↦ (notifying b (record st' { basic_auth_password = hash }), none)
    ]

unfoldable pub on_settings_changed : Call → Site → Site × Option String
on_settings_changed call site =
    let st = settings site.store in
    let (m, failed) = reconfigure call st.bemfa_uid (list_devices site.store) site.manager in
    (record site { hub = set_token st.client_token site.hub; manager = m }, failed)

-- `uci` is the error of WriteGlobals.
unfoldable pub apply_settings : Bcrypt → Call → (Settings → Option String) → Site → Site × Answer
apply_settings crypt call uci site =
    let st = settings site.store in
    let unwritten : Option String =
      if st.global_managed_by_luci && globals_writable st then uci st else none in
    elim unwritten [
      | some e ↦
          (site, shows (public crypt st) (some (String.◌++◌ "已写入 config.json，但同步 UCI 失败: " e)))
      | none ↦
          let (site', failed) = on_settings_changed call site in
          (site', shows (public crypt st) failed)
    ]

-- The case of PUT once the body is read and the token drawn.
unfoldable pub store_settings :
    Bcrypt → Env → Call → (Settings → Option String) → String → Body → Site → Site × Answer
store_settings crypt env call uci drawn b site =
    let (s, failed) = update_settings crypt env (change_settings crypt drawn b) site.store in
    elim failed [
      | some e ↦ (record site { store = s }, refusal 500 e)
      | none ↦ apply_settings crypt call uci (record site { store = s })
    ]

-- The case of PUT: `body` is what readJSON makes of it. It panics where RandomToken does.
unfoldable pub put_settings :
    Bcrypt → Env → Call → (Settings → Option String) → Result Body → Site → Option (Site × Answer)
put_settings crypt env call uci body site =
    if not (globals_writable (settings site.store))
    then some (
      site,
      refusal 403 "全局设置由 LuCI/UCI 管理，Web 端为只读。请在「服务 → WakeHub」修改，或将 web_global_mode 设为 writeback。",
    )
    else elim body [
      | err e ↦ some (site, refusal 400 e)
      | ok b ↦
          if draws_token b
          then elim (random_token env.read 32) [
            | none ↦ none
            | some drawn ↦ some (store_settings crypt env call uci drawn b site)
          ]
          else some (store_settings crypt env call uci "" b site)
    ]

unfoldable pub handle_settings :
    Bcrypt
    → Env
    → Call
    → (Settings → Option String)
    → Method
    → Result Body
    → Site
    → Option (Site × Answer)
handle_settings crypt env call uci get body site = get_settings crypt env site
handle_settings crypt env call uci put body site = put_settings crypt env call uci body site
handle_settings crypt env call uci post body site = some (site, refusal 405 "method not allowed")
handle_settings crypt env call uci delete body site = some (site, refusal 405 "method not allowed")
handle_settings crypt env call uci other body site = some (site, refusal 405 "method not allowed")
