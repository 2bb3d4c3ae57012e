-- ===== src/Config/Store/Globals.antt =====
-- internal/config/store.go, lines 304 to 405: the global settings.

use wakehub.Base.{String, Bool, true, false, ◌&&◌, not, Option, none, some, if◌then◌else◌, ◌==◌}
use wakehub.Text.{trim_space, equal_fold}
use wakehub.Config.{Settings, default_listen, default_ws_path, default_auth_user}
use wakehub.Config.Random.{random_token}
use wakehub.Config.Password.{Bcrypt, ensure_password_hashed, is_default_password}
use wakehub.Config.Normalize.{default_password_hash}
use wakehub.Config.Store.{Store, Env, save_locked}

abbrev pub with_settings : Store → Settings → Store
with_settings s st = record s { file = record s.file { settings = st } }

-- The method `Settings`.
unfoldable pub settings : Store → Settings
settings s = s.file.settings

abbrev with_defaults : Settings → Settings
with_defaults st = record st {
  listen = if st.listen == "" then default_listen else st.listen;
  ws_path = if st.ws_path == "" then default_ws_path else st.ws_path;
  basic_auth_user =
      if trim_space st.basic_auth_user == "" then default_auth_user else st.basic_auth_user;
}

-- The callback changes the settings in place and may fail after it has changed some of them; the
-- store keeps what it did.
unfoldable pub update_settings :
    Bcrypt → Env → (Settings → Settings × Option String) → Store → Store × Option String
update_settings crypt env change s =
    let (changed, failed) = change s.file.settings in
    elim failed [
      | some e ↦ (with_settings s changed, some e)
      | none ↦
          let st = with_defaults changed in
          if trim_space st.basic_auth_password == ""
          then save_locked env
              (with_settings s (record st { basic_auth_password = default_password_hash crypt }))
          else let (kept, _, refused) = ensure_password_hashed crypt st.basic_auth_password in
            let s' = with_settings s (record st { basic_auth_password = kept }) in
            elim refused [ some e ↦ (s', some e) | none ↦ save_locked env s' ]
    ]

unfoldable pub globals_writable : Settings → Bool
globals_writable st =
    if not st.global_managed_by_luci
    then true
    else equal_fold (trim_space st.web_global_mode) "writeback"

-- The keys of the map that `Public` returns.
pub record PublicSettings : Type 0 where
  pub listen : String
  pub bemfa_uid : String
  pub client_token : String
  pub ws_path : String
  pub basic_auth_enable : Bool
  pub basic_auth_user : String
  pub basic_auth_password_set : Bool
  pub basic_auth_using_default : Bool
  pub global_managed_by_luci : Bool
  pub web_global_mode : String
  pub global_settings_writable : Bool
  pub notify_webhook : String
  pub notify_on_wake : Bool
  pub notify_on_shutdown : Bool
  pub notify_on_probe_change : Bool
  pub notify_on_schedule : Bool

unfoldable pub public : Bcrypt → Settings → PublicSettings
public crypt st =
    let mode = trim_space st.web_global_mode in
    record {
      listen = st.listen;
      bemfa_uid = st.bemfa_uid;
      client_token = st.client_token;
      ws_path = st.ws_path;
      basic_auth_enable = st.basic_auth_enable;
      basic_auth_user = st.basic_auth_user;
      basic_auth_password_set = not (trim_space st.basic_auth_password == "");
      basic_auth_using_default = is_default_password crypt st.basic_auth_password;
      global_managed_by_luci = st.global_managed_by_luci;
      web_global_mode = if st.global_managed_by_luci && mode == "" then "readonly" else mode;
      global_settings_writable = globals_writable st;
      notify_webhook = st.notify_webhook;
      notify_on_wake = st.notify_on_wake;
      notify_on_shutdown = st.notify_on_shutdown;
      notify_on_probe_change = st.notify_on_probe_change;
      notify_on_schedule = st.notify_on_schedule;
    }

-- The result is `none` where RandomToken panics; otherwise the token, whether it is new, and the
-- error of saving it.
unfoldable pub ensure_client_token : Env → Store → Store × Option (String × Bool × Option String)
ensure_client_token env s =
    let st = s.file.settings in
    if not (trim_space st.client_token == "")
    then (s, some (st.client_token, false, none))
    else elim (random_token env.read 32) [
      | none ↦ (s, none)
      | some tok ↦
          let (s', failed) = save_locked env (with_settings s (record st { client_token = tok })) in
          elim failed [
            | none ↦ (s', some (tok, true, none))
            | some e ↦ (s', some ("", false, some e))
          ]
    ]
