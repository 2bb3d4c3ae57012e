-- ===== src/Config/Normalize.antt =====
-- internal/config/store.go, lines 220 to 290: the defaults that a loaded or saved entry is given.
pub mod Ranges
use wakehub.Base.{
  ℤ, pos, negsuc, ok, err, String, Bool, true, false, ◌&&◌, ◌||◌, Option, none, some, List, map,
  leb_ℤ, ltb_ℤ, if◌then◌else◌, ◌==◌,
}
use wakehub.Text.{trim_space, to_lower}
use wakehub.Config.{
  Device, Schedule, Settings, File, default_listen, default_ws_path, default_auth_user,
  default_auth_password,
}
use wakehub.Config.Password.{Bcrypt, hash_password, ensure_password_hashed}

abbrev port_or_default : ℤ → ℤ
port_or_default port = if leb_ℤ port (pos 0) || ltb_ℤ (pos 65535) port then pos 9 else port

abbrev repeat_or_default : ℤ → ℤ
repeat_or_default repeat = if leb_ℤ repeat (pos 0) || ltb_ℤ (pos 20) repeat then pos 3 else repeat

abbrev method_or_off : String → String
method_or_off method = let word = to_lower (trim_space method) in if word == "" then "off" else word

abbrev probe_port_for : String → ℤ → ℤ
probe_port_for method port =
    if method == "tcp" && (leb_ℤ port (pos 0) || ltb_ℤ (pos 65535) port) then pos 3389 else port

abbrev interval_or_default : ℤ → ℤ
interval_or_default interval =
    let positive = if leb_ℤ interval (pos 0) then pos 60 else interval in
    if ltb_ℤ positive (pos 15) then pos 15 else positive

unfoldable pub normalize_device_fields : Device → Device
normalize_device_fields d = record d {
  port = port_or_default d.port;
  repeat = repeat_or_default d.repeat;
  probe_method = method_or_off d.probe_method;
  probe_port = probe_port_for (method_or_off d.probe_method) d.probe_port;
  probe_interval = interval_or_default d.probe_interval;
}

unfoldable pub normalize_schedule_fields : Schedule → Schedule
normalize_schedule_fields sc = record sc {
  action = to_lower (trim_space sc.action);
  hour = if ltb_ℤ sc.hour (pos 0) || ltb_ℤ (pos 23) sc.hour then pos 0 else sc.hour;
  minute = if ltb_ℤ sc.minute (pos 0) || ltb_ℤ (pos 59) sc.minute then pos 0 else sc.minute;
}

-- HashPassword(DefaultAuthPassword), or the plain text where hashing fails
unfoldable pub default_password_hash : Bcrypt → String
default_password_hash crypt = elim (hash_password crypt default_auth_password) [
  | ok h ↦ h
  | err e ↦ default_auth_password
]

-- The first half of `normalize`: the settings, and whether they are to be saved.
unfoldable pub normalize_settings : Bcrypt → Settings → Settings × Bool
normalize_settings crypt st =
    let st' = record st {
      listen = if st.listen == "" then default_listen else st.listen;
      ws_path = if st.ws_path == "" then default_ws_path else st.ws_path;
      basic_auth_user =
          if trim_space st.basic_auth_user == "" then default_auth_user else st.basic_auth_user;
    } in
    if trim_space st.basic_auth_password == ""
    then (record st' { basic_auth_password = default_password_hash crypt }, true)
    else let (kept, changed, failed) = ensure_password_hashed crypt st.basic_auth_password in
      (record st' { basic_auth_password = kept }, changed)

-- The method `normalize` of Store, on the data that the store holds.
unfoldable pub normalize : Bcrypt → File → File × Bool
normalize crypt f =
    let (st, dirty) = normalize_settings crypt f.settings in
    (
      record f {
        settings = st;
        devices = map normalize_device_fields f.devices;
        schedules = map normalize_schedule_fields f.schedules;
      },
      dirty,
    )
