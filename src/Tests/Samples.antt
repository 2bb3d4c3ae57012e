-- ===== src/Tests/Samples.antt =====
-- The data of the tests.
use wakehub.Base.{
  pos, true, false, ◌&&◌, List, [], ◌∷◌, none, some, if◌then◌else◌, ◌==◌, ok, err, replicate,
}
use wakehub.Config.{Device, Group, Schedule, Settings}
use wakehub.Config.Password.{Bcrypt}
use wakehub.Config.Store.{Store, Env, zero_device}
use wakehub.Config.Store.Schedules.{zero_schedule}
use wakehub.Protocol.{Hello}

-- A bcrypt that knows one password.
abbrev pub crypt : Bcrypt
crypt = record {
  generate = λ p. if p == "admin" then ok "$2a$10$admin" else err "too long";
  compare = λ h p. h == "$2a$10$admin" && p == "admin";
}

abbrev pub env : Env
env = record { now = 1700000000; read = λ n. some (replicate n 0xab); save = none }

abbrev pub pc : Device
pc = record zero_device { name = "pc"; mac = "aa:bb:cc:dd:ee:ff"; bound_client_key = "key" }

abbrev pub stored_pc : Device
stored_pc = record pc {
  id = "d1";
  port = pos 9;
  repeat = pos 3;
  probe_method = "off";
  probe_interval = pos 60;
}

abbrev pub desk : Group
desk = record { id = "g1"; name = "desk"; device_ids = "d1" ∷ []; created_at = 1; updated_at = 1 }

abbrev pub morning : Schedule
morning = record zero_schedule {
  id = "s1";
  name = "morning";
  enabled = true;
  action = "wake";
  device_id = "d1";
  hour = pos 7;
  minute = pos 30;
}

abbrev pub plain_settings : Settings
plain_settings = record {
  listen = ":8080";
  bemfa_uid = "";
  client_token = "secret";
  ws_path = "/api/ws/client";
  basic_auth_enable = true;
  basic_auth_user = "admin";
  basic_auth_password = "$2a$10$admin";
  global_managed_by_luci = false;
  web_global_mode = "";
  notify_webhook = "";
  notify_on_wake = false;
  notify_on_shutdown = false;
  notify_on_probe_change = false;
  notify_on_schedule = false;
}

abbrev pub store_of : List Device → List Group → List Schedule → Store
store_of ds gs scs = record {
  file = record {
    version = 2;
    settings = plain_settings;
    devices = ds;
    groups = gs;
    schedules = scs;
  };
  disk = none;
  backup = none;
}

abbrev pub empty_store : Store
empty_store = store_of [] [] []

abbrev pub full_store : Store
full_store = store_of (stored_pc ∷ []) (desk ∷ []) (morning ∷ [])

abbrev pub hello : Hello
hello = record {
  type = "hello";
  key = "key";
  token = "secret";
  hostname = "pc";
  nics = [];
  version = "1";
  os = "linux";
  arch = "amd64";
}
