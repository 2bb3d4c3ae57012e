-- ===== src/Config.antt =====
-- internal/config: the data that the configuration file holds (store.go, lines 14 to 104). A Go
-- slice is a list, a nil slice the empty one; an `int` that users set is an integer, a Unix time a
-- number.
pub mod Random
pub mod Password
pub mod Normalize
pub mod Listen
pub mod Table
pub mod Store
use wakehub.Base.{ℕ, ℤ, String, Bool, List}

pub record NicInfo : Type 0 where
  pub name : String
  pub mac : String
  pub ipv4 : List String
  pub broadcast : List String

pub record Device : Type 0 where
  pub id : String
  pub name : String
  pub mac : String
  pub broadcast : String
  pub port : ℤ
  pub repeat : ℤ
  pub bemfa_enable : Bool
  pub bemfa_topic : String
  pub bemfa_name : String
  pub bound_client_key : String
  pub preferred_nic : String
  pub probe_method : String
  pub probe_host : String
  pub probe_port : ℤ
  pub probe_interval : ℤ
  pub created_at : ℕ
  pub updated_at : ℕ

pub record Group : Type 0 where
  pub id : String
  pub name : String
  pub device_ids : List String
  pub created_at : ℕ
  pub updated_at : ℕ

pub record Schedule : Type 0 where
  pub id : String
  pub name : String
  pub enabled : Bool
  pub action : String
  pub device_id : String
  pub group_id : String
  pub hour : ℤ
  pub minute : ℤ
  pub weekdays : List ℤ
  pub last_run_day : String
  pub created_at : ℕ
  pub updated_at : ℕ

pub record Settings : Type 0 where
  pub listen : String
  pub bemfa_uid : String
  pub client_token : String
  pub ws_path : String
  pub basic_auth_enable : Bool
  pub basic_auth_user : String
  pub basic_auth_password : String
  pub global_managed_by_luci : Bool
  pub web_global_mode : String
  pub notify_webhook : String
  pub notify_on_wake : Bool
  pub notify_on_shutdown : Bool
  pub notify_on_probe_change : Bool
  pub notify_on_schedule : Bool

pub record File : Type 0 where
  pub version : ℕ
  pub settings : Settings
  pub devices : List Device
  pub groups : List Group
  pub schedules : List Schedule

abbrev pub default_listen : String
default_listen = ":8080"

abbrev pub default_ws_path : String
default_ws_path = "/api/ws/client"

abbrev pub default_auth_user : String
default_auth_user = "admin"

abbrev pub default_auth_password : String
default_auth_password = "admin"

abbrev pub current_config_version : ℕ
current_config_version = 2
