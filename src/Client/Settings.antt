-- ===== src/Client/Settings.antt =====
-- internal/clientcfg/config.go, and merge.go and power.go of internal/clientapp: the settings of the
-- client, in files and from the command line.
pub mod Installation
use Prim.Native.String
use Prim.Native.String.{len, slice}
use wakehub.Base.{
  ℕ, ◌-◌, String, Bool, true, false, ◌&&◌, ◌||◌, not, Option, none, some, if◌then◌else◌, ◌==◌, leb,
  Result, ok, err,
}
use wakehub.Text.{trim_space, equal_fold}

pub record ClientConfig : Type 0 where
  pub server : String
  pub token : String
  pub key : String
  pub shutdown_cmd : String
  pub mdns : Option Bool

abbrev pub zero_config : ClientConfig
zero_config = record { server = ""; token = ""; key = ""; shutdown_cmd = ""; mdns = none }

pub record Overrides : Type 0 where
  pub config_path : String
  pub server : String
  pub token : String
  pub key : String
  pub shutdown_cmd : String
  pub mdns : String

-- What Load returns: the settings, or an error, which is os.ErrNotExist or another.
pub data Loaded : Type 0 where
  found : ClientConfig → Loaded
  missing : String → Loaded
  broken : String → Loaded

-- What the functions meet outside: what Load makes of the file at a path, os.Hostname, whether the
-- system is Windows, the variable ProgramData, filepath.Join of it with the two names that follow,
-- and whether exec.LookPath finds a program.
pub record System : Type 0 where
  pub load : String → Loaded
  pub hostname : String
  pub windows : Bool
  pub program_data : String
  pub join : String → String
  pub look_path : String → Bool

unfoldable pub default_path : System → String
default_path sys =
    if sys.windows
    then sys.join (if sys.program_data == "" then "C:\\ProgramData" else sys.program_data)
    else "/etc/wakehub-client/config.json"

unfoldable pub default_shutdown_cmd : System → String
default_shutdown_cmd sys =
    if sys.windows
    then "shutdown /s /t 0"
    else if sys.look_path "systemctl"
    then "systemctl poweroff"
    else if sys.look_path "poweroff"
    then "poweroff"
    else if sys.look_path "shutdown"
    then "shutdown -h now"
    else "systemctl poweroff"

-- `run` is the error of the shell, for the line that it is given.
unfoldable pub run_command : (String → Option String) → String → Option String
run_command run given =
    let line = trim_space given in if line == "" then some "empty command" else run line

-- The lengths and the cuts are in bytes.
unfoldable pub redact_token : String → String
redact_token token =
    if token == ""
    then "(empty)"
    else if leb (len token) 8
    then "****"
    else String.◌++◌ (slice token 0 4) (String.◌++◌ "…" (slice token (len token - 4) (len token)))

unfoldable pub mdns_enabled : ClientConfig → Bool
mdns_enabled cfg = elim cfg.mdns [ none ↦ true | some b ↦ b ]

abbrev pub given_or : String → String → String
given_or given kept = if given == "" then kept else given

unfoldable pub apply_overrides : Overrides → ClientConfig → ClientConfig
apply_overrides o cfg = record {
  server = given_or o.server cfg.server;
  token = given_or o.token cfg.token;
  key = given_or o.key cfg.key;
  shutdown_cmd = given_or o.shutdown_cmd cfg.shutdown_cmd;
  mdns = if o.mdns == "" then cfg.mdns else some (equal_fold o.mdns "true" || o.mdns == "1");
}

abbrev pub default_server : String
default_server = "ws://127.0.0.1:8080/api/ws/client"

-- The defaults that both callers of applyOverrides set.
unfoldable pub with_defaults : System → ClientConfig → ClientConfig
with_defaults sys cfg = record cfg {
  server = given_or cfg.server default_server;
  shutdown_cmd = given_or cfg.shutdown_cmd (default_shutdown_cmd sys);
}

-- The settings, and the file that was loaded, if one was.
unfoldable pub load_merged : System → Overrides → Result (ClientConfig × String)
load_merged sys o =
    let given = trim_space o.config_path in
    let path = if given == "" then default_path sys else given in
    let merged : ClientConfig → ClientConfig = λ cfg. with_defaults sys (apply_overrides o cfg) in
    elim (sys.load path) [
      | found cfg ↦ ok (merged cfg, path)
      | missing e ↦
          if given == ""
          then ok (merged zero_config, "")
          else err (String.◌++◌ "load " (String.◌++◌ path (String.◌++◌ ": " e)))
      | broken e ↦
          if given == ""
          then ok (merged zero_config, "")
          else err (String.◌++◌ "load " (String.◌++◌ path (String.◌++◌ ": " e)))
    ]

-- MergeInstallConfig from the settings that are there.
unfoldable pub install_config : System → Overrides → ClientConfig → ClientConfig
install_config sys o before =
    let cfg = with_defaults sys (apply_overrides o before) in
    record cfg {
      key = given_or cfg.key sys.hostname;
      mdns = elim cfg.mdns [ none ↦ some true | some b ↦ some b ];
    }

unfoldable pub merge_install_config : System → String → Overrides → Result ClientConfig
merge_install_config sys path o = elim (sys.load path) [
  | found cfg ↦ ok (install_config sys o cfg)
  | missing e ↦ ok (install_config sys o zero_config)
  | broken e ↦ err e
]

-- The start of Run: the key and the version that its sessions have.
unfoldable pub client_key : System → ClientConfig → String
client_key sys cfg = given_or cfg.key sys.hostname

unfoldable pub client_version : String → String
client_version version = given_or version "dev"
