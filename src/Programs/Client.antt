-- ===== src/Programs/Client.antt =====
-- cmd/client/main.go: the commands of the client. What they print is not modelled, and the flags are
-- parsed by the library.
pub mod Commands
pub mod Updating
use wakehub.Base.{
  ℕ, String, Bool, true, false, ◌||◌, List, [], ◌∷◌, Option, none, some, Result, ok, err,
  if◌then◌else◌, ◌==◌,
}
use wakehub.Text.{trim_space, has_prefix}
use wakehub.Os.{Os}
use wakehub.Services.{Platform}
use wakehub.Client.Settings.{Overrides, System, ClientConfig, load_merged}
use wakehub.Client.Reconnect.{Round, Exit, clean, permanent, initial_backoff, run}
use wakehub.Client.Files.{Json}
use wakehub.Client.Install.{
  InstallOptions, Paths, default_service_name, system_at, install_service, uninstall_service,
}
use wakehub.Client.Update.{Target, Response, UpdateInfo, Download, check_update, apply_update}

-- What flag.Parse returns: the flags, flag.ErrHelp, or another error.
pub data Parsed (F : Type 0) : Type 0 where
  given : F → Parsed F
  asks_help : Parsed F
  misused : Parsed F

pub record UpdateFlags : Type 0 where
  pub repo : String
  pub with_service : Bool

-- The flag sets of the commands; that of `update` has a default for -repo. The flag -version of
-- `run` is `none`.
pub record Flags : Type 0 where
  pub run : List String → Parsed (Option Overrides)
  pub install : List String → Parsed Overrides
  pub update : String → List String → Parsed UpdateFlags

-- The machine and the network around the program: its parts, the service manager, the system that
-- the settings are looked for in, the rounds of a run with these settings, the answers of the
-- releases, the variable WAKEHUB_RELEASE_REPO, and the version of the program.
pub record World (W : Type 0) : Type 0 where
  pub os : Os W
  pub json : Json
  pub paths : Paths
  pub net : Download W
  pub platform : Platform W
  pub system : System
  pub rounds : ClientConfig → List Round
  pub target : Target
  pub get : String → String → Result Response
  pub repo_variable : String
  pub version : String

-- envOr
abbrev pub env_or : String → String → String
env_or variable fallback = let v = trim_space variable in if v == "" then fallback else v

-- The status of an error.
abbrev status_of : Option String → ℕ
status_of none = 0
status_of (some e) = 1

-- How Run returns: nil, or an error, or not at all.
unfoldable pub run_status : List ℕ × Option Exit → Option ℕ
run_status (waits, none) = none
run_status (waits, some clean) = some 0
run_status (waits, some (permanent message code)) = some 1

abbrev pub is_help : String → Bool
is_help verb = (verb == "help" || verb == "-h") || verb == "--help"

abbrev pub is_managing : String → Bool
is_managing verb =
    (((verb == "install" || verb == "uninstall") || verb == "start") || verb == "stop")
    || verb == "status"

abbrev pub is_version : String → Bool
is_version verb = ((verb == "version" || verb == "-version") || verb == "--version") || verb == "-v"

-- A command that ends at once with a status, after it has changed the machine.
abbrev at_once : {W : Type 0} → W × ℕ → W × Option ℕ
at_once (w, status) = (w, some status)

module _ {W : Type 0} (flags : Flags) (world : World W) where
  -- runClientCtx: the status to exit with, or none where the client goes on.
  unfoldable pub run_client : List String → W → Option ℕ
  run_client arguments w = elim (flags.run arguments) [
    | asks_help ↦ some 0
    | misused ↦ some 2
    | given none ↦ some 0
    | given (some o) ↦
        elim (load_merged (system_at world.os world.json world.paths world.system w) o) [
          | err e ↦ some 2
          | ok (cfg, file) ↦ run_status (run initial_backoff (world.rounds cfg))
        ]
  ]

  unfoldable pub run_install : List String → W → W × ℕ
  run_install arguments w = elim (flags.install arguments) [
    | asks_help ↦ (w, 0)
    | misused ↦ (w, 2)
    | given o ↦
        let (w', failed) =
          install_service world.os world.json world.paths world.platform world.system
            (record { flags = o; exe = ""; service_name = ""; display_name = "" }) w in
        (w', status_of failed)
  ]

  unfoldable pub run_service : List String → W → W × ℕ
  run_service [] w = (w, 2)
  run_service (verb ∷ rest) w =
      if is_help verb
      then (w, 0)
      else if verb == "install"
      then run_install rest w
      else if verb == "uninstall"
      then (let (w', failed) =
            uninstall_service world.os world.json world.paths world.platform "" w in
          (w', status_of failed))
      else if verb == "start"
      then world.platform.start default_service_name w
      else if verb == "stop"
      then world.platform.stop default_service_name w
      else if verb == "status"
      then world.platform.status default_service_name w
      else (w, 2)

  -- The case "apply", for a release that is newer.
  unfoldable pub stopped_for : UpdateFlags → W → W
  stopped_for f w = if f.with_service then (world.platform.stop default_service_name w).0 else w

  -- The start of the service once the update has come to an end, and the status.
  unfoldable pub restarted : Bool → W × Option String → W × ℕ
  restarted true (w, none) = world.platform.start default_service_name w
  restarted true (w, some e) = ((world.platform.start default_service_name w).0, 1)
  restarted false (w, none) = (w, 0)
  restarted false (w, some e) = (w, 1)

  unfoldable pub apply_release : UpdateFlags → UpdateInfo → W → W × ℕ
  apply_release f info w =
      restarted f.with_service (apply_update world.os world.net (some info) (stopped_for f w))

  -- The switch over the verb, once the release is known.
  unfoldable pub with_release : String → UpdateFlags → Option UpdateInfo → W → W × ℕ
  with_release verb f none w = (w, 1)
  with_release verb f (some info) w =
      if verb == "check"
      then (w, 0)
      else if verb == "apply"
      then (if info.up_to_date then (w, 0) else apply_release f info w)
      else (w, 2)

  unfoldable pub with_flags : String → Parsed UpdateFlags → W → W × ℕ
  with_flags verb asks_help w = (w, 2)
  with_flags verb misused w = (w, 2)
  with_flags verb (given f) w =
      with_release verb f (check_update world.target world.get world.version f.repo).0 w

  unfoldable pub run_update : List String → W → W × ℕ
  run_update [] w = (w, 2)
  run_update (verb ∷ rest) w =
      if is_help verb
      then (w, 0)
      else with_flags verb (flags.update (env_or world.repo_variable "leganck/wakehub") rest) w

  -- The commands, by the arguments of the program.
  unfoldable pub main : List String → W → W × Option ℕ
  main [] w = (w, some 0)
  main (cmd ∷ rest) w =
      if is_help cmd
      then (w, some 0)
      else if is_version cmd
      then (w, some 0)
      else if cmd == "run"
      then (w, run_client rest w)
      else if cmd == "service"
      then at_once (run_service rest w)
      else if cmd == "update"
      then at_once (run_update rest w)
      else if is_managing cmd
      then at_once (run_service (cmd ∷ rest) w)
      else if has_prefix cmd "-"
      then (w, run_client (cmd ∷ rest) w)
      else (w, some 2)
