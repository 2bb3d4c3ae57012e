-- ===== src/Client/Install.antt =====
-- internal/clientapp/install.go: the installation of the client as a service, and log.go, the log file
-- of the service.
pub mod Running
use Prim.Native.String.{◌++◌ as ◌<>◌}
use wakehub.Base.{ℕ, String, Option, none, some, Result, ok, err, if◌then◌else◌, ◌==◌, ltb}
use wakehub.Os.{Os}
use wakehub.Services.{Platform}
use wakehub.Client.Settings.{Overrides, System, default_path, merge_install_config}
use wakehub.Client.Files.{Json, load, save}
use wakehub.Client.Quote.{build_service_command}

pub record InstallOptions : Type 0 where
  pub flags : Overrides
  pub exe : String
  pub service_name : String
  pub display_name : String

-- What is asked of the library besides: filepath.Dir and Abs of a path, and os.Executable.
pub record Paths : Type 0 where
  pub parent : String → String
  pub absolute : String → String
  pub executable : Result String

abbrev pub default_service_name : String
default_service_name = "wakehub-client"

abbrev pub named_or : String → String → String
named_or given fallback = if given == "" then fallback else given

abbrev pub service_name : InstallOptions → String
service_name o = named_or o.service_name default_service_name

abbrev pub display_name : InstallOptions → String
display_name o = named_or o.display_name "WakeHub Client"

unfoldable pub exe_of : Paths → InstallOptions → Result String
exe_of paths o =
    if o.exe == ""
    then elim paths.executable [ err e ↦ err e | ok exe ↦ ok (paths.absolute exe) ]
    else ok o.exe

module _ {W : Type 0} (os : Os W) (json : Json) (paths : Paths) where
  -- The system with the files of the machine.
  abbrev pub system_at : System → W → System
  system_at sys w = record sys { load = λ path. load os json path w }

  abbrev pub config_path : System → InstallOptions → String
  config_path sys o = named_or o.flags.config_path (default_path sys)

  -- The part that meets the service manager.
  unfoldable pub register : Platform W → System → InstallOptions → W → W × Option String
  register platform sys o w = elim (exe_of paths o) [
    | err e ↦ (w, some e)
    | ok exe ↦
        let (w', existed) = platform.exists (service_name o) w in
        platform.install (service_name o) (display_name o)
          (build_service_command platform.windows exe (config_path sys o)) w'
  ]

  unfoldable pub install_service : Platform W → System → InstallOptions → W → W × Option String
  install_service platform sys o w =
      let path = config_path sys o in
      elim (merge_install_config (system_at sys w) path o.flags) [
        | err e ↦ (w, some ("merge config: " <> e))
        | ok cfg ↦
            let (w', unsaved) = save os json (paths.parent path) path cfg w in
            elim unsaved [
              | some e ↦ (w', some ("save config: " <> e))
              | none ↦ register platform sys o w'
            ]
      ]

  unfoldable pub uninstall_service : Platform W → String → W → W × Option String
  uninstall_service platform name w = platform.uninstall (named_or name default_service_name) w

  -- `size` is what os.Stat says of a file, if it has no error.
  unfoldable pub rotate_log_if_needed : (String → W → Option ℕ) → String → ℕ → W → W
  rotate_log_if_needed size path max_bytes w = elim (size path w) [
    | none ↦ w
    | some n ↦
        if ltb n max_bytes
        then w
        else (os.rename path (path <> ".1") (os.remove (path <> ".1") w).0).0
  ]
