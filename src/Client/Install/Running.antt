-- ===== src/Client/Install/Running.antt =====
-- internal/clientapp/install.go: the service that an installation leaves, by systemd.
use wakehub.Base.{◌≡◌, String, Bool, true, false, Option, some, ok}
use wakehub.Os.{Os}
use wakehub.Os.Files.{IsFiles}
use wakehub.Services.{Platform}
use wakehub.Services.Systemd
use wakehub.Services.Systemd.{unit_text}
use wakehub.Services.Systemd.Running.{IsSystemd}
use wakehub.Client.Settings.{ClientConfig, System, load_merged, merge_install_config}
use wakehub.Client.Settings.Installation.{only_path}
use wakehub.Client.Files.{Json}
use wakehub.Client.Quote.{build_service_command}
use wakehub.Client.Install.{
  InstallOptions, Paths, service_name, display_name, exe_of, system_at, config_path,
}

-- The package on the systems that are not Windows.
abbrev pub systemd_platform : {W : Type 0} → Os W → (String → String → String) → Platform W
systemd_platform os join = record {
  windows = false;
  exists = Systemd.exists os join;
  install = Systemd.install os join;
  uninstall = Systemd.uninstall os join;
  start = Systemd.start os;
  stop = Systemd.stop os;
  status = Systemd.status os;
}

module _ {W : Type 0} (os : Os W) (json : Json) (paths : Paths) (join : String → String → String)
    (content loaded running : W → String → Option String) (enabled : W → String → Bool)
    (files : IsFiles os content) (systemd : IsSystemd os join content loaded running enabled) where
  -- The command of the service, and the settings in the file.
  abbrev pub IsServed : InstallOptions → System → W → W → Type 0
  IsServed o sys w w' =
      (exe : String) × (cfg : ClientConfig) × (exe_of paths o ≡ ok exe)
      × (merge_install_config (system_at os json paths sys w) (config_path os json paths sys o)
            o.flags
          ≡ ok cfg)
      × (enabled w' (service_name o) ≡ true)
      × (running w' (service_name o)
          ≡ some (
              unit_text (display_name o)
                (build_service_command false exe (config_path os json paths sys o))))
      × (load_merged (system_at os json paths sys w') (only_path (config_path os json paths sys o))
          ≡ ok (cfg, config_path os json paths sys o))
