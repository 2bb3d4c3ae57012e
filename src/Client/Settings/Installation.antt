-- ===== src/Client/Settings/Installation.antt =====
-- internal/clientapp/merge.go: the settings that an installation leaves, and the service that reads
-- them.
use wakehub.Base.{
  ◌≡◌, ◌≢◌, refl, ap, subst, eq_refl, ◌∙◌, String, false, if◌then◌else◌, ◌==◌, Result, ok, err,
  eq_iff, arith,
}
use wakehub.Text.{trim_space}
use wakehub.Client.Settings.{
  zero_config, ClientConfig, Overrides, System, Loaded, found, missing, broken, given_or,
  apply_overrides, with_defaults, load_merged, install_config, merge_install_config,
  default_shutdown_cmd, default_server, client_key,
}

-- The command line of the service: the path and nothing else.
abbrev pub only_path : String → Overrides
only_path path = record {
  config_path = path;
  server = "";
  token = "";
  key = "";
  shutdown_cmd = "";
  mdns = "";
}

-- The system once these settings are in the file at this path.
abbrev pub with_file : String → ClientConfig → System → System
with_file path cfg sys = record sys { load = λ p. if p == path then found cfg else sys.load p }

given_or_idem : (x d : String) → given_or (given_or x d) d ≡ given_or x d
given_or_idem x d = ground (arith, eq_iff x "")

-- The settings of an installation are the same when they are read and completed once more.
install_config_again :
    (sys later : System) (o : Overrides) (path : String) (before : ClientConfig)
    → default_shutdown_cmd later ≡ default_shutdown_cmd sys
    → with_defaults later (apply_overrides (only_path path) (install_config sys o before))
      ≡ install_config sys o before
unfolding with_defaults apply_overrides install_config
install_config_again sys later o path before same =
    let server = given_or_idem (given_or o.server before.server) default_server in
    let command =
      given_or_idem (given_or o.shutdown_cmd before.shutdown_cmd) (default_shutdown_cmd sys) in
    rw (same, server, command) refl

load_merged-found :
    (sys : System) (o : Overrides) (cfg : ClientConfig)
    → trim_space o.config_path ≡ o.config_path
    → o.config_path ≢ ""
    → sys.load o.config_path ≡ found cfg
    → load_merged sys o ≡ ok (with_defaults sys (apply_overrides o cfg), o.config_path)
unfolding load_merged
load_merged-found sys o cfg bare named held =
    let set : (o.config_path == "") ≡ false = ground (arith, eq_iff o.config_path "") in
    simp (bare, set, held, load_merged) refl

-- Settings that an installation has made are those of some file or of none, completed.
abbrev IsInstalled : System → Overrides → ClientConfig → Type 0
IsInstalled sys o cfg = (before : ClientConfig) × (install_config sys o before ≡ cfg)

merge_install_config-IsInstalled :
    (sys : System) (path : String) (o : Overrides) (cfg : ClientConfig)
    → merge_install_config sys path o ≡ ok cfg
    → IsInstalled sys o cfg
unfolding merge_install_config
merge_install_config-IsInstalled sys path o cfg made = from (sys.load path) made
  where
    from :
        (l : Loaded)
        → elim l as (λ _. Result ClientConfig) [
          | found before ↦ ok (install_config sys o before)
          | missing e ↦ ok (install_config sys o zero_config)
          | broken e ↦ err e
        ]
          ≡ ok cfg
        → IsInstalled sys o cfg
    from (found before) e = (before, cc e)
    from (missing text) e = (zero_config, cc e)
    from (broken text) e = absurd (cc e)

key_again :
    (sys : System) (o : Overrides) (before : ClientConfig)
    → client_key sys (install_config sys o before) ≡ (install_config sys o before).key
unfolding client_key install_config with_defaults apply_overrides
key_again sys o before = given_or_idem (given_or o.key before.key) sys.hostname

-- The command does not depend on the files.
pub same_command :
    (sys : System) (load : String → Loaded)
    → default_shutdown_cmd (record sys { load = load }) ≡ default_shutdown_cmd sys
unfolding default_shutdown_cmd
same_command sys load = refl

-- The settings of an installation, read on a machine that has them in the file at the path.
pub load_merged-installed :
    (sys later : System) (path : String) (o : Overrides) (cfg : ClientConfig)
    → trim_space path ≡ path
    → path ≢ ""
    → default_shutdown_cmd later ≡ default_shutdown_cmd sys
    → later.load path ≡ found cfg
    → merge_install_config sys path o ≡ ok cfg
    → load_merged later (only_path path) ≡ ok (cfg, path)
load_merged-installed sys later path o cfg bare named command there made =
    let (before, whole) = merge_install_config-IsInstalled sys path o cfg made in
    let again = install_config_again sys later o path before command in
    let same : with_defaults later (apply_overrides (only_path path) cfg) ≡ cfg =
      subst (λ c. with_defaults later (apply_overrides (only_path path) c) ≡ c) whole again in
    load_merged-found later (only_path path) cfg bare named there ∙ ap (λ c. ok (c, path)) same

-- What an installation leaves is what the service runs with: once the settings that
-- MergeInstallConfig makes are in the file, LoadMerged of the path alone gives exactly these, and the
-- key that the client runs with is theirs. The path is not empty and has no blanks around it.
pub load_merged-merge_install_config :
    (sys : System) (path : String) (o : Overrides) (cfg : ClientConfig)
    → trim_space path ≡ path
    → path ≢ ""
    → merge_install_config sys path o ≡ ok cfg
    → (load_merged (with_file path cfg sys) (only_path path) ≡ ok (cfg, path))
      × (client_key sys cfg ≡ cfg.key)
load_merged-merge_install_config sys path o cfg bare named made =
    let (before, whole) = merge_install_config-IsInstalled sys path o cfg made in
    let sys' : System = with_file path cfg sys in
    let there : sys'.load path ≡ found cfg = rw (eq_refl path) refl in
    (
      load_merged-installed sys sys' path o cfg bare named (same_command sys sys'.load) there made,
      subst (λ c. client_key sys c ≡ c.key) whole (key_again sys o before),
    )
