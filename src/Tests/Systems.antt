-- ===== src/Tests/Systems.antt =====
-- The installation, the update, UCI and the two programs on a small machine.
use wakehub.Base.{
  ◌≡◌, ◌≢◌, ◌⊎◌, ◌↔◌, refl, String, Bool, true, false, ◌&&◌, not, List, [], ◌∷◌, ◌++◌, Option, none,
  some, ok, err, if◌then◌else◌, ◌==◌, eq_iff, arith,
}
use wakehub.Text.{trim_space, has_prefix}
use wakehub.OpenWrt.{write_globals}
use wakehub.OpenWrt.Committed.{IsWritten, write_globals-IsMirrored}
use wakehub.Services.Systemd
use wakehub.Services.Windows.Control.{
  Event, ended, requested, interrogate, unknown, stop, shutdown, running, stop_pending, execute,
  served, verdict, execute-append,
}
use wakehub.Client.Settings.{ClientConfig, Overrides, System, missing}
use wakehub.Client.Files.{Json, load}
use wakehub.Client.Install.{InstallOptions, Paths}
use wakehub.Client.Version.{
  is_newer_version, without_v, client_asset_name, release_arch, later, split_ver, number_from,
}
use wakehub.Client.Update.{
  Asset, Release, UpdateInfo, Target, Response, Download, check_update, judged, choose, with_asset,
  first_of,
}
use wakehub.Client.Update.Choice.{Suits, Any, IsOffered}
use wakehub.Client.Update.Offer.{check_update-IsChosen}
use wakehub.Client.Update.Replacing.{IsApart}
use wakehub.Tests.Samples.{plain_settings}
use wakehub.Tests.Machine.{
  Machine, os, join, put, different, staged, committed, content, loaded, running as runs, enabled,
  os-IsUci,
}

-- The program is installed, and no service.
abbrev pub machine : Machine
machine = record {
  files = λ path. if path == "/usr/bin/client" then some "version 1" else none;
  staged = λ key. none;
  committed = λ key. none;
  loaded = λ name. none;
  running = λ name. none;
  enabled = λ name. false;
}

write_globals-IsMirrored_example :
    IsWritten os committed "" plain_settings machine
      (write_globals os "" plain_settings machine).0
      (write_globals os "" plain_settings machine).1
write_globals-IsMirrored_example =
    write_globals-IsMirrored os staged committed "" plain_settings machine os-IsUci

-- A question of the service manager, and a command that the service does not know.
abbrev quiet : List Event
quiet = requested (interrogate running) ∷ requested (unknown 200) ∷ []

execute-append_example :
    (execute quiet ≡ served quiet [] false none)
    × (execute (quiet ++ requested stop ∷ [])
        ≡ served quiet (stop_pending ∷ []) true (some (false, 0)))
    × (execute (quiet ++ requested shutdown ∷ [])
        ≡ served quiet (stop_pending ∷ []) true (some (false, 0)))
    × (execute (quiet ++ ended (some "lost") ∷ [])
        ≡ served quiet [] true (some (verdict (some "lost"))))
execute-append_example = execute-append quiet [] (some "lost") (tt, (tt, tt))

abbrev pub system : System
system = record {
  load = λ path. missing "no such file";
  hostname = "pc";
  windows = false;
  program_data = "";
  join = λ base. base;
  look_path = λ program. true;
}

abbrev pub flags : Overrides
flags = record {
  config_path = "/etc/c.json";
  server = "ws://hub";
  token = "secret";
  key = "";
  shutdown_cmd = "";
  mdns = "";
}

abbrev installed : ClientConfig
installed = record {
  server = "ws://hub";
  token = "secret";
  key = "pc";
  shutdown_cmd = "systemctl poweroff";
  mdns = some true;
}

abbrev is_true : Option Bool → Bool
is_true none = false
is_true (some b) = b

-- JSON that knows the settings of this installation.
abbrev is_installed : ClientConfig → Bool
is_installed cfg =
    cfg.server == installed.server
    && cfg.token == installed.token
    && cfg.key == installed.key
    && cfg.shutdown_cmd == installed.shutdown_cmd
    && is_true cfg.mdns

abbrev pub json : Json
json = record {
  marshal = λ cfg. if is_installed cfg then ok "{}" else err "unknown";
  unmarshal = λ text. if text == "{}" then ok installed else err "unknown";
}

abbrev pub paths : Paths
paths = record {
  parent = λ path. "/etc";
  absolute = λ path. path;
  executable = ok "/usr/bin/client";
}

abbrev options : InstallOptions
options = record { flags = flags; exe = ""; service_name = ""; display_name = "" }

-- The temporary file receives the archive and then the new program.
abbrev pub net : Download Machine
net = record {
  windows = false;
  executable = ok "/usr/bin/client";
  absolute = λ path. ok path;
  get = λ url. ok 200;
  make_temp = λ m. (m, ok "tmp");
  join = λ dir name. "tmp/file";
  receive = λ path m. (put path (some "archive") m, none);
  open_zip = λ path m. err "not a zip file";
  open_tar = λ path m. ok (
      ok (record { base = "LICENSE"; unopened = none })
      ∷ ok (record { base = "wakehub-client"; unopened = none })
      ∷ []);
  unpack = λ path base out m. (put out (some "version 2") m, none);
  chmod = λ path m. m;
  remove_all = λ dir m. m;
}

pub apart : (at : String) → at ≢ "tmp/file" → IsApart net content at
apart at other = record {
  make_temp = λ m. refl;
  outside = λ dir name m made. other;
  receive = λ path m e. rw (different at path e) refl;
  unpack = λ path base out m e. rw (different at out e) refl;
  chmod = λ path m. refl;
  remove_all = λ dir m v made. refl;
}

abbrev pub target : Target
target = record { os = "linux"; title = "Linux"; arch = "amd64" }

abbrev asset : Asset
asset = record {
  name = "wakehub-client_Linux_x86_64.tar.gz";
  download_url = "https://example.org/client";
}

abbrev release : Release
release = record { tag_name = "v2.0.0"; html_url = ""; assets = asset ∷ [] }

abbrev pub response : Response
response = record { status = 200; start = ""; body = ok release }

abbrev pub newer_info : UpdateInfo
newer_info = record {
  current = "1.0.0";
  latest = "2.0.0";
  tag = "v2.0.0";
  asset_name = asset.name;
  download_url = asset.download_url;
  html_url = "";
  up_to_date = false;
}

pub checked : check_update target (λ url agent. ok response) "1.0.0" "" ≡ (some newer_info, none)
unfolding check_update judged choose with_asset first_of client_asset_name release_arch has_prefix
    is_newer_version trim_space later split_ver number_from
checked = refl

check_update-IsChosen_example :
    (newer_info.up_to_date ≡ not (is_newer_version (without_v "v2.0.0") "1.0.0"))
    × ((newer_info.download_url ≢ "") ↔ Any (Suits target) (asset ∷ []))
    × (newer_info.download_url ≢ "" → Any (IsOffered target newer_info) (asset ∷ []))
    × ((◌≡◌ {A = Option String} none none)
        ↔ ((newer_info.up_to_date ≡ true) ⊎ Any (Suits target) (asset ∷ [])))
check_update-IsChosen_example =
    check_update-IsChosen target (λ url agent. ok response) "1.0.0" "" response release newer_info
      none refl refl refl ((λ e. ground (arith, eq_iff asset.download_url "")), tt) checked
