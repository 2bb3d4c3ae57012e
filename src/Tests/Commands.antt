-- ===== src/Tests/Commands.antt =====
-- The two programs on the small machine.
use Prim.Native.String.{◌++◌ as ◌<>◌}
use wakehub.Base.{
  ◌≡◌, ◌≢◌, inl, inr, refl, String, true, false, List, [], ◌∷◌, none, some, ok, ◌==◌, eq_iff,
  is_some, if◌then◌else◌, Option-cases, arith,
}
use wakehub.Text.{has_prefix, trim_space}
use wakehub.Client.Install.{default_service_name}
use wakehub.Client.Install.Running.{systemd_platform}
use wakehub.Services.Systemd
use wakehub.Client.Update.{UpdateInfo, check_update, located}
use wakehub.Programs.Client.{
  Flags, World, UpdateFlags, given, env_or, main, run_update, stopped_for,
}
use wakehub.Programs.Client.Commands.{main-aliases}
use wakehub.Programs.Client.Updating.{Kept, Updated, run_update-IsSafe}
use wakehub.Config.Store.{Store, encode, save_locked}
use wakehub.Config.Store.Loading.{absent, default_file, open_store}
use wakehub.Config.Store.Globals.{settings, update_settings, ensure_client_token}
use wakehub.Config.{default_listen}
use wakehub.Config.Password.{ensure_password_hashed}
use wakehub.Config.Random.{random_token}
use wakehub.Hub.{new_hub}
use wakehub.Bemfa.{new_manager}
use wakehub.Service.Devices.Cloud.{start_bemfa}
use wakehub.Web.Globals.{Site}
use wakehub.Web.Globals.Agreement.{IsAgreed}
use wakehub.Programs.Server.{start, serves, with_listen, assemble}
use wakehub.Programs.Server.Guarded.{start-IsGuarded}
use wakehub.Tests.Samples.{crypt, env}
use wakehub.Tests.Stores.{env-FillsSlices}
use wakehub.Tests.Cloud.{call}
use wakehub.Tests.Machine.{Machine, os, join, content, os-IsFiles}
use wakehub.Tests.Systems.{
  machine, system, flags as given_flags, json, paths, net, apart, target, response,
}

abbrev with_service : UpdateFlags
with_service = record { repo = ""; with_service = true }

abbrev flags : Flags
flags = record {
  run = λ arguments. given (some given_flags);
  install = λ arguments. given given_flags;
  update = λ repo arguments. given with_service;
}

abbrev world : World Machine
world = record {
  os = os;
  json = json;
  paths = paths;
  net = net;
  platform = systemd_platform os join;
  system = system;
  rounds = λ cfg. [];
  target = target;
  get = λ url agent. ok response;
  repo_variable = "";
  version = "1.0.0";
}

dashed : has_prefix "-server" "-" ≡ true
unfolding has_prefix
dashed = refl

not_word : (word : String) → ("-server" == word) ≡ false → "-server" ≢ word
not_word word other e = ground (arith, eq_iff "-server" word)

main-aliases_example :
    (main flags world ("install" ∷ []) machine
      ≡ main flags world ("service" ∷ "install" ∷ []) machine)
    × (main flags world ("uninstall" ∷ []) machine
        ≡ main flags world ("service" ∷ "uninstall" ∷ []) machine)
    × (main flags world ("start" ∷ []) machine
        ≡ main flags world ("service" ∷ "start" ∷ []) machine)
    × (main flags world ("stop" ∷ []) machine ≡ main flags world ("service" ∷ "stop" ∷ []) machine)
    × (main flags world ("status" ∷ []) machine
        ≡ main flags world ("service" ∷ "status" ∷ []) machine)
    × (main flags world ("-server" ∷ []) machine
        ≡ main flags world ("run" ∷ "-server" ∷ []) machine)
main-aliases_example =
    main-aliases flags world "-server" [] machine dashed (not_word "-h" refl)
      (not_word "--help" refl) (not_word "-v" refl) (not_word "-version" refl)
      (not_word "--version" refl)

abbrev exe : String
exe = "/usr/bin/client"

stops :
    (at : String) (m : Machine)
    → content (world.platform.stop default_service_name m).0 at ≡ content m at
unfolding Systemd.stop Systemd.control
stops at m = refl

starts :
    (at : String) (m : Machine)
    → content (world.platform.start default_service_name m).0 at ≡ content m at
unfolding Systemd.start Systemd.control
starts at m = refl

found : located os net ≡ ok exe
unfolding located
found = refl

apart_exe : exe ≢ "tmp/file"
apart_exe e = ground (arith, eq_iff exe "tmp/file")

apart_old : exe <> ".old" ≢ "tmp/file"
apart_old e = ground (arith, eq_iff "/usr/bin/client.old" "tmp/file")

apart_new : exe <> ".new" ≢ "tmp/file"
apart_new e = ground (arith, eq_iff "/usr/bin/client.new" "tmp/file")

run_update-IsSafe_example :
    Kept flags world content os-IsFiles exe
      (apart exe apart_exe)
      (apart (exe <> ".old") apart_old)
      (apart (exe <> ".new") apart_new)
      stops
      starts
      machine
      (run_update flags world ("apply" ∷ []) machine).0
    × ((rest : List String) (f : UpdateFlags) (info : UpdateInfo)
        → ◌≡◌ {A = List String} ("apply" ∷ []) ("apply" ∷ rest)
        → flags.update (env_or "" "leganck/wakehub") rest ≡ given f
        → (check_update target (λ url agent. ok response) "1.0.0" f.repo).0 ≡ some info
        → info.up_to_date ≡ false
        → ((run_update flags world ("apply" ∷ []) machine).1 ≢ 1
            → Updated flags world content os-IsFiles exe
                (apart exe apart_exe)
                (apart (exe <> ".old") apart_old)
                (apart (exe <> ".new") apart_new)
                stops
                starts
                info
                (stopped_for flags world f machine)
                (run_update flags world ("apply" ∷ []) machine).0)
          × (f.with_service ≡ true
              → (v : Machine) × ((run_update flags world ("apply" ∷ []) machine).0
                  ≡ (world.platform.start default_service_name v).0)))
run_update-IsSafe_example =
    run_update-IsSafe flags world content os-IsFiles exe (apart exe apart_exe)
      (apart (exe <> ".old") apart_old) (apart (exe <> ".new") apart_new) stops starts
      ("apply" ∷ []) machine found

-- The first start, with no file.
abbrev opened : Store
opened = record {
  file = default_file crypt;
  disk = some (encode (default_file crypt));
  backup = none;
}

abbrev listening : Store
listening = with_listen crypt env ":9000" opened

abbrev first_store : Store
first_store = (ensure_client_token env listening).0

abbrev site : Site
site = record {
  store = first_store;
  hub = new_hub (settings first_store).client_token;
  manager = (start_bemfa call first_store (new_manager call)).0;
}

abbrev addr : String
addr = if (settings first_store).listen == "" then default_listen else (settings first_store).listen

opens : open_store crypt env absent ≡ ok opened
unfolding open_store save_locked
opens = refl

token_kept : (settings listening).client_token ≡ ""
unfolding with_listen update_settings settings save_locked ensure_password_hashed default_file
token_kept = ground arith

draws : random_token env.read 32 ≡ some "abababababababababababababababab"
unfolding random_token
draws = refl

blank : (trim_space (settings listening).client_token == "") ≡ true
unfolding trim_space
blank = rw token_kept refl

drawn : is_some (ensure_client_token env listening).1 ≡ true
unfolding ensure_client_token settings save_locked
drawn = rw (blank, draws, ensure_client_token) refl

starting : start crypt env env env call absent ":9000" ≡ serves site addr
unfolding start assemble
starting = elim (Option-cases (ensure_client_token env listening).1) [
  | inl panic ↦ absurd (cc (panic, drawn))
  | inr (token, made) ↦ rw (opens, made, start) refl
]

start-IsGuarded_example :
    IsAgreed site × (site.hub.token ≢ "") × (◌≢◌ {A = String} ":9000" "" → addr ≡ ":9000")
start-IsGuarded_example =
    start-IsGuarded crypt env env env call absent ":9000" site addr env-FillsSlices starting
