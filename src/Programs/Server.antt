-- ===== src/Programs/Server.antt =====
-- cmd/server/main.go: the start of the server and its end. Flags are parsed by the library; the loops
-- that main starts in the background are those of the probes, the schedules and mDNS.
pub mod Guarded
use wakehub.Base.{String, Bool, not, Option, none, some, Result, ok, err, if◌then◌else◌, ◌==◌}
use wakehub.Config.{Settings, default_listen}
use wakehub.Config.Password.{Bcrypt}
use wakehub.Config.Store.{Store, Env}
use wakehub.Config.Store.Loading.{Reading, open_store}
use wakehub.Config.Store.Globals.{settings, update_settings, ensure_client_token}
use wakehub.Hub.{new_hub}
use wakehub.Bemfa.{Call, new_manager}
use wakehub.Bemfa.Session.{close}
use wakehub.Service.Devices.Cloud.{start_bemfa}
use wakehub.Web.Globals.{Site}

-- What the start comes to: main exits with status 1, RandomToken panics, or the server serves at an
-- address.
pub data Start : Type 0 where
  exits : String → Start
  panics : Start
  serves : Site → String → Start

-- The flag -listen, where it is given. The error is dropped.
unfoldable pub with_listen : Bcrypt → Env → String → Store → Store
with_listen crypt env listen s =
    if listen == ""
    then s
    else (update_settings crypt env (λ st. (record st { listen = listen }, none)) s).0

-- The parts over the store.
unfoldable pub assemble : Call → Store → Start
assemble call s =
    let (manager, failed) = start_bemfa call s (new_manager call) in
    let addr = (settings s).listen in
    serves (record { store = s; hub = new_hub (settings s).client_token; manager = manager })
      (if addr == "" then default_listen else addr)

-- Each operation of the store meets an outside of its own.
unfoldable pub start : Bcrypt → Env → Env → Env → Call → Reading → String → Start
start crypt opening listening drawing call reading listen =
    elim (open_store crypt opening reading) [
      | err e ↦ exits e
      | ok opened ↦
          let (s, drawn) =
            ensure_client_token drawing (with_listen crypt listening listen opened) in
          elim drawn [ none ↦ panics | some token ↦ assemble call s ]
    ]

-- The signal that ends the server.
unfoldable pub finish : Call → Site → Site
finish call site = record site { manager = close call site.manager }
