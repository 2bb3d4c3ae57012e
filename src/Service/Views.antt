-- ===== src/Service/Views.antt =====
-- internal/device/service.go, lines 17 to 29 and 98 to 135: what the pages show of a device.
pub mod Online
use wakehub.Base.{
  ℕ, String, Bool, true, false, ◌&&◌, not, List, [], map, Option, none, some, if◌then◌else◌, ◌==◌,
}
use wakehub.Config.{Device, NicInfo}
use wakehub.Config.Store.{Store, list_devices, get_device}
use wakehub.Hub.{Hub, ClientInfo}
use wakehub.Bemfa.{Manager}
use wakehub.Bemfa.Session.{connected}
use wakehub.Probe.{Watch, Result}
use wakehub.Hub
use wakehub.Probe

-- The store, the hub, the cache of the probes, and whether the manager of the topics is connected.
pub record Sight : Type 0 where
  pub store : Store
  pub hub : Hub
  pub watch : Watch
  pub manager : Manager
  pub live : Bool

pub record View : Type 0 where
  pub device : Device
  pub client_online : Bool
  pub bemfa_connected : Bool
  pub bound_client_nics : List NicInfo
  pub bound_hostname : String
  pub client_version : String
  pub client_last_event : String
  pub client_last_error : String
  pub client_last_event_at : ℕ
  pub probe_online : Option Bool
  pub probe : Option Result

-- The result that is shown, if there is one.
unfoldable pub shown_result : Watch → String → Option Result
shown_result watch id = elim (Probe.get id watch) [
  | none ↦ none
  | some r ↦ if not (r.method == "off") && not (r.error == "probe disabled") then some r else none
]

abbrev pub bare_view : Sight → Device → View
bare_view s d =
    let r = shown_result s.watch d.id in
    record {
      device = d;
      client_online = false;
      bemfa_connected = connected s.live s.manager;
      bound_client_nics = [];
      bound_hostname = "";
      client_version = "";
      client_last_event = "";
      client_last_error = "";
      client_last_event_at = 0;
      probe_online = elim r [ none ↦ none | some p ↦ some p.online ];
      probe = r;
    }

unfoldable pub enrich : Sight → Device → View
enrich s d =
    let bare = bare_view s d in
    let bound : Option ClientInfo =
      if d.bound_client_key == "" then none else Hub.get s.hub d.bound_client_key in
    elim bound [
      | none ↦ bare
      | some info ↦ record bare {
        client_online = true;
        bound_client_nics = info.nics;
        bound_hostname = info.hostname;
        client_version = info.version;
        client_last_event = info.last_event;
        client_last_error = info.last_error;
        client_last_event_at = info.last_event_at;
      }
    ]

-- The methods List and Get.
unfoldable pub list : Sight → List View
list s = map (λ d. enrich s d) (list_devices s.store)

unfoldable pub get : Sight → String → Option View
get s id = elim (get_device s.store id) [ none ↦ none | some d ↦ some (enrich s d) ]
