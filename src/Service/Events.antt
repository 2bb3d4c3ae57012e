-- ===== src/Service/Events.antt =====
-- internal/device/service.go: what the service does when the runner, the probes or the Bemfa manager
-- call it, and what it tells the probes.
use Prim.Native.String
use wakehub.Base.{String, Bool, List, [], none, some, if◌then◌else◌, ◌==◌}
use wakehub.Config.{Device, NicInfo}
use wakehub.Config.Store.{get_device}
use wakehub.Hub.{Hub, ClientInfo, get}
use wakehub.Audit.{add, zero_entry}
use wakehub.Notify.{Event, zero_event}
use wakehub.Service.{Service, Call, notify, wake, shutdown}

unfoldable pub on_schedule :
    Call → String → String → String → String → Bool → String → Service → Service
on_schedule call action target_type target_id target_name succeeded err_msg s =
    let detail = String.◌++◌ action (String.◌++◌ " " target_type) in
    let ev : Event = record zero_event {
      event = "schedule";
      ok = succeeded;
      error = err_msg;
      detail = detail;
    } in
    notify call
      (if target_type == "group"
        then record ev { group_id = target_id; group_name = target_name }
        else record ev { device_id = target_id; device_name = target_name })
      (record s {
        audit =
            add call.now
              (record zero_entry {
                event = "schedule";
                device_id = target_id;
                device_name = target_name;
                succeeded = succeeded;
                error = err_msg;
                detail = detail;
              })
              s.audit;
      })

-- The fields of probe.Result that OnProbeChange reads.
unfoldable pub on_probe_change : Call → String → Bool → String → Service → Service
on_probe_change call device_id online failure s =
    notify call
      (record zero_event {
        event = "probe";
        device_id = device_id;
        device_name = elim (get_device s.store device_id) [
          | some d ↦ Device.name d
          | none ↦ device_id
        ];
        ok = online;
        error = failure;
        detail = if online then "online" else "offline";
      })
      s

-- The handler that the Bemfa manager calls; what the actions return is only logged.
unfoldable pub on_bemfa_power : Call → String → Bool → Service → Service
on_bemfa_power call device_id on s = elim (get_device s.store device_id) [
  | none ↦ s
  | some d ↦ if on then (wake call (Device.id d) s).0 else (shutdown call (Device.id d) s).0
]

unfoldable pub nics_for_device : Hub → Device → List NicInfo
nics_for_device hub d =
    if d.bound_client_key == ""
    then []
    else elim (get hub d.bound_client_key) [ none ↦ [] | some info ↦ ClientInfo.nics info ]

unfoldable pub nics_for_probe : String → Service → List NicInfo
nics_for_probe device_id s = elim (get_device s.store device_id) [
  | none ↦ []
  | some d ↦ nics_for_device s.hub d
]
