-- ===== src/Service.antt =====
-- internal/device/service.go: the service that joins the store, the hub, the audit ring, the
-- notifier and the sender of magic packets. What a call meets outside of them is a `Call`.
pub mod Actions
pub mod Devices
pub mod Groups
pub mod Events
pub mod Views
use Prim.Native.String
use Prim.Native.String.{compare}
use Prim.Native.Nat.{Ordering}
use wakehub.Base.{
  ℕ, suc, ◌+◌, String, Bool, true, false, not, List, [], ◌∷◌, ◌++◌, Option, none, some,
  if◌then◌else◌, ◌==◌, Result, ok, err, message, is_none, insert, any,
}
use wakehub.Config.{Device, Group, NicInfo}
use wakehub.Config.Store.{Store, get_device}
use wakehub.Config.Store.Groups.{get_group}
use wakehub.Config.Store.Globals.{settings}
use wakehub.Protocol.{Reply}
use wakehub.Hub.{Hub, ClientInfo, get, send_control}
use wakehub.Audit.{Ring, add, zero_entry}
use wakehub.Wol.{Net}
use wakehub.Notify.{Event, zero_event, send}

-- `written` lists the messages that went to connections, `posted` the requests to the webhook, each
-- from the newest.
pub record Service : Type 0 where
  pub store : Store
  pub hub : Hub
  pub audit : Ring
  pub written : List (ℕ × Reply)
  pub posted : List (String × Event)

-- The clock, the network of wol.Wake, the id of a request to a client and the error of the write
-- to it.
pub record Call : Type 0 where
  pub now : ℕ
  pub net : Net
  pub req_id : String
  pub write_err : Option String

unfoldable pub notify : Call → Event → Service → Service
notify call ev s = elim (send (settings s.store) call.now ev) [
  | none ↦ s
  | some request ↦ record s { posted = request ∷ s.posted }
]

-- s.record and s.notify.Send, with the fields that all actions on a device set.
unfoldable pub record_and_notify :
    Call → String → Device → Option String → String → Service → Service
record_and_notify call event d failed req_id s =
    notify call
      (record zero_event {
        event = event;
        device_id = d.id;
        device_name = d.name;
        ok = is_none failed;
        error = message failed;
      })
      (record s {
        audit =
            add call.now
              (record zero_entry {
                event = event;
                device_id = d.id;
                device_name = d.name;
                succeeded = is_none failed;
                error = message failed;
                request_id = req_id;
              })
              s.audit;
      })

unfoldable pub wake : Call → String → Service → Service × Option String
wake call id s = elim (get_device s.store id) [
  | none ↦ (s, some "device not found")
  | some d ↦
      let failed = (wakehub.Wol.wake call.net d.mac d.broadcast d.port d.repeat).1 in
      (record_and_notify call "wake" d failed "" s, failed)
]

-- The method `clientAction`, where `send` is a method of the hub that sends a message of the type
-- that the event is named for.
unfoldable pub client_action : String → Call → String → Service → Service × String × Option String
client_action event call id s = elim (get_device s.store id) [
  | none ↦ (s, "", some "device not found")
  | some d ↦
      if d.bound_client_key == ""
      then (
        record_and_notify call event d (some "device has no bound client") "" s,
        "",
        some "device has no bound client",
      )
      else let (result, messages) =
          send_control s.hub d.bound_client_key event call.req_id call.write_err in
        elim result [
          | ok req_id ↦ (
            record_and_notify call event d none req_id
                (record s { written = messages ++ s.written }),
            req_id,
            none,
          )
          | err e ↦ (
            record_and_notify call event d (some e) ""
                (record s { written = messages ++ s.written }),
            "",
            some e,
          )
        ]
]

unfoldable pub shutdown : Call → String → Service → Service × String × Option String
shutdown call id s = client_action "shutdown" call id s

unfoldable pub restart : Call → String → Service → Service × String × Option String
restart call id s = client_action "restart" call id s

-- One round of the loop of `Batch`.
unfoldable pub batch_action : String → Call → String → Service → Service × Option String
batch_action action call id s =
    if action == "wake"
    then wake call id s
    else if action == "shutdown"
    then (let (s', req_id, failed) = shutdown call id s in (s', failed))
    else if action == "restart"
    then (let (s', req_id, failed) = restart call id s in (s', failed))
    else (s, some "unknown action")

abbrev pub result_text : Option String → String
result_text none = "ok"
result_text (some e) = e

-- The loop of `Batch` from the k-th call, with the map that it has filled so far.
unfoldable pub batch_from :
    String
    → (ℕ → Call)
    → ℕ
    → List String
    → Service
    → List (String × String)
    → Service × List (String × String)
batch_from action calls k [] s out = (s, out)
batch_from action calls k (id ∷ ids) s out =
    let (s', failed) = batch_action action (calls k) id s in
    batch_from action calls (k + 1) ids s' (insert id (result_text failed) out)

unfoldable pub batch :
    String → (ℕ → Call) → List String → Service → Service × List (String × String)
batch action calls ids s = batch_from action calls 0 ids s []

-- The verb %v prints a map in the order of its keys.
unfoldable pub insert_sorted : String × String → List (String × String) → List (String × String)
insert_sorted e [] = e ∷ []
insert_sorted e (x ∷ xs) =
    let rest = insert_sorted e xs in
    elim (compare e.0 x.0) [ Ordering.gt ↦ x ∷ rest | _ ↦ e ∷ x ∷ xs ]

unfoldable pub sorted : List (String × String) → List (String × String)
sorted [] = []
sorted (x ∷ xs) = insert_sorted x (sorted xs)

unfoldable pub print_entries : List (String × String) → String
print_entries [] = ""
print_entries ((k, v) ∷ []) = String.◌++◌ k (String.◌++◌ ":" v)
print_entries ((k, v) ∷ x ∷ xs) =
    String.◌++◌ k (String.◌++◌ ":" (String.◌++◌ v (String.◌++◌ " " (print_entries (x ∷ xs)))))

unfoldable pub partial_failure : List (String × String) → String
partial_failure res =
    String.◌++◌ "partial failure: map[" (String.◌++◌ (print_entries (sorted res)) "]")

-- WakeGroup for the action "wake", ShutdownGroup for "shutdown".
unfoldable pub group_action : String → (ℕ → Call) → String → Service → Service × Option String
group_action action calls group_id s = elim (get_group s.store group_id) [
  | none ↦ (s, some "group not found")
  | some g ↦
      let (s', res) = batch action calls g.device_ids s in
      (s', if any (λ e. not (e.1 == "ok")) res then some (partial_failure res) else none)
]
