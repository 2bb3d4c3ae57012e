-- ===== src/Bemfa/Session.antt =====
-- internal/bemfa/manager.go, lines 83 to 115, 183 to 226 and 300 to 378: the connection and its topics.
pub mod Sync
use Prim.Native.String
use wakehub.Base.{
  ℕ, String, Bool, true, false, ◌&&◌, ◌||◌, not, List, [], ◌∷◌, Option, none, some, if◌then◌else◌,
  ◌==◌, length, lookup, insert, erase,
}
use wakehub.Text.{trim_space, decimal}
use wakehub.Config.{Device}
use wakehub.Bemfa.{
  Call, Manager, append_log_locked, set_last_error_locked, log_info, log_warn, log_error, log_event,
}
use wakehub.Bemfa.Topics.{
  normalize_topic, sanitize_name, sanitize_uid, mask_uid, validate_topic, generate_topic,
}
use wakehub.Bemfa.Creation.{create_topic_idempotent}

-- `live` is IsConnected of the library's device.
unfoldable pub connected : Bool → Manager → Bool
connected live m = m.dev && live

pub record Status : Type 0 where
  pub enabled : Bool
  pub is_connected : Bool
  pub uid_set : Bool
  pub uid_masked : String
  pub has_started : Bool
  pub topic_count : ℕ
  pub bindings : List (String × String)
  pub error : String
  pub since : ℕ
  pub updated_at : ℕ

unfoldable pub status : Call → Bool → Manager → Status
status call live m = record {
  enabled = not (trim_space m.uid == "");
  is_connected = connected live m;
  uid_set = not (trim_space m.uid == "");
  uid_masked = mask_uid m.uid;
  has_started = m.started;
  topic_count = length m.topics;
  bindings = m.topics;
  error = m.last_error;
  since = m.connected_at;
  updated_at = call.now;
}

-- The error of the library's Unsubscribe is dropped by every caller.
unfoldable pub unsubscribe_locked : String → Manager → Manager
unsubscribe_locked topic m = record m { topics = erase topic m.topics }

unfoldable pub subscribe_locked : Call → String → String → Manager → Manager × Option String
subscribe_locked call topic device_id m =
    if not m.dev
    then (m, some "no device")
    else if (elim (lookup topic m.topics) [ none ↦ false | some old ↦ old == device_id ])
    then (m, none)
    else let left = unsubscribe_locked topic m in
      elim (call.subscribe topic) [
        | some e ↦ (left, some e)
        | none ↦ (
          append_log_locked call log_event
              (String.◌++◌ "subscribed topic="
                (String.◌++◌ topic (String.◌++◌ " device=" device_id)))
              (record left { topics = insert topic device_id left.topics }),
          none,
        )
      ]

-- The topics of the devices that are to be subscribed to.
unfoldable pub wanted_topics : List Device → List (String × String) → List (String × String)
wanted_topics [] wanted = wanted
wanted_topics (d ∷ ds) wanted = wanted_topics ds (
    if not d.bemfa_enable || trim_space d.bemfa_topic == ""
    then wanted
    else insert d.bemfa_topic d.id wanted)

-- The loop over the topics that the manager had.
unfoldable pub drop_unwanted :
    Call → List (String × String) → List (String × String) → Manager → Manager
drop_unwanted call wanted [] m = m
drop_unwanted call wanted (old ∷ olds) m =
    drop_unwanted call wanted olds (elim (lookup old.0 wanted) [
      | some id ↦ m
      | none ↦
          append_log_locked call log_info (String.◌++◌ "sync unsubscribe topic=" old.0)
            (unsubscribe_locked old.0 m)
    ])

-- The body of the loop over the wanted topics, and the loop.
unfoldable pub subscribe_wanted : Call → String × String → Manager → Manager
subscribe_wanted call (topic, id) m =
    let (m', failed) = subscribe_locked call topic id m in
    elim failed [
      | none ↦ m'
      | some e ↦
          append_log_locked call log_warn
            (String.◌++◌ "sync subscribe " (String.◌++◌ topic (String.◌++◌ ": " e))) m'
    ]

unfoldable pub subscribe_all : Call → List (String × String) → Manager → Manager
subscribe_all call [] m = m
subscribe_all call (entry ∷ entries) m = subscribe_all call entries (subscribe_wanted call entry m)

unfoldable pub sync_locked : Call → List Device → Manager → Manager
sync_locked call devices m =
    let wanted = wanted_topics devices [] in
    let synced = subscribe_all call wanted (drop_unwanted call wanted m.topics m) in
    append_log_locked call log_info
      (String.◌++◌ "sync done topics=" (decimal (length synced.topics))) synced

unfoldable pub close_locked : Manager → Manager
close_locked m = record m { dev = false; topics = []; started = false; connected_at = 0 }

unfoldable pub close : Call → Manager → Manager
close call m = close_locked (append_log_locked call log_info "closing mqtt manager" m)

-- Reconfigure once the old connection is closed, for a user that is not empty.
unfoldable pub start : Call → String → List Device → Manager → Manager × Option String
start call uid devices closed =
    let starting =
      append_log_locked call log_info (String.◌++◌ "starting mqtt with uid=" (mask_uid uid))
        closed in
    elim (call.start uid) [
      | some e ↦ (
        append_log_locked call log_error (String.◌++◌ "mqtt start failed: " e)
            (set_last_error_locked (some e) starting),
        some (String.◌++◌ "bemfa start: " e),
      )
      | none ↦ (
        sync_locked call devices (
            append_log_locked call log_info "mqtt start requested"
              (record starting { dev = true; started = true })),
        none,
      )
    ]

unfoldable pub reconfigure : Call → String → List Device → Manager → Manager × Option String
reconfigure call given devices m =
    let uid = sanitize_uid given in
    if uid == m.uid && m.dev
    then (
      sync_locked call devices (
          append_log_locked call log_info
            (String.◌++◌ "resync subscriptions ("
              (String.◌++◌ (decimal (length devices)) " devices)"))
            m),
      none,
    )
    else let closed : Manager = record (close_locked m) { uid = uid } in
      if uid == ""
      then (
        set_last_error_locked none
            (append_log_locked call log_info "UID empty, mqtt disabled" closed),
        none,
      )
      else start call uid devices closed

-- The callbacks that Reconfigure gives to the library.
unfoldable pub on_connect : Call → Manager → Manager
on_connect call m =
    append_log_locked call log_event "mqtt connected"
      (set_last_error_locked none (record m { connected_at = call.now }))

unfoldable pub on_disconnect : Call → Option String → Manager → Manager
on_disconnect call none m = append_log_locked call log_warn "mqtt disconnected" m
on_disconnect call (some e) m =
    append_log_locked call log_warn (String.◌++◌ "mqtt disconnected: " e)
      (set_last_error_locked (some e) m)

-- The callback of a topic: the device and the state that the handler is called with.
unfoldable pub on_command : Call → String → String → Bool → Manager → Manager × String × Bool
on_command call topic device_id on m = (
  append_log_locked call log_event
      (String.◌++◌ "command topic=" (
        String.◌++◌ topic (
          String.◌++◌ " device="
            (String.◌++◌ device_id (String.◌++◌ " action=" (if on then "on" else "off"))))))
      m,
  device_id,
  on,
)
