-- ===== src/Bemfa/Ensure.antt =====
-- internal/bemfa/manager.go, lines 228 to 298: the topic of one device.
pub mod Binding
use Prim.Native.String
use wakehub.Base.{String, Bool, true, false, not, Option, none, some, if◌then◌else◌, ◌==◌}
use wakehub.Text.{trim_space}
use wakehub.Config.{Device}
use wakehub.Bemfa.{
  Call, Manager, append_log_locked, set_last_error_locked, log_info, log_warn, log_error, log_event,
}
use wakehub.Bemfa.Topics.{normalize_topic, sanitize_name, validate_topic, generate_topic}
use wakehub.Bemfa.Creation.{create_topic_idempotent}
use wakehub.Bemfa.Session.{subscribe_locked, unsubscribe_locked}

abbrev pub failing : Call → String → String → Manager → Manager
failing call message e m =
    append_log_locked call log_error message (set_last_error_locked (some e) m)

-- The name that the topic gets at the cloud.
unfoldable pub cloud_name : Device → String
cloud_name d =
    let given = trim_space d.bemfa_name in
    let name = sanitize_name (if given == "" then trim_space d.name else given) in
    if name == "" then "WakeHub" else name

-- EnsureDevice once createTopicIdempotent has returned: the subscription.
unfoldable pub bind_created :
    Call → String → Device → Manager × Option String → Manager × Option String
bind_created call topic d (made, some e) =
    let warned =
      append_log_locked call log_warn (String.◌++◌ "create topic failed, try subscribe anyway: " e)
        made in
    let (bound, failed) = subscribe_locked call topic d.id warned in
    elim failed [
      | some f ↦ (
        failing call
            (String.◌++◌ "subscribe after create-fail also failed topic="
              (String.◌++◌ topic (String.◌++◌ ": " f)))
            e bound,
        some (String.◌++◌ e (String.◌++◌ "; subscribe: " f)),
      )
      | none ↦ (
        set_last_error_locked (some e) (
            append_log_locked call log_event
              (String.◌++◌ "subscribed existing/manual topic=" (
                String.◌++◌ topic
                  (String.◌++◌ " device=" (String.◌++◌ d.id " (create API failed)"))))
              bound),
        none,
      )
    ]
bind_created call topic d (made, none) =
    let (bound, failed) = subscribe_locked call topic d.id made in
    elim failed [
      | some f ↦ (
        failing call
            (String.◌++◌ "subscribe failed topic=" (String.◌++◌ topic (String.◌++◌ ": " f))) f
            bound,
        some f,
      )
      | none ↦ (bound, none)
    ]

-- EnsureDevice from the place where the topic is set.
unfoldable pub ensure_topic : Call → String → Device → Manager → Manager × Option String
ensure_topic call topic d m = elim (validate_topic call.quote topic) [
  | some e ↦ (failing call (String.◌++◌ "invalid topic: " e) e m, some e)
  | none ↦ bind_created call topic d (create_topic_idempotent call m.uid topic (cloud_name d) m)
]

-- EnsureDevice for a device that has Bemfa enabled, once there is a user and a connection.
unfoldable pub ensure_ready : Call → Device → Manager → Manager × String × Option String
ensure_ready call d m =
    let given = trim_space d.bemfa_topic in
    let drawn = generate_topic call.read in
    let topic = normalize_topic (if given == "" then drawn else given) in
    let ready =
      if given == ""
      then append_log_locked call log_info
          (String.◌++◌ "generated topic=" (String.◌++◌ drawn (String.◌++◌ " for device=" d.id))) m
      else m in
    let (m', failed) = ensure_topic call topic d ready in (m', topic, failed)

-- The topic that EnsureDevice leaves in the device comes second.
unfoldable pub ensure_device : Call → Device → Manager → Manager × String × Option String
ensure_device call d m =
    if not d.bemfa_enable
    then (
      (if d.bemfa_topic == ""
          then m
          else append_log_locked call log_info
              (String.◌++◌ "bemfa disabled for device="
                (String.◌++◌ d.id (String.◌++◌ " topic=" d.bemfa_topic)))
              (unsubscribe_locked d.bemfa_topic m)),
      d.bemfa_topic,
      none,
    )
    else if m.uid == ""
    then (
      failing call "bemfa UID is empty; configure global UID first"
          "bemfa UID is empty; configure global UID first" m,
      d.bemfa_topic,
      some "bemfa UID is empty; configure global UID first",
    )
    else if not m.dev
    then (
      failing call "bemfa not connected" "bemfa not connected" m,
      d.bemfa_topic,
      some "bemfa not connected",
    )
    else ensure_ready call d m

unfoldable pub remove_device : Call → Device → Manager → Manager
remove_device call d m =
    if d.bemfa_topic == ""
    then m
    else append_log_locked call log_info
        (String.◌++◌ "unsubscribed topic="
          (String.◌++◌ d.bemfa_topic (String.◌++◌ " device=" d.id)))
        (unsubscribe_locked d.bemfa_topic m)
