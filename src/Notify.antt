-- ===== src/Notify.antt =====
-- internal/notify/notify.go: whether an event is posted to the webhook, and as what. What becomes of
-- the request is only logged.
use wakehub.Base.{
  ℕ, String, Bool, false, ◌&&◌, not, Option, none, some, if◌then◌else◌, ◌==◌, nat_eq,
}
use wakehub.Text.{trim_space}
use wakehub.Config.{Settings}

pub record Event : Type 0 where
  pub event : String
  pub device_id : String
  pub device_name : String
  pub group_id : String
  pub group_name : String
  pub ok : Bool
  pub error : String
  pub detail : String
  pub time : ℕ

abbrev pub zero_event : Event
zero_event = record {
  event = "";
  device_id = "";
  device_name = "";
  group_id = "";
  group_name = "";
  ok = false;
  error = "";
  detail = "";
  time = 0;
}

-- The URL and the event that are handed to http.NewRequest, `none` where Send returns before.
unfoldable pub send : Settings → ℕ → Event → Option (String × Event)
send st now ev =
    let url = trim_space st.notify_webhook in
    if url == ""
    then none
    else if ev.event == "wake" && not st.notify_on_wake
    then none
    else if ev.event == "shutdown" && not st.notify_on_shutdown
    then none
    else if ev.event == "probe" && not st.notify_on_probe_change
    then none
    else if ev.event == "schedule" && not st.notify_on_schedule
    then none
    else some (url, record ev { time = if nat_eq ev.time 0 then now else ev.time })
