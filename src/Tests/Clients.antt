-- ===== src/Tests/Clients.antt =====
-- The probes and the client at small inputs.
use wakehub.Base.{
  ◌+◌, inr, ℕ, ◌≤◌, String, true, false, List, [], ◌∷◌, none, some, ◌≡◌, ◌⊎◌, refl, ok, All, arith,
}
use wakehub.Text.{trim_space, contains, has_prefix}
use wakehub.Config.{Device}
use wakehub.Config.Store.{Store, list_devices}
use wakehub.Probe.Overtaking.{Act, sets, calls, act, after, changes_in, count, after-IsTold}
use wakehub.Probe.{
  Result, Watch, zero_result, observe, Net, Runner, new_status_cache, tick, is_off, method_of,
  interval_of,
}
use wakehub.Probe.Rounds.{IsFresh, tick-IsFresh}
use wakehub.Probe.Listener.{told, known}
use wakehub.Hub.{new_hub, greet}
use wakehub.Client.Control.Spacing.{
  Event, message, pruning, ended, inbox_after, IsSpaced, inbox_after-IsSpaced,
}
use wakehub.Client.Greeting.{UrlText, Line, normalize_ws, session}
use wakehub.Client.Greeting.Exchange.{read_reply, IsEntered, round_of, session-agrees}
use wakehub.Protocol.{error, is_auth_failure}
use wakehub.Client.Reconnect.{permanent, initial_backoff, run}
use wakehub.Client.Reconnect.Waits.{failing_rounds, waits_from, run-perseveres}
use wakehub.Client.Settings.{
  ClientConfig, Overrides, System, missing, merge_install_config, install_config, zero_config,
}
use wakehub.Tests.Samples.{stored_pc, store_of, hello}

abbrev net : Net
net = record {
  now = 105;
  elapsed = 12;
  join = λ host port. host;
  dial = λ address seconds. none;
  windows = false;
  ping = λ arguments. ("", none);
}

abbrev watched_pc : Device
watched_pc = record stored_pc { probe_method = "tcp"; probe_host = "pc.local" }

abbrev watched_store : Store
watched_store = store_of (watched_pc ∷ []) [] []

abbrev runner : Runner
runner = record { nics_fn = none; has_on_change = true }

clock : (id : String) → 100 ≤ 105
clock id = omega arith

tick-IsFresh_example :
    All
      (λ d.
        (is_off (method_of d) ≡ true)
        ⊎ IsFresh 100
            (interval_of d)
            d.id
            (tick runner 100 (λ id. net) watched_store new_status_cache))
      (list_devices watched_store)
tick-IsFresh_example = tick-IsFresh runner 100 (λ id. net) clock watched_store new_status_cache

-- The runner finds the machine, and the probe that is asked for does not; the call of the second
-- comes first.
abbrev acts : List Act
acts =
    calls 0
    ∷ calls 0
    ∷ sets (record zero_result { device_id = "d1" })
    ∷ sets (record zero_result { device_id = "d1"; online = true })
    ∷ []

after-IsTold_example :
    (told (changes_in acts) "d1" ≡ known (after runner acts).watch "d1")
    × (count (λ c. c.1.online) (after runner acts).watch.changes
          + count (λ c. c.1.online) (after runner acts).due
        ≡ count (λ c. c.1.online) (changes_in acts))
    × ((cur : Result) (w : Watch)
        → (act runner (calls 0) (act runner (sets cur) (record { watch = w; due = [] }))).watch
          ≡ observe runner cur w)
after-IsTold_example = after-IsTold runner acts "d1" (λ c. c.1.online) refl

-- A request, its copy, and the same request eleven minutes later, after the pruning.
abbrev messages : List (ℕ × Event)
messages =
    (1, message "shutdown" "r1")
    ∷ (660000000000, pruning)
    ∷ (1, message "shutdown" "r1")
    ∷ (5, ended "r1" none)
    ∷ (10, message "shutdown" "r1")
    ∷ []

inbox_after-IsSpaced_example : IsSpaced (inbox_after messages).started
inbox_after-IsSpaced_example = inbox_after-IsSpaced messages

abbrev failures : List (String × ℕ)
failures = ("refused", 7) ∷ ("refused", 8) ∷ ("timeout", 9) ∷ []

run-perseveres_example :
    run initial_backoff (failing_rounds failures) ≡ (waits_from 0 failures, none)
run-perseveres_example = run-perseveres failures

abbrev urls : UrlText
urls = record {
  parse = λ s. ok (record { scheme = "ws"; path = "/api/ws/client"; rest = "hub" });
  quote = λ s. s;
  text = λ u. "ws://hub/api/ws/client";
}

-- A client with another token than the hub's.
abbrev line : Line
line = record {
  stopped = false;
  urls = urls;
  dial = λ url. none;
  ended = false;
  write = none;
  first = inr ("{}", ok (read_reply (greet (new_hub "other") 1 "a" 10 (some hello)).1));
}

parsed : normalize_ws urls "ws://hub" ≡ ok "ws://hub/api/ws/client"
unfolding normalize_ws contains has_prefix
parsed = refl

session-agrees_example :
    (((session line "ws://hub").0 ≡ true)
      × IsEntered (greet (new_hub "other") 1 "a" 10 (some hello)).0 1 "a" 10 (some hello))
    ⊎ ((reason : String) × (code : String) × ((greet (new_hub "other") 1 "a" 10 (some hello)).1
          ≡ error code reason)
        × (is_auth_failure code ≡ true)
        × ((greet (new_hub "other") 1 "a" 10 (some hello)).0 ≡ new_hub "other")
        × (run initial_backoff
              (round_of (session line "ws://hub") 7 false ∷ failing_rounds failures)
            ≡ ([], some (permanent reason code))))
session-agrees_example =
    session-agrees (new_hub "other") 1 "a" "{}" 10 (some hello) line "ws://hub"
      "ws://hub/api/ws/client" initial_backoff 7 false (failing_rounds failures) refl parsed refl
      refl refl

abbrev system : System
system = record {
  load = λ path. missing "no such file";
  hostname = "pc";
  windows = false;
  program_data = "";
  join = λ base. base;
  look_path = λ program. true;
}

abbrev flags : Overrides
flags = record {
  config_path = "";
  server = "ws://hub";
  token = "secret";
  key = "";
  shutdown_cmd = "";
  mdns = "";
}

abbrev installed : ClientConfig
installed = install_config system flags zero_config

installing : merge_install_config system "/etc/c.json" flags ≡ ok installed
unfolding merge_install_config
installing = refl

bare : trim_space "/etc/c.json" ≡ "/etc/c.json"
unfolding trim_space
bare = refl
