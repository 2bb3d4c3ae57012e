-- ===== src/Tests/Links.antt =====
-- The hub, the service, the audit ring, the runner, the access test and the packets at small inputs.
use wakehub.Base.{
  ℕ, suc, pos, String, false, List, [], ◌∷◌, none, some, ◌≡◌, refl, ◌↔◌, ◌⊎◌, ok, All, map,
  replicate, take, lookup, insert,
}
use wakehub.Text.{trim_space}
use wakehub.Hub.{Hub, new_hub, greet, skipped}
use wakehub.Hub.Sessions.{
  IsForeign, Event, greets, receives, pongs, leaves, deliver_all, conn_of, serves_all,
  conn_of-deliver_all,
}
use wakehub.Hub.Admission.{IsAnswered, greet-hello_ok_iff}
use wakehub.Audit.{Entry, zero_entry, new, list}
use wakehub.Audit.History.{add_all, entries, limited, list-add_all}
use wakehub.Config.Store.Schedules.{list_schedules}
use wakehub.Service.{Service, Call, client_action, group_action}
use wakehub.Service.Actions.{IsCommand, bound_conn, client_action-IsCommand}
use wakehub.Runner.{Actor, Runner, Clock, tick}
use wakehub.Runner.Daily.{marked, tick-schedules, tick-tick}
use wakehub.Web.Auth.{Request, served, with_basic_auth}
use wakehub.Web.Auth.Access.{IsExempt, HasCredentials, with_basic_auth-served_iff}
use wakehub.Wol.{
  Net, wrote, MagicPacket, new_magic_packet, packet_bytes, parse_bytes, third, hex_value,
  matches_groups, targets, wake,
}
use wakehub.Wol.Sending.{ReachesSome, wake-sent_iff}
use wakehub.Config.{Group}
use wakehub.Config.Store.Groups.{get_group}
use wakehub.Service.Groups.{AllLastOk, group_action-wake_iff}
use wakehub.Service.Devices.{Bemfa}
use wakehub.Tests.Samples.{crypt, env, hello, full_store, plain_settings}

-- A client that comes back before the handler of its first connection has ended.
abbrev reconnect : List Event
reconnect = greets 1 "a" 10 (some hello) ∷ greets 2 "b" 20 (some hello) ∷ leaves "key" 1 ∷ []

conn_of-deliver_all_example :
    conn_of (deliver_all (new_hub "secret") reconnect)
    ≡ serves_all (new_hub "secret").token (conn_of (new_hub "secret")) reconnect
conn_of-deliver_all_example = conn_of-deliver_all (new_hub "secret") reconnect

abbrev joined : Hub
joined = (greet (new_hub "secret") 2 "b" 20 (some hello)).0

joined-conn_of : conn_of joined "key" ≡ some 2
unfolding conn_of greet new_hub lookup insert
joined-conn_of = refl

abbrev later : List Event
later = pongs "key" 30 ∷ receives "key" 31 skipped ∷ leaves "key" 1 ∷ []

later-IsForeign : All (IsForeign joined.token "key" 2) later
later-IsForeign = (tt, (tt, (refl, tt)))

greet-hello_ok_iff_example :
    IsAnswered
      (new_hub "secret")
      1
      "a"
      10
      (some hello)
      (greet (new_hub "secret") 1 "a" 10 (some hello))
greet-hello_ok_iff_example = greet-hello_ok_iff (new_hub "secret") 1 "a" 10 (some hello)

abbrev calls : List (ℕ × Entry)
calls = (12, record zero_entry { event = "wake" }) ∷ (11, zero_entry) ∷ []

list-add_all_example : list (add_all (new 4) calls) 1 ≡ limited 1 (take (new 4).cap (entries calls))
list-add_all_example = list-add_all 4 1 calls

abbrev net : Net
net = record { interfaces = ok []; resolve = λ h p. none; attempt = λ h p i payload. wrote 102 }

abbrev service : Service
service = record { store = full_store; hub = joined; audit = new 200; written = []; posted = [] }

abbrev call : Call
call = record { now = 100; net = net; req_id = "key-100"; write_err = none }

client_action-IsCommand_example :
    IsCommand
      (bound_conn service "d1")
      none
      "shutdown"
      "key-100"
      []
      (client_action "shutdown" call "d1" service)
client_action-IsCommand_example = client_action-IsCommand "shutdown" call "d1" service

-- An actor that counts its calls.
abbrev counter : Actor ℕ
counter = record {
  wake = λ s id n. (suc n, none);
  shutdown = λ s id n. (suc n, none);
  wake_group = λ s id n. (suc n, none);
  shutdown_group = λ s id n. (suc n, none);
}

abbrev runner : Runner ℕ
runner = record { actor = counter; note = none }

abbrev half_past_seven : Clock
half_past_seven = record { day = "2026-01-05"; weekday = pos 1; hour = pos 7; minute = pos 30 }

tick-schedules_example :
    list_schedules (tick runner (λ _. env) half_past_seven (full_store, 0)).0
    ≡ map (marked half_past_seven) (list_schedules full_store)
tick-schedules_example = tick-schedules runner (λ _. env) half_past_seven full_store 0 (tt, tt)

tick-tick_example :
    tick runner (λ _. env) half_past_seven (tick runner (λ _. env) half_past_seven (full_store, 0))
    ≡ tick runner (λ _. env) half_past_seven (full_store, 0)
tick-tick_example = tick-tick runner (λ _. env) (λ _. env) half_past_seven full_store 0 (tt, tt)

abbrev login : Request
login = record { path = "/api/devices"; basic_auth = some ("admin", "admin") }

with_basic_auth-served_iff_example : (with_basic_auth crypt plain_settings login ≡ served) ↔ (
    IsExempt plain_settings login
    ⊎ ((plain_settings.basic_auth_enable ≡ false)
        ⊎ HasCredentials crypt plain_settings login.basic_auth))
with_basic_auth-served_iff_example = with_basic_auth-served_iff crypt plain_settings login

abbrev hardware : List ℕ
hardware = 0xaa ∷ 0xbb ∷ 0xcc ∷ 0xdd ∷ 0xee ∷ 0xff ∷ []

abbrev packet : MagicPacket
packet = record { header = replicate 6 0xff; payload = replicate 16 hardware }

packet_made : new_magic_packet "aa:bb:cc:dd:ee:ff" ≡ ok packet
unfolding new_magic_packet trim_space matches_groups parse_bytes hex_value third
packet_made = refl

wake-sent_iff_example : ((wake net "aa:bb:cc:dd:ee:ff" "" (pos 9) (pos 3)).1 ≡ none) ↔ (
    (mp : MagicPacket) × (hosts : List String) × (new_magic_packet "aa:bb:cc:dd:ee:ff" ≡ ok mp)
    × (targets net "" ≡ ok hosts)
    × ReachesSome net (pos 9) (packet_bytes mp) 3 hosts)
wake-sent_iff_example = wake-sent_iff net "aa:bb:cc:dd:ee:ff" "" (pos 9) (pos 3)

-- A manager that counts its calls and keeps every topic.
abbrev manager : Bemfa ℕ
manager = record {
  ensure_device = λ n d. (suc n, d.bemfa_topic, none);
  remove_device = λ n d. suc n;
  validate_topic = λ t. none;
}

group_action-wake_iff_example : ((group_action "wake" (λ _. call) "g1" service).1 ≡ none) ↔ (
    (g : Group) × (get_group full_store "g1" ≡ some g)
    × AllLastOk full_store (λ _. call) g.device_ids)
group_action-wake_iff_example = group_action-wake_iff (λ _. call) "g1" service
