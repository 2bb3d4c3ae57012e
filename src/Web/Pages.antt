-- ===== src/Web/Pages.antt =====
-- internal/web/meta.go, and the pages of internal/web/server.go that show the state of the server:
-- the health, the version, the status, the clients, the peers, the topics with their log, and the
-- entries of the audit.
pub mod Blind
use wakehub.Base.{
  ℕ, ℤ, pos, negsuc, nat_eq, String, Bool, not, List, Option, none, some, Result, ok, err, length,
  if◌then◌else◌, ◌==◌,
}
use wakehub.Text.{trim_space}
use wakehub.Config.{Settings}
use wakehub.Config.Password.{Bcrypt}
use wakehub.Config.Store.{list_devices}
use wakehub.Config.Store.Globals.{settings}
use wakehub.Audit.{Entry, Ring}
use wakehub.Audit
use wakehub.Hub.{ClientInfo}
use wakehub.Hub
use wakehub.Mdns.{Peer}
use wakehub.Mdns
use wakehub.Bemfa.{Call, LogEntry, Manager, logs_of, clear_logs}
use wakehub.Bemfa.Session.{Status, connected}
use wakehub.Bemfa.Session
use wakehub.Web.{Method, get, post, put, delete, other}
use wakehub.Web.Auth.{Request}
use wakehub.Web.Globals.{Site}
use wakehub.Web.Routes.{
  Page, Routes, healthz, readyz, version, status, settings_page, devices, device_sub, clients,
  discover, mqtt, mqtt_logs, groups, group_sub, schedules, schedule_sub, batch, audit, socket,
  files, reaches,
}

-- The parts of the server that the pages show, with the version and the time of the build.
pub record Server : Type 0 where
  pub site : Site
  pub ring : Ring
  pub peers : List (String × Peer)
  pub build : String × String

-- What the answers hold; the version of Go, its system and the time of the start are left out.
pub data Answer : Type 0 where
  fails : ℕ → String → Answer
  healthy : Answer
  ready : ℕ → ℕ → Answer
  shows_version : String → String → Answer
  -- connected, whether there is a UID, the address, clients, devices, the version and the build
  shows_status : Bool → Bool → String → ℕ → ℕ → Status → String × String → Answer
  shows_clients : List ClientInfo → Answer
  shows_peers : List ClientInfo → List Peer → Answer
  shows_topics : Status → Answer
  shows_logs : List LogEntry → Status → Answer
  shows_audit : List Entry → Answer
  done : Answer
  -- 401, or 404 where no pattern has the path
  turned_away : Answer

abbrev pub not_allowed : Answer
not_allowed = fails 405 "method not allowed"

abbrev pub only_get : Method → Answer → Answer
only_get get answer = answer
only_get post answer = not_allowed
only_get put answer = not_allowed
only_get delete answer = not_allowed
only_get other answer = not_allowed

unfoldable pub handle_healthz : Method → Answer
handle_healthz m = only_get m healthy

unfoldable pub handle_readyz : Method → Server → Answer
handle_readyz m s =
    only_get m (ready (length (list_devices s.site.store)) (length (Hub.list s.site.hub)))

abbrev pub version_of : Server → String
version_of s = if s.build.0 == "" then "dev" else s.build.0

unfoldable pub handle_version : Method → Server → Answer
handle_version m s = only_get m (shows_version (version_of s) s.build.1)

-- `live` says whether the library is connected.
unfoldable pub handle_status : Call → Bool → Method → Server → Answer
handle_status call live m s =
    let st = settings s.site.store in
    let topics = Session.status call live s.site.manager in
    only_get m (
      shows_status topics.is_connected (not (trim_space st.bemfa_uid == "")) st.listen
        (length (Hub.list s.site.hub)) (length (list_devices s.site.store)) topics
        (version_of s, s.build.1))

unfoldable pub handle_clients : Method → Server → Answer
handle_clients m s = only_get m (shows_clients (Hub.list s.site.hub))

-- The server always has a browser.
unfoldable pub handle_discover : Method → Server → Answer
handle_discover m s = only_get m (shows_peers (Hub.list s.site.hub) (Mdns.list s.peers))

unfoldable pub handle_mqtt : Call → Bool → Method → Server → Answer
handle_mqtt call live m s = only_get m (shows_topics (Session.status call live s.site.manager))

abbrev pub positive_or : ℕ → ℤ → ℕ
positive_or fallback (pos n) = if nat_eq n 0 then fallback else n
positive_or fallback (negsuc n) = fallback

-- The key "limit" of the query, which strconv.Atoi reads.
unfoldable pub limit_of : ℕ → (String → Result ℤ) → String → ℕ
limit_of fallback atoi v =
    if v == "" then fallback else elim (atoi v) [ err e ↦ fallback | ok n ↦ positive_or fallback n ]

unfoldable pub handle_audit : (String → Result ℤ) → Method → String → Server → Answer
handle_audit atoi m limit s = only_get m (shows_audit (Audit.list s.ring (limit_of 50 atoi limit)))

unfoldable pub handle_mqtt_logs :
    Call → Bool → (String → Result ℤ) → Method → String → Server → Server × Answer
handle_mqtt_logs call live atoi get limit s = (
  s,
  shows_logs (logs_of s.site.manager (limit_of 100 atoi limit))
      (Session.status call live s.site.manager),
)
handle_mqtt_logs call live atoi delete limit s =
    let site = s.site in
    (record s { site = record site { manager = clear_logs call site.manager } }, done)
handle_mqtt_logs call live atoi post limit s = (s, not_allowed)
handle_mqtt_logs call live atoi put limit s = (s, not_allowed)
handle_mqtt_logs call live atoi other limit s = (s, not_allowed)

-- The query of a request, and what its page meets outside: the call of the manager, whether the
-- library is connected, and strconv.Atoi.
pub record Query : Type 0 where
  pub method : Method
  pub limit : String
  pub call : Call
  pub live : Bool
  pub atoi : String → Result ℤ

-- The pages of the other modules, the hub's socket and the server of the files are the argument
-- `others`.
unfoldable pub serve_page :
    (Page → Server → Server × Answer) → Query → Page → Server → Server × Answer
serve_page others q healthz s = (s, handle_healthz q.method)
serve_page others q readyz s = (s, handle_readyz q.method s)
serve_page others q version s = (s, handle_version q.method s)
serve_page others q status s = (s, handle_status q.call q.live q.method s)
serve_page others q clients s = (s, handle_clients q.method s)
serve_page others q discover s = (s, handle_discover q.method s)
serve_page others q mqtt s = (s, handle_mqtt q.call q.live q.method s)
serve_page others q mqtt_logs s = handle_mqtt_logs q.call q.live q.atoi q.method q.limit s
serve_page others q audit s = (s, handle_audit q.atoi q.method q.limit s)
serve_page others q settings_page s = others settings_page s
serve_page others q devices s = others devices s
serve_page others q device_sub s = others device_sub s
serve_page others q groups s = others groups s
serve_page others q group_sub s = others group_sub s
serve_page others q schedules s = others schedules s
serve_page others q schedule_sub s = others schedule_sub s
serve_page others q batch s = others batch s
serve_page others q socket s = others socket s
serve_page others q files s = others files s

-- Handler: the test of the credentials, then the page of the path.
unfoldable pub serve :
    Bcrypt → Routes → (Page → Server → Server × Answer) → Query → Request → Server → Server × Answer
serve crypt rs others q r s = elim (reaches crypt (settings s.site.store) rs r) [
  | none ↦ (s, turned_away)
  | some page ↦ serve_page others q page s
]
