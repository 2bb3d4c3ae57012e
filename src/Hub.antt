-- ===== src/Hub.antt =====
-- internal/clientlink/hub.go: the clients that are connected, by key. A connection is a number,
-- another for each upgrade; the handler of a connection is the sequence of its calls of `greet`,
-- `receive`, `heard_pong` and `leave` below. Each is one use of the hub's lock, but for `greet`, where
-- the handler reads the token before it takes the lock to enter the client.
-- Handlers of several connections interleave.

pub mod Sessions
pub mod Admission
use Prim.Native.String
use wakehub.Base.{
  ℕ, String, Bool, true, false, ◌&&◌, ◌||◌, not, List, [], ◌∷◌, map, Option, none, some,
  if◌then◌else◌, ◌==◌, nat_eq, lookup, insert, erase, is_some, Result, ok, err,
}
use wakehub.Config.{NicInfo}
use wakehub.Protocol.{Hello, Reply, hello_ok, pong, error, control}

pub record ClientInfo : Type 0 where
  pub key : String
  pub hostname : String
  pub nics : List NicInfo
  pub remote : String
  pub connected : ℕ
  pub last_seen : ℕ
  pub version : String
  pub os : String
  pub arch : String
  pub last_event : String
  pub last_error : String
  pub last_event_at : ℕ

pub record ConnEntry : Type 0 where
  pub info : ClientInfo
  pub conn : ℕ

-- `closed` lists the connections that the hub closed.
pub record Hub : Type 0 where
  pub clients : List (String × ConnEntry)
  pub token : String
  pub closed : List ℕ

unfoldable pub new_hub : String → Hub
new_hub token = record { clients = []; token = token; closed = [] }

unfoldable pub set_token : String → Hub → Hub
set_token token h = record h { token = token }

unfoldable pub list : Hub → List ClientInfo
list h = map (λ e. e.1.info) h.clients

unfoldable pub get : Hub → String → Option ClientInfo
get h key = elim (lookup key h.clients) [ none ↦ none | some c ↦ some c.info ]

unfoldable pub online : Hub → String → Bool
online h key = if key == "" then false else is_some (lookup key h.clients)

-- SendControl: the connection and the message that is written to it, or the error. The request's
-- id is made from the key and the clock; `written` is the error of the write, `none` for nil.
unfoldable pub send_control :
    Hub → String → String → String → Option String → Result String × List (ℕ × Reply)
send_control h key typ req_id written = elim (lookup key h.clients) [
  | none ↦ (err "client offline or not bound", [])
  | some c ↦ elim written [
    | none ↦ (ok req_id, (c.conn, control typ req_id) ∷ [])
    | some e ↦ (err e, [])
  ]
]

-- The entry of a client that is let in.
abbrev pub entry_of : ℕ → String → ℕ → Hello → ConnEntry
entry_of conn remote now hello = record {
  conn = conn;
  info = record {
    key = hello.key;
    hostname = hello.hostname;
    nics = hello.nics;
    remote = remote;
    connected = now;
    last_seen = now;
    version = hello.version;
    os = hello.os;
    arch = hello.arch;
    last_event = "";
    last_error = "";
    last_event_at = 0;
  };
}

-- The first message of a connection, `none` where json.Unmarshal refuses it, and its answer.
unfoldable pub greet : Hub → ℕ → String → ℕ → Option Hello → Hub × Reply
greet h conn remote now none = (h, error "invalid_hello" "invalid hello")
greet h conn remote now (some hello) =
    if not (hello.type == "hello") || hello.key == ""
    then (h, error "invalid_hello" "invalid hello")
    else if not (h.token == "") && not (hello.token == h.token)
    then (h, error "token_mismatch" "token mismatch")
    else (
      record h {
        clients = insert hello.key (entry_of conn remote now hello) h.clients;
        closed = elim (lookup hello.key h.clients) [
          | none ↦ h.closed
          | some old ↦ old.conn ∷ h.closed
        ];
      },
      hello_ok,
    )

-- h.clients[key].info changed, if there is such a client
abbrev pub touch : String → (ClientInfo → ClientInfo) → Hub → Hub
touch key change h = elim (lookup key h.clients) [
  | none ↦ h
  | some c ↦ record h { clients = insert key (record c { info = change c.info }) h.clients }
]

-- The field "nics" of a ping: it is not there, or it is, and is a list of interfaces or not.
pub data NicsField : Type 0 where
  absent : NicsField
  refused : NicsField
  given : List NicInfo → NicsField

-- A message of the loop: not a text message or no JSON object, or its type and the fields that
-- the type's case reads, "" where one is no string.
pub data Frame : Type 0 where
  skipped : Frame
  ping : NicsField → String → Frame
  -- "shutdown_ack" or "shutdown_err", the status and the error
  report : String → String → String → Frame
  unknown : String → Frame

unfoldable pub receive : Hub → String → ℕ → Frame → Hub × List Reply
receive h key now skipped = (h, [])
receive h key now (ping (given nics) hostname) = (
  touch key
      (λ i. record i {
        nics = nics;
        last_seen = now;
        hostname = if hostname == "" then i.hostname else hostname;
      })
      h,
  pong ∷ [],
)
receive h key now (ping refused hostname) = (h, pong ∷ [])
receive h key now (ping absent hostname) =
    (touch key (λ i. record i { last_seen = now }) h, pong ∷ [])
receive h key now (report typ status failure) = (
  touch key
      (λ i. record i {
        last_event = if status == "" then typ else String.◌++◌ typ (String.◌++◌ ":" status);
        last_error = failure;
        last_event_at = now;
        last_seen = now;
      })
      h,
  [],
)
receive h key now (unknown typ) = (h, [])

unfoldable pub heard_pong : Hub → String → ℕ → Hub
heard_pong h key now = touch key (λ i. record i { last_seen = now }) h

-- What the handler does when its connection has ended.
unfoldable pub leave : Hub → String → ℕ → Hub
leave h key conn = elim (lookup key h.clients) [
  | none ↦ h
  | some cur ↦ if nat_eq cur.conn conn then record h { clients = erase key h.clients } else h
]
