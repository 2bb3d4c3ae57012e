-- ===== src/Hub/Sessions.antt =====
-- internal/clientlink/hub.go: the connection that serves a key, and the interleavings of handlers.
use mathlib.Core.Path.{fun_ext}
use wakehub.Base.{
  ap₂, ℕ, String, Bool, false, ◌&&◌, ◌||◌, not, List, [], ◌∷◌, Option, none, some, if◌then◌else◌,
  ◌==◌, eq_iff, nat_eq, lookup, lookup-insert, lookup-erase, ok, err, ◌≡◌, refl, ◌∙◌, inl, inr,
  arith, Option-cases, All,
}
use wakehub.Protocol.{Hello, control}
use wakehub.Hub.{
  ClientInfo, entry_of, Hub, Frame, greet, receive, heard_pong, leave, send_control, skipped, ping,
  report, unknown, absent, refused, given, touch,
}

-- What the handler of a connection does to the hub in one step. It reads the token before it
-- enters the client; the token stays the same along the events here.
pub data Event : Type 0 where
  greets : ℕ → String → ℕ → Option Hello → Event
  receives : String → ℕ → Frame → Event
  pongs : String → ℕ → Event
  leaves : String → ℕ → Event

unfoldable pub deliver : Hub → Event → Hub
deliver h (greets conn remote now hello) = (greet h conn remote now hello).0
deliver h (receives key now frame) = (receive h key now frame).0
deliver h (pongs key now) = heard_pong h key now
deliver h (leaves key conn) = leave h key conn

unfoldable pub deliver_all : Hub → List Event → Hub
deliver_all h [] = h
deliver_all h (e ∷ es) = deliver_all (deliver h e) es

-- The connection that the hub has for a key.
unfoldable pub conn_of : Hub → String → Option ℕ
conn_of h key = elim (lookup key h.clients) [ none ↦ none | some c ↦ some c.conn ]

-- Whether a hub with this token lets a client in.
abbrev pub admits : String → Hello → Bool
admits token hello =
    hello.type == "hello" && not (hello.key == "") && (token == "" || hello.token == token)

-- The specification: the last connection that was let in serves a key, until that one leaves.
abbrev pub serves : String → (String → Option ℕ) → Event → String → Option ℕ
serves token view (greets conn remote now none) key = view key
serves token view (greets conn remote now (some hello)) key =
    if admits token hello && hello.key == key then some conn else view key
serves token view (receives k now frame) key = view key
serves token view (pongs k now) key = view key
serves token view (leaves k conn) key =
    if k == key
    then elim (view key) [ none ↦ none | some c ↦ if nat_eq c conn then none else some c ]
    else view key

conn_of-touch :
    (k key : String) (change : ClientInfo → ClientInfo) (h : Hub)
    → conn_of (touch k change h) key ≡ conn_of h key
unfolding conn_of
conn_of-touch k key change h = elim (Option-cases (lookup k h.clients)) [
  | inl e ↦ ground arith
  | inr (c, e) ↦
      ground
        (arith, lookup-insert k key (record c { info = change c.info }) h.clients, eq_iff k key)
]

conn_of-receive :
    (h : Hub) (k key : String) (now : ℕ) (f : Frame)
    → conn_of (receive h k now f).0 key ≡ conn_of h key
unfolding receive
conn_of-receive h k key now skipped = refl
conn_of-receive h k key now (ping (given nics) hostname) = conn_of-touch k key _ h
conn_of-receive h k key now (ping refused hostname) = refl
conn_of-receive h k key now (ping absent hostname) = conn_of-touch k key _ h
conn_of-receive h k key now (report typ status failure) = conn_of-touch k key _ h
conn_of-receive h k key now (unknown typ) = refl

conn_of-greet :
    (h : Hub) (conn : ℕ) (remote : String) (now : ℕ) (hello : Hello) (key : String)
    → conn_of (greet h conn remote now (some hello)).0 key
      ≡ (if admits h.token hello && hello.key == key then some conn else conn_of h key)
unfolding greet conn_of
conn_of-greet h conn remote now hello key =
    ground (arith, lookup-insert hello.key key (entry_of conn remote now hello) h.clients)

conn_of-leave :
    (h : Hub) (k : String) (conn : ℕ) (key : String)
    → conn_of (leave h k conn) key ≡ serves h.token (conn_of h) (leaves k conn) key
unfolding leave conn_of
conn_of-leave h k conn key = ground (arith, lookup-erase k key h.clients, eq_iff k key)

token-deliver : (h : Hub) (e : Event) → (deliver h e).token ≡ h.token
unfolding deliver greet receive heard_pong leave
token-deliver h (greets conn remote now none) = refl
token-deliver h (greets conn remote now (some hello)) = ground arith
token-deliver h (receives k now skipped) = refl
token-deliver h (receives k now (ping (given nics) hostname)) = ground arith
token-deliver h (receives k now (ping refused hostname)) = refl
token-deliver h (receives k now (ping absent hostname)) = ground arith
token-deliver h (receives k now (report typ status failure)) = ground arith
token-deliver h (receives k now (unknown typ)) = refl
token-deliver h (pongs k now) = ground arith
token-deliver h (leaves k conn) = ground arith

-- One event changes the connections of the hub as the specification says: a hello with a right
-- token takes its key over, the end of a connection frees its key only while that connection
-- serves it, and every other message changes no connection.
pub conn_of-deliver :
    (h : Hub) (e : Event) (key : String)
    → conn_of (deliver h e) key ≡ serves h.token (conn_of h) e key
unfolding deliver
conn_of-deliver h (greets conn remote now none) key = unfold greet in refl
conn_of-deliver h (greets conn remote now (some hello)) key =
    conn_of-greet h conn remote now hello key
conn_of-deliver h (receives k now f) key = conn_of-receive h k key now f
conn_of-deliver h (pongs k now) key = unfold heard_pong in conn_of-touch k key _ h
conn_of-deliver h (leaves k conn) key = conn_of-leave h k conn key

-- The specification along a sequence of events.
abbrev pub serves_all : String → (String → Option ℕ) → List Event → String → Option ℕ
serves_all token view [] = view
serves_all token view (e ∷ es) = serves_all token (serves token view e) es

-- For every interleaving of the handlers, while the token stays the same, the hub serves each key
-- by the last connection that was let in with it and has not ended.
pub conn_of-deliver_all :
    (h : Hub) (es : List Event) → conn_of (deliver_all h es) ≡ serves_all h.token (conn_of h) es
unfolding deliver_all
conn_of-deliver_all h [] = refl
conn_of-deliver_all h (e ∷ es) =
    conn_of-deliver_all (deliver h e) es
    ∙ ap₂ (λ t v. serves_all t v es) (token-deliver h e) (fun_ext (conn_of-deliver h e))

-- An event that neither lets a client in with this key nor ends this connection.
abbrev pub IsForeign : String → String → ℕ → Event → Type 0
IsForeign token key c (greets conn remote now none) = Unit {0}
IsForeign token key c (greets conn remote now (some hello)) =
    (admits token hello && hello.key == key) ≡ false
IsForeign token key c (receives k now frame) = Unit {0}
IsForeign token key c (pongs k now) = Unit {0}
IsForeign token key c (leaves k conn) = (k == key && nat_eq c conn) ≡ false

deliver-keeps :
    (h : Hub) (key : String) (c : ℕ) (e : Event)
    → conn_of h key ≡ some c
    → IsForeign h.token key c e
    → conn_of (deliver h e) key ≡ some c
deliver-keeps h key c (greets conn remote now none) o f = conn_of-deliver h _ key ∙ o
deliver-keeps h key c (greets conn remote now (some hello)) o f =
    conn_of-deliver h _ key ∙ ground arith
deliver-keeps h key c (receives k now frame) o f = conn_of-deliver h _ key ∙ o
deliver-keeps h key c (pongs k now) o f = conn_of-deliver h _ key ∙ o
deliver-keeps h key c (leaves k conn) o f = conn_of-deliver h _ key ∙ ground arith

-- A client that is connected stays connected through any events of other handlers: an older
-- connection with its key that ends, however late, does not remove it.
pub deliver_all-keeps :
    (h : Hub) (key : String) (c : ℕ) (es : List Event)
    → conn_of h key ≡ some c
    → All (IsForeign h.token key c) es
    → conn_of (deliver_all h es) key ≡ some c
unfolding deliver_all
deliver_all-keeps h key c [] o f = o
deliver_all-keeps h key c (e ∷ es) o f =
    deliver_all-keeps (deliver h e) key c es (deliver-keeps h key c e o f.0)
      (rw (token-deliver h e) f.1)

-- A command is written once, to the connection that serves the key; to no connection where the
-- key has none or the write fails, and then the caller gets an error.
pub send_control-conn_of :
    (h : Hub) (key typ req_id : String) (written : Option String)
    → send_control h key typ req_id written ≡ elim (conn_of h key) [
      | none ↦ (err "client offline or not bound", [])
      | some c ↦ elim written [
        | none ↦ (ok req_id, (c, control typ req_id) ∷ [])
        | some e ↦ (err e, [])
      ]
    ]
unfolding send_control conn_of
send_control-conn_of h key typ req_id written = ground arith
