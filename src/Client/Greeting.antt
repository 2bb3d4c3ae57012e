-- ===== src/Client/Greeting.antt =====
-- internal/clientapp/protocol.go and the first half of Session in session.go: how a session begins.
pub mod Exchange
use Prim.Native.String
use wakehub.Base.{
  ◌⊎◌, inl, inr, ℕ, String, Bool, true, false, ◌&&◌, ◌||◌, not, Option, none, some, if◌then◌else◌,
  ◌==◌, Result, ok, err,
}
use wakehub.Text.{to_lower, contains}
use wakehub.Config.{default_ws_path}
use wakehub.Protocol.{Hello, is_auth_failure}

-- An error of a session: one that errors.Is finds to be an error of a context, a FatalError with
-- its message and its code, or another one.
pub data SessionError : Type 0 where
  cancelled : SessionError
  fatal : String → String → SessionError
  other : String → SessionError

unfoldable pub is_fatal : SessionError → Bool
is_fatal cancelled = false
is_fatal (fatal message code) = true
is_fatal (other e) = false

-- A URL of net/url: its scheme, its path, and what else it holds.
pub record Url : Type 0 where
  pub scheme : String
  pub path : String
  pub rest : String

-- url.Parse, the method String of a URL, and strconv.Quote
pub record UrlText : Type 0 where
  pub parse : String → Result Url
  pub quote : String → String
  pub text : Url → String

unfoldable pub normalize_ws : UrlText → String → Result String
normalize_ws urls given =
    let s = if contains given "://" then given else String.◌++◌ "ws://" given in
    elim (urls.parse s) [
      | err e ↦ err e
      | ok u ↦
          let path = if u.path == "" || u.path == "/" then default_ws_path else u.path in
          if u.scheme == "http"
          then ok (urls.text (record u { scheme = "ws"; path = path }))
          else if u.scheme == "https"
          then ok (urls.text (record u { scheme = "wss"; path = path }))
          else if u.scheme == "ws" || u.scheme == "wss"
          then ok (urls.text (record u { path = path }))
          else err (String.◌++◌ "unsupported scheme " (urls.quote u.scheme))
    ]

-- The fields that the client reads of the server's first message, "" where one is no string.
pub record Greeted : Type 0 where
  pub type : String
  pub message : String
  pub code : String

-- The case of an error message.
unfoldable pub refused : String → Greeted → SessionError
refused raw m =
    let message = if m.message == "" then raw else m.message in
    let low = to_lower message in
    if is_auth_failure m.code
    then fatal message m.code
    else if contains low "token" || contains low "invalid hello"
    then fatal message (
        if not (m.code == "")
        then m.code
        else if contains low "token"
        then "token_mismatch"
        else "invalid_hello")
    else other (String.◌++◌ "server error: " message)

-- The message as it is written, and what json.Unmarshal makes of it.
unfoldable pub handle_hello_response : String → Result Greeted → Option SessionError
handle_hello_response raw (err e) = some (other (String.◌++◌ "invalid hello response: " e))
handle_hello_response raw (ok m) =
    if m.type == "hello_ok"
    then none
    else if m.type == "error"
    then some (refused raw m)
    else if contains raw "hello_ok"
    then none
    else some (other (String.◌++◌ "unexpected hello response: " raw))

-- An error of the library: its text, and whether errors.Is finds an error of a context in it, of the
-- client's own or of one that the library has made for a timeout.
pub record LinkError : Type 0 where
  pub text : String
  pub is_context : Bool

-- What a session meets outside: whether the context has ended before it, the library's URLs, the
-- error of the dialling, whether the context has ended when a call fails or at the end, the error
-- of the writing of the hello, and the error of the reading or the first message.
pub record Line : Type 0 where
  pub stopped : Bool
  pub urls : UrlText
  pub dial : String → Option LinkError
  pub ended : Bool
  pub write : Option LinkError
  pub first : LinkError ⊎ (String × Result Greeted)

abbrev pub broken : Line → LinkError → Bool × SessionError
broken line e = (false, (if line.ended || e.is_context then cancelled else other e.text))

-- Session from the first message on. The loop that follows ends with the context or the connection.
unfoldable pub greeted : Line → String × Result Greeted → Bool × SessionError
greeted line (raw, m) = elim (handle_hello_response raw m) [
  | some e ↦ (false, e)
  | none ↦ (true, (if line.ended then cancelled else other "connection closed"))
]

unfoldable pub session : Line → String → Bool × SessionError
session line server =
    if line.stopped then (false, cancelled) else elim (normalize_ws line.urls server) [
      | err e ↦ (false, fatal (String.◌++◌ "invalid server url: " e) "")
      | ok url ↦ elim (line.dial url) [
        | some e ↦ broken line e
        | none ↦ elim line.write [
          | some e ↦ broken line e
          | none ↦ elim line.first [ inl e ↦ broken line e | inr first ↦ greeted line first ]
        ]
      ]
    ]
