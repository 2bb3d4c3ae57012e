-- ===== src/Client/Greeting/Exchange.antt =====
-- internal/clientlink/hub.go with internal/clientapp/protocol.go, session.go and run.go: the hub's
-- answer to a hello, and what the client makes of it.
use wakehub.Base.{
  ℕ, ◌≡◌, ◌⊎◌, inl, inr, refl, String, Bool, true, false, not, List, [], ◌∷◌, Option, none, some,
  ◌==◌, ◌||◌, ◌&&◌, ok, lookup, lookup-insert, Bool-cases, eq_iff, arith,
}
use wakehub.Protocol.{Hello, Reply, hello_ok, pong, error, control, is_auth_failure}
use wakehub.Hub.{Hub, entry_of, greet}
use wakehub.Client.Greeting.{
  Greeted, SessionError, fatal, handle_hello_response, refused, Line, normalize_ws, greeted,
  session,
}
use wakehub.Client.Reconnect.{permanent, Round, run, proceed, turn, settle}

-- What the client reads of an answer of the hub, whatever its text is.
abbrev pub read_reply : Reply → Greeted
read_reply hello_ok = record { type = "hello_ok"; message = ""; code = "" }
read_reply pong = record { type = "pong"; message = ""; code = "" }
read_reply (error code message) = record { type = "error"; message = message; code = code }
read_reply (control type id) = record { type = type; message = ""; code = "" }

-- The hub has entered the connection under the key of its hello.
abbrev pub IsEntered : Hub → ℕ → String → ℕ → Option Hello → Type 0
IsEntered h conn remote now hello =
    (m : Hello) × (hello ≡ some m) × (lookup m.key h.clients ≡ some (entry_of conn remote now m))

-- The hub's answer is an error with a code that the protocol has for it, the client's session ends
-- with a FatalError of this text and code, and the hub is as it was.
abbrev IsRefused : Hub → Hub × Reply → Option SessionError → Type 0
IsRefused h answer outcome =
    (reason : String) × (code : String) × (answer.1 ≡ error code reason)
    × (is_auth_failure code ≡ true)
    × (outcome ≡ some (fatal reason code))
    × (answer.0 ≡ h)

-- The two sides agree on the greeting, whatever text the answer has: the client goes on where the
-- hub has entered its connection under its key, and otherwise the hub has refused it.
pub greet-agrees :
    (h : Hub) (conn : ℕ) (remote raw : String) (now : ℕ) (hello : Option Hello)
    → let answer = greet h conn remote now hello in
      let outcome = handle_hello_response raw (ok (read_reply answer.1)) in
      ((outcome ≡ none) × IsEntered answer.0 conn remote now hello) ⊎ IsRefused h answer outcome
unfolding greet handle_hello_response refused is_auth_failure
greet-agrees h conn remote raw now none = inr (_, _, refl, refl, refl, refl)
greet-agrees h conn remote raw now (some m) =
    elim (Bool-cases (not (m.type == "hello") || m.key == "")) [
      | inl bad ↦ rw (bad, greet) (inr (_, _, refl, refl, refl, refl))
      | inr good ↦ elim (Bool-cases (not (h.token == "") && not (m.token == h.token))) [
        | inl wrong ↦ simp (good, wrong, greet) (inr (_, _, refl, refl, refl, refl))
        | inr right ↦
            let inserted = lookup-insert m.key m.key (entry_of conn remote now m) h.clients in
            simp (good, right, greet)
              (inl (refl, (m, refl, ground (arith, inserted, eq_iff m.key m.key))))
      ]
    ]

-- The round of the client's loop in which a session has returned.
abbrev pub round_of : Bool × SessionError → ℕ → Bool → Round
round_of returned seed interrupted = record {
  stopped = false;
  authed = returned.0;
  failed = some returned.1;
  seed = seed;
  interrupted = interrupted;
}

session-greeted :
    (line : Line) (server url raw : String) (m : Greeted)
    → line.stopped ≡ false
    → normalize_ws line.urls server ≡ ok url
    → line.dial url ≡ none
    → line.write ≡ none
    → line.first ≡ inr (raw, ok m)
    → session line server ≡ greeted line (raw, ok m)
unfolding session
session-greeted line server url raw m going parsed dialled written read =
    simp (going, parsed, dialled, written, read) refl

run_of_fatal :
    (delay seed : ℕ) (interrupted : Bool) (message code : String) (rounds : List Round)
    → run delay (round_of (false, fatal message code) seed interrupted ∷ rounds)
      ≡ ([], some (permanent message code))
unfolding run proceed turn settle
run_of_fatal delay seed interrupted message code rounds = refl

-- A client that reaches the hub, and reads its answer as it is meant, is let in where the hub has
-- entered its connection. Otherwise the hub is as it was and has answered with an error of a
-- permanent code, and the client's loop ends at once with the FatalError of its text and code,
-- whatever would come after.
pub session-agrees :
    (h : Hub) (conn : ℕ) (remote raw : String) (now : ℕ) (hello : Option Hello) (line : Line)
    (server url : String) (delay seed : ℕ) (interrupted : Bool) (rounds : List Round)
    → line.stopped ≡ false
    → normalize_ws line.urls server ≡ ok url
    → line.dial url ≡ none
    → line.write ≡ none
    → line.first ≡ inr (raw, ok (read_reply (greet h conn remote now hello).1))
    → (((session line server).0 ≡ true)
        × IsEntered (greet h conn remote now hello).0 conn remote now hello)
      ⊎ ((reason : String) × (code : String) × ((greet h conn remote now hello).1
            ≡ error code reason)
          × (is_auth_failure code ≡ true)
          × ((greet h conn remote now hello).0 ≡ h)
          × (run delay (round_of (session line server) seed interrupted ∷ rounds)
              ≡ ([], some (permanent reason code))))
unfolding greeted
session-agrees h conn remote raw now hello line server url delay seed interrupted rounds going
      parsed dialled written read =
    let m = read_reply (greet h conn remote now hello).1 in
    let reached = session-greeted line server url raw m going parsed dialled written read in
    elim (greet-agrees h conn remote raw now hello) [
      | inl (fine, entered) ↦ inl (rw (reached, greeted, fine) refl, entered)
      | inr (reason, code, answered, known, failed, same) ↦ inr (
        reason,
        code,
        answered,
        known,
        same,
        rw (reached, greeted, failed) (run_of_fatal delay seed interrupted reason code rounds),
      )
    ]
