-- ===== src/Service/Actions.antt =====
-- internal/device/service.go, clientAction with the store and the hub.
use wakehub.Base.{
  lookup, ℕ, ◌≡◌, refl, ◌≢◌, ◌∙◌, ap, String, List, [], ◌∷◌, ◌++◌, Option, none, some,
  if◌then◌else◌, ◌==◌, arith, Option-cases, Bool-cases, inl, inr, ok, err,
}
use wakehub.Config.{Device}
use wakehub.Config.Store.{get_device}
use wakehub.Protocol.{control, Reply}
use wakehub.Hub.{send_control}
use wakehub.Hub.Sessions.{conn_of}
use wakehub.Notify.{Event}
use wakehub.Service.{Service, Call, client_action, record_and_notify, notify}

-- The connection that a command for this device goes to.
abbrev pub bound_conn : Service → String → Option ℕ
bound_conn s id = elim (get_device s.store id) [
  | none ↦ none
  | some d ↦ if Device.bound_client_key d == "" then none else conn_of s.hub d.bound_client_key
]

written-notify : (call : Call) (ev : Event) (s : Service) → (notify call ev s).written ≡ s.written
unfolding notify
written-notify call ev s = ground arith

written-record_and_notify :
    (call : Call) (event : String) (d : Device) (failed : Option String) (req_id : String)
    (s : Service)
    → (record_and_notify call event d failed req_id s).written ≡ s.written
unfolding record_and_notify
written-record_and_notify call event d failed req_id s = written-notify call _ _

-- What a command is to do: with a connection for the device and a write that succeeds, one message
-- goes to that connection, and the caller gets the request's id.
abbrev pub IsCommand :
    Option ℕ
    → Option String
    → String
    → String
    → List (ℕ × Reply)
    → (Service × String × Option String)
    → Type 0
IsCommand none failed event req_id before (s, id, e) = (s.written ≡ before) × (e ≢ none)
IsCommand (some c) (some failed) event req_id before (s, id, e) = (s.written ≡ before) × (e ≢ none)
IsCommand (some c) none event req_id before (s, id, e) =
    (s.written ≡ (c, control event req_id) ∷ before) × (id ≡ req_id) × (e ≡ none)

-- `Shutdown` and `Restart` write one command, to the connection that now serves the client that
-- the device is bound to, and report success exactly when the device exists, it is bound, there is
-- such a connection and the write succeeds; otherwise nothing is written.
pub client_action-IsCommand :
    (event : String) (call : Call) (id : String) (s : Service)
    → IsCommand
        (bound_conn s id)
        call.write_err
        event
        call.req_id
        s.written
        (client_action event call id s)
unfolding client_action conn_of send_control
client_action-IsCommand event call id s = elim (Option-cases (get_device s.store id)) [
  | inl e ↦ rw (e, IsCommand, bound_conn, client_action) (refl, λ p. cc p)
  | inr (d, e) ↦ elim (Bool-cases (d.bound_client_key == "")) [
    | inl unbound ↦
        rw (e, IsCommand, bound_conn, client_action, unbound)
          (written-record_and_notify call event d _ _ _, λ p. cc p)
    | inr bound ↦ elim (Option-cases (lookup d.bound_client_key s.hub.clients)) [
      | inl off ↦
          let answer : send_control s.hub d.bound_client_key event call.req_id call.write_err
              ≡ (err "client offline or not bound", []) =
            ground arith in
          rw (e, IsCommand, bound_conn, client_action, bound, send_control, off)
            (
              written-record_and_notify call event d _ _ _ ∙ ap (λ r. r.1 ++ s.written) answer,
              λ p. cc p,
            )
      | inr (c, on) ↦ elim (Option-cases call.write_err) [
        | inl sent ↦
            let answer : send_control s.hub d.bound_client_key event call.req_id call.write_err
                ≡ (ok call.req_id, (c.conn, control event call.req_id) ∷ []) =
              ground arith in
            rw (e, IsCommand, bound_conn, client_action, bound, send_control, on, sent)
              (
                written-record_and_notify call event d _ _ _ ∙ ap (λ r. r.1 ++ s.written) answer,
                refl,
                refl,
              )
        | inr (m, lost) ↦
            let answer : send_control s.hub d.bound_client_key event call.req_id call.write_err
                ≡ (err m, []) =
              ground arith in
            rw (e, IsCommand, bound_conn, client_action, bound, send_control, on, lost)
              (
                written-record_and_notify call event d _ _ _ ∙ ap (λ r. r.1 ++ s.written) answer,
                λ p. cc p,
              )
      ]
    ]
  ]
]
