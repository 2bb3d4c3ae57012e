-- ===== src/Bemfa/Ensure/Binding.antt =====
-- internal/bemfa/manager.go, EnsureDevice: the topic that it binds.
use Prim.Native.String
use wakehub.Base.{
  ◌≡◌, refl, String, true, Option, none, some, ◌==◌, eq_iff, arith, lookup, erase, lookup-insert,
  Option-cases, Bool-cases, inl, inr,
}
use wakehub.Config.{Device}
use wakehub.Bemfa.{log_warn, Call, Manager, append_log_locked, set_last_error_locked}
use wakehub.Bemfa.Topics.{validate_topic}
use wakehub.Bemfa.Session.{subscribe_locked, unsubscribe_locked}
use wakehub.Bemfa.Creation.{create_topic_idempotent}
use wakehub.Bemfa.Ensure.{cloud_name, bind_created, ensure_topic, ensure_ready, ensure_device}

lookup-subscribe_locked :
    (call : Call) (topic id : String) (m : Manager)
    → (subscribe_locked call topic id m).1 ≡ none
    → lookup topic (subscribe_locked call topic id m).0.topics ≡ some id
unfolding subscribe_locked unsubscribe_locked append_log_locked
lookup-subscribe_locked call topic id m h =
    let inserted = lookup-insert topic topic id (erase topic m.topics) in
    elim (Option-cases (lookup topic m.topics)) [
      | inl free ↦ ground (arith, inserted, eq_iff topic topic)
      | inr (old, held) ↦ ground (arith, inserted, eq_iff topic topic, eq_iff old id)
    ]

-- A topic that is accepted and bound.
abbrev pub IsBound : Call → String → String → Manager → Type 0
IsBound call topic id m =
    (validate_topic call.quote topic ≡ none) × (lookup topic m.topics ≡ some id)

bind_created-lookup :
    (call : Call) (topic : String) (d : Device) (p : Manager × Option String)
    → (bind_created call topic d p).1 ≡ none
    → lookup topic (bind_created call topic d p).0.topics ≡ some d.id
unfolding bind_created append_log_locked set_last_error_locked
bind_created-lookup call topic d (made, none) h =
    elim (Option-cases (subscribe_locked call topic d.id made).1) [
      | inl e ↦ rw (e, bind_created) (lookup-subscribe_locked call topic d.id made e)
      | inr (f, e) ↦ absurd (ground arith)
    ]
bind_created-lookup call topic d (made, some x) h =
    let warned =
      append_log_locked call log_warn (String.◌++◌ "create topic failed, try subscribe anyway: " x)
        made in
    elim (Option-cases (subscribe_locked call topic d.id warned).1) [
      | inl e ↦ rw (e, bind_created) (lookup-subscribe_locked call topic d.id warned e)
      | inr (f, e) ↦ absurd (ground arith)
    ]

ensure_topic-IsBound :
    (call : Call) (topic : String) (d : Device) (m : Manager)
    → (ensure_topic call topic d m).1 ≡ none
    → IsBound call topic d.id (ensure_topic call topic d m).0
unfolding ensure_topic
ensure_topic-IsBound call topic d m h = elim (Option-cases (validate_topic call.quote topic)) [
  | inl e ↦
      rw (e, ensure_topic)
        (
          refl,
          bind_created-lookup call topic d
              (create_topic_idempotent call m.uid topic (cloud_name d) m) (ground arith),
        )
  | inr (x, e) ↦ absurd (ground arith)
]

ensure_ready-IsBound :
    (call : Call) (d : Device) (m : Manager)
    → (ensure_ready call d m).2 ≡ none
    → IsBound call (ensure_ready call d m).1 d.id (ensure_ready call d m).0
unfolding ensure_ready
ensure_ready-IsBound call d m h = ensure_topic-IsBound call _ d _ h

-- Where EnsureDevice reports no error for a device that has Bemfa enabled, the topic that it leaves
-- in the device is one that ValidateTopic accepts, and commands on it are bound to the device.
pub ensure_device-IsBound :
    (call : Call) (d : Device) (m : Manager)
    → d.bemfa_enable ≡ true
    → (ensure_device call d m).2 ≡ none
    → IsBound call (ensure_device call d m).1 d.id (ensure_device call d m).0
unfolding ensure_device
ensure_device-IsBound call d m on h = elim (Bool-cases (m.uid == "")) [
  | inl missing ↦ absurd (ground arith)
  | inr set ↦ elim (Bool-cases m.dev) [
    | inr off ↦ absurd (ground arith)
    | inl live ↦
        let ready : ensure_device call d m ≡ ensure_ready call d m = ground arith in
        rw (ready, IsBound) (ensure_ready-IsBound call d m (ground arith))
  ]
]
