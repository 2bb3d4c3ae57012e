-- ===== src/Bemfa/Requests/Devices.antt =====
-- internal/bemfa/manager.go: the topics of devices in a tidy manager, and the histories of requests.
use Prim.Native.String
use wakehub.Base.{
  ℕ, refl, String, List, [], ◌∷◌, Option, none, some, arith, Option-cases, Bool-cases, inl, inr,
  ◌==◌,
}
use wakehub.Text.{trim_space}
use wakehub.Config.{Device}
use wakehub.Bemfa.{
  Call, Manager, append_log_locked, clear_logs, new_manager, log_warn, log_info, log_event,
}
use wakehub.Bemfa.Topics.{validate_uid, validate_topic, normalize_topic, sanitize_uid}
use wakehub.Bemfa.Creation.{create_from, create_topic_idempotent, is_already_exists, is_param_error}
use wakehub.Bemfa.Session.{subscribe_locked, close, on_connect, on_command}
use wakehub.Bemfa.Ensure.{bind_created, ensure_topic, ensure_ready, ensure_device, remove_device}
use wakehub.Bemfa.Requests.{
  Request, configure, ensure, drop_device, shut, clear, opened, lost, commanded, serve,
  manager_after, IsTidy,
}
use wakehub.Bemfa.Requests.Connection.{
  append_log_locked-IsTidy, unsubscribe_locked-IsTidy, subscribe_locked-IsTidy,
  set_last_error_locked-IsTidy, failing-IsTidy, close_locked-IsTidy, reconfigure-IsTidy,
  on_disconnect-IsTidy,
}

create_from-IsTidy :
    (call : Call) (uid topic name last : String) (rest : List (ℕ × String)) (m : Manager)
    → IsTidy m
    → IsTidy (create_from call uid topic name last rest m).0
unfolding create_from
create_from-IsTidy call uid topic name last [] m v = v
create_from-IsTidy call uid topic name last ((k, label) ∷ rest) m v =
    elim (Option-cases (call.create k topic name)) [
      | inl e ↦ simp (e, create_from) (append_log_locked-IsTidy call log_event _ m v)
      | inr (x, e) ↦ elim (Bool-cases (is_already_exists x)) [
        | inl known ↦ simp (e, known, create_from) (append_log_locked-IsTidy call log_info _ m v)
        | inr fresh ↦ elim (Bool-cases (is_param_error x)) [
          | inr other ↦
              simp (e, fresh, other, create_from) (append_log_locked-IsTidy call log_warn _ m v)
          | inl again ↦
              simp (e, fresh, again, create_from)
                (create_from-IsTidy call uid topic name x.text rest _
                  (append_log_locked-IsTidy call log_warn _ m v))
        ]
      ]
    ]

create_topic_idempotent-IsTidy :
    (call : Call) (uid topic name : String) (m : Manager)
    → IsTidy m
    → IsTidy (create_topic_idempotent call uid topic name m).0
unfolding create_topic_idempotent
create_topic_idempotent-IsTidy call given_uid given_topic given_name m v =
    elim (Bool-cases (sanitize_uid given_uid == "")) [
      | inl missing ↦ simp (missing, create_topic_idempotent) v
      | inr set ↦ elim (Option-cases (validate_uid (sanitize_uid given_uid))) [
        | inr (x, bad) ↦ simp (set, bad, create_topic_idempotent) v
        | inl good ↦ elim (Option-cases (validate_topic call.quote (normalize_topic given_topic))) [
          | inr (x, bad) ↦ simp (set, good, bad, create_topic_idempotent) v
          | inl fine ↦
              simp (set, good, fine, create_topic_idempotent)
                (create_from-IsTidy call _ _ _ "" _ m v)
        ]
      ]
    ]

bind_created-IsTidy :
    (call : Call) (topic : String) (d : Device) (p : Manager × Option String)
    → IsTidy p.0
    → IsTidy (bind_created call topic d p).0
unfolding bind_created
bind_created-IsTidy call topic d (made, some e) v =
    let warned =
      append_log_locked call log_warn (String.◌++◌ "create topic failed, try subscribe anyway: " e)
        made in
    let held =
      (subscribe_locked-IsTidy call topic d.id warned
        (append_log_locked-IsTidy call log_warn _ made v)) in
    elim (Option-cases (subscribe_locked call topic d.id warned).1) [
      | inl done ↦
          simp (done, bind_created)
            (set_last_error_locked-IsTidy (some e) _
              (append_log_locked-IsTidy call log_event _ _ held))
      | inr (f, failed) ↦ simp (failed, bind_created) (failing-IsTidy call _ e _ held)
    ]
bind_created-IsTidy call topic d (made, none) v =
    let held = subscribe_locked-IsTidy call topic d.id made v in
    elim (Option-cases (subscribe_locked call topic d.id made).1) [
      | inl done ↦ simp (done, bind_created) held
      | inr (f, failed) ↦ simp (failed, bind_created) (failing-IsTidy call _ f _ held)
    ]

ensure_topic-IsTidy :
    (call : Call) (topic : String) (d : Device) (m : Manager)
    → IsTidy m
    → IsTidy (ensure_topic call topic d m).0
unfolding ensure_topic
ensure_topic-IsTidy call topic d m v = elim (Option-cases (validate_topic call.quote topic)) [
  | inr (x, bad) ↦ simp (bad, ensure_topic) (failing-IsTidy call _ x m v)
  | inl good ↦
      simp (good, ensure_topic)
        (bind_created-IsTidy call topic d _ (create_topic_idempotent-IsTidy call _ _ _ m v))
]

ensure_ready-IsTidy :
    (call : Call) (d : Device) (m : Manager) → IsTidy m → IsTidy (ensure_ready call d m).0
unfolding ensure_ready
ensure_ready-IsTidy call d m v = elim (Bool-cases (trim_space d.bemfa_topic == "")) [
  | inl drawn ↦
      simp (drawn, ensure_ready)
        (ensure_topic-IsTidy call _ d _ (append_log_locked-IsTidy call log_info _ m v))
  | inr given ↦ simp (given, ensure_ready) (ensure_topic-IsTidy call _ d m v)
]

ensure_device-IsTidy :
    (call : Call) (d : Device) (m : Manager) → IsTidy m → IsTidy (ensure_device call d m).0
unfolding ensure_device
ensure_device-IsTidy call d m v = elim (Bool-cases d.bemfa_enable) [
  | inr off ↦ elim (Bool-cases (d.bemfa_topic == "")) [
    | inl bare ↦ simp (off, bare, ensure_device) v
    | inr named ↦
        simp (off, named, ensure_device)
          (append_log_locked-IsTidy call log_info _ _ (unsubscribe_locked-IsTidy d.bemfa_topic m v))
  ]
  | inl on ↦ elim (Bool-cases (m.uid == "")) [
    | inl missing ↦ simp (on, missing, ensure_device) (failing-IsTidy call _ _ m v)
    | inr set ↦ elim (Bool-cases m.dev) [
      | inr idle ↦ simp (on, set, idle, ensure_device) (failing-IsTidy call _ _ m v)
      | inl live ↦ simp (on, set, live, ensure_device) (ensure_ready-IsTidy call d m v)
    ]
  ]
]

remove_device-IsTidy :
    (call : Call) (d : Device) (m : Manager) → IsTidy m → IsTidy (remove_device call d m)
unfolding remove_device
remove_device-IsTidy call d m v = elim (Bool-cases (d.bemfa_topic == "")) [
  | inl bare ↦ simp (bare, remove_device) v
  | inr named ↦
      simp (named, remove_device)
        (append_log_locked-IsTidy call log_info _ _ (unsubscribe_locked-IsTidy d.bemfa_topic m v))
]

-- Every request keeps the manager tidy.
serve-IsTidy : (call : Call) (r : Request) (m : Manager) → IsTidy m → IsTidy (serve call r m)
unfolding serve close clear_logs on_connect on_command
serve-IsTidy call (configure uid devices) m v = reconfigure-IsTidy call uid devices m v
serve-IsTidy call (ensure d) m v = ensure_device-IsTidy call d m v
serve-IsTidy call (drop_device d) m v = remove_device-IsTidy call d m v
serve-IsTidy call shut m v = close_locked-IsTidy _ (append_log_locked-IsTidy call log_info _ m v)
serve-IsTidy call clear m v =
    append_log_locked-IsTidy call log_info _ _ (record { idle = v.idle; kept = ground arith })
serve-IsTidy call opened m v =
    append_log_locked-IsTidy call log_event _ _
      (set_last_error_locked-IsTidy none _ (record { idle = v.idle; kept = v.kept }))
serve-IsTidy call (lost e) m v = on_disconnect-IsTidy call e m v
serve-IsTidy call (commanded topic id on) m v = append_log_locked-IsTidy call log_event _ m v

-- After any history of requests a manager that has no device of the library has no topics either,
-- and at most 200 entries are in its log.
pub manager_after-IsTidy :
    (first : Call) (history : List (Call × Request)) → IsTidy (manager_after first history)
unfolding manager_after new_manager
manager_after-IsTidy first [] =
    append_log_locked-IsTidy first log_info _ _ (record { idle = λ off. refl; kept = ground arith })
manager_after-IsTidy first ((call, r) ∷ history) =
    serve-IsTidy call r _ (manager_after-IsTidy first history)
