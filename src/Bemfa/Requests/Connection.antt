-- ===== src/Bemfa/Requests/Connection.antt =====
-- internal/bemfa/manager.go: the log, the connection and its topics, in a tidy manager.
use wakehub.Base.{
  ◌≤◌, ◌≡◌, refl, String, Bool, false, List, [], ◌∷◌, ◌++◌, Option, none, some, arith, length, drop,
  ◌-◌, length-drop, ltb, Option-cases, Bool-cases, inl, inr, erase, lookup, if◌then◌else◌, ◌==◌,
  ◌&&◌,
}
use wakehub.Config.{Device}
use wakehub.Bemfa.{
  Call, Manager, LogLevel, LogEntry, append_log_locked, set_last_error_locked, log_warn, log_info,
  log_event, log_error,
}
use wakehub.Bemfa.Topics.{sanitize_uid}
use wakehub.Bemfa.Session.{
  subscribe_locked, unsubscribe_locked, subscribe_wanted, subscribe_all, drop_unwanted, sync_locked,
  close_locked, start, reconfigure, on_disconnect,
}
use wakehub.Bemfa.Ensure.{failing}
use wakehub.Bemfa.Requests.{IsTidy}

trimmed-kept :
    (logs : List LogEntry)
    → length (if ltb 200 (length logs) then drop (length logs - 200) logs else logs) ≤ 200
trimmed-kept logs = ground (arith, length-drop (length logs - 200) logs)

pub append_log_locked-IsTidy :
    (call : Call) (l : LogLevel) (t : String) (m : Manager)
    → IsTidy m
    → IsTidy (append_log_locked call l t m)
unfolding append_log_locked
append_log_locked-IsTidy call l t m v = record {
  idle = v.idle;
  kept = trimmed-kept (m.logs ++ record { time = call.now_milli; level = l; message = t } ∷ []);
}

erase_nil : (k : String) (xs : List (String × String)) → xs ≡ [] → erase k xs ≡ []
unfolding erase
erase_nil k xs e = rw e refl

pub unsubscribe_locked-IsTidy :
    (topic : String) (m : Manager) → IsTidy m → IsTidy (unsubscribe_locked topic m)
unfolding unsubscribe_locked
unsubscribe_locked-IsTidy topic m v = record {
  idle = λ off. erase_nil topic m.topics (v.idle off);
  kept = v.kept;
}

pub subscribe_locked-IsTidy :
    (call : Call) (topic id : String) (m : Manager)
    → IsTidy m
    → IsTidy (subscribe_locked call topic id m).0
unfolding subscribe_locked unsubscribe_locked
subscribe_locked-IsTidy call topic id m v =
    let holds : Bool = elim (lookup topic m.topics) [ none ↦ false | some old ↦ old == id ] in
    elim (Bool-cases m.dev) [
      | inr off ↦ simp (off, subscribe_locked) v
      | inl live ↦ elim (Bool-cases holds) [
        | inl held ↦ simp (live, held, subscribe_locked) v
        | inr other ↦ elim (Option-cases (call.subscribe topic)) [
          | inr (x, failed) ↦
              simp (live, other, failed, subscribe_locked)
                (record { idle = λ off. absurd (ground arith); kept = v.kept })
          | inl done ↦
              simp (live, other, done, subscribe_locked)
                (append_log_locked-IsTidy call log_event _ _
                  (record { idle = λ off. absurd (ground arith); kept = v.kept }))
        ]
      ]
    ]

pub subscribe_wanted-IsTidy :
    (call : Call) (entry : String × String) (m : Manager)
    → IsTidy m
    → IsTidy (subscribe_wanted call entry m)
unfolding subscribe_wanted
subscribe_wanted-IsTidy call (topic, id) m v =
    let bound = subscribe_locked-IsTidy call topic id m v in
    elim (Option-cases (subscribe_locked call topic id m).1) [
      | inl e ↦ simp (e, subscribe_wanted) bound
      | inr (x, e) ↦ simp (e, subscribe_wanted) (append_log_locked-IsTidy call log_warn _ _ bound)
    ]

pub subscribe_all-IsTidy :
    (call : Call) (entries : List (String × String)) (m : Manager)
    → IsTidy m
    → IsTidy (subscribe_all call entries m)
unfolding subscribe_all
subscribe_all-IsTidy call [] m v = v
subscribe_all-IsTidy call (entry ∷ entries) m v =
    subscribe_all-IsTidy call entries _ (subscribe_wanted-IsTidy call entry m v)

pub drop_unwanted-IsTidy :
    (call : Call) (wanted olds : List (String × String)) (m : Manager)
    → IsTidy m
    → IsTidy (drop_unwanted call wanted olds m)
unfolding drop_unwanted
drop_unwanted-IsTidy call wanted [] m v = v
drop_unwanted-IsTidy call wanted (old ∷ olds) m v = elim (Option-cases (lookup old.0 wanted)) [
  | inl e ↦
      simp (e, drop_unwanted)
        (drop_unwanted-IsTidy call wanted olds _
          (append_log_locked-IsTidy call log_info _ _ (unsubscribe_locked-IsTidy old.0 m v)))
  | inr (id, e) ↦ simp (e, drop_unwanted) (drop_unwanted-IsTidy call wanted olds m v)
]

pub sync_locked-IsTidy :
    (call : Call) (devices : List Device) (m : Manager)
    → IsTidy m
    → IsTidy (sync_locked call devices m)
unfolding sync_locked
sync_locked-IsTidy call devices m v =
    append_log_locked-IsTidy call log_info _ _
      (subscribe_all-IsTidy call _ _ (drop_unwanted-IsTidy call _ m.topics m v))

pub set_last_error_locked-IsTidy :
    (e : Option String) (m : Manager) → IsTidy m → IsTidy (set_last_error_locked e m)
unfolding set_last_error_locked
set_last_error_locked-IsTidy none m v = record { idle = v.idle; kept = v.kept }
set_last_error_locked-IsTidy (some e) m v = record { idle = v.idle; kept = v.kept }

pub failing-IsTidy :
    (call : Call) (message e : String) (m : Manager) → IsTidy m → IsTidy (failing call message e m)
failing-IsTidy call message e m v =
    append_log_locked-IsTidy call log_error message _ (set_last_error_locked-IsTidy (some e) m v)

pub close_locked-IsTidy : (m : Manager) → IsTidy m → IsTidy (close_locked m)
unfolding close_locked
close_locked-IsTidy m v = record { idle = λ off. refl; kept = v.kept }

pub start-IsTidy :
    (call : Call) (uid : String) (devices : List Device) (m : Manager)
    → IsTidy m
    → IsTidy (start call uid devices m).0
unfolding start
start-IsTidy call uid devices m v =
    let starting = append_log_locked-IsTidy call log_info _ m v in
    elim (Option-cases (call.start uid)) [
      | inr (x, e) ↦
          simp (e, start)
            (append_log_locked-IsTidy call log_error _ _
              (set_last_error_locked-IsTidy (some x) _ starting))
      | inl e ↦
          simp (e, start)
            (sync_locked-IsTidy call devices _ (
              append_log_locked-IsTidy call log_info _ _
                (record { idle = λ off. absurd (ground arith); kept = starting.kept })))
    ]

pub reconfigure-IsTidy :
    (call : Call) (given : String) (devices : List Device) (m : Manager)
    → IsTidy m
    → IsTidy (reconfigure call given devices m).0
unfolding reconfigure close_locked
reconfigure-IsTidy call given devices m v =
    let uid = sanitize_uid given in
    elim (Bool-cases (uid == m.uid && m.dev)) [
      | inl same ↦
          simp (same, reconfigure)
            (sync_locked-IsTidy call devices _ (append_log_locked-IsTidy call log_info _ m v))
      | inr other ↦ elim (Bool-cases (uid == "")) [
        | inl empty ↦
            simp (other, empty, reconfigure)
              (set_last_error_locked-IsTidy none _ (
                append_log_locked-IsTidy call log_info _ _
                  (record { idle = λ off. refl; kept = v.kept })))
        | inr set ↦
            simp (other, set, reconfigure)
              (start-IsTidy call uid devices _ (record { idle = λ off. refl; kept = v.kept }))
      ]
    ]

pub on_disconnect-IsTidy :
    (call : Call) (e : Option String) (m : Manager) → IsTidy m → IsTidy (on_disconnect call e m)
unfolding on_disconnect
on_disconnect-IsTidy call none m v = append_log_locked-IsTidy call log_warn _ m v
on_disconnect-IsTidy call (some e) m v =
    append_log_locked-IsTidy call log_warn _ _ (set_last_error_locked-IsTidy (some e) m v)
