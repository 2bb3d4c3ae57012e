-- ===== src/Client/Control/Spacing.antt =====
-- internal/clientapp/shutdown.go: the runs of the command along a history of messages.
use wakehub.Base.{
  ℕ, ◌+◌, ◌≤◌, ◌<◌, ◌≡◌, ◌≢◌, ◌⊎◌, inl, inr, sym, ap, ◌∙◌, String, not, List, [], ◌∷◌, Option, none,
  some, ◌==◌, ltb, lookup, insert, lookup-insert, filter_by, All, Option-cases, Bool-cases, eq_iff,
  arith,
}
use wakehub.Client.Control.{
  Inbox, handle_control_msg, finished, prune_shutdown_ids, receive, ten_minutes, empty,
}

-- What happens to the client: a message with its type and its requestId, a pruning, or the end of
-- a run of the command.
pub data Event : Type 0 where
  message : String → String → Event
  pruning : Event
  ended : String → Option String → Event

unfoldable pub happens : ℕ → Event → Inbox → Inbox
happens now (message type id) s = receive now type id s
happens now pruning s = prune_shutdown_ids now s
happens now (ended id e) s = finished id e s

-- The time after a history, whose last event stands first; each comes with the time since the
-- event before it.
unfoldable pub clock : List (ℕ × Event) → ℕ
clock [] = 0
clock ((elapsed, e) ∷ history) = clock history + elapsed

unfoldable pub inbox_after : List (ℕ × Event) → Inbox
inbox_after [] = empty
inbox_after ((elapsed, e) ∷ history) = happens (clock history + elapsed) e (inbox_after history)

-- The run of a request comes more than ten minutes after this one, where it has the same id and
-- the id is not empty.
abbrev pub IsApart : String × ℕ → String × ℕ → Type 0
IsApart later earlier =
    (later.0 ≡ "") ⊎ ((earlier.0 ≢ later.0) ⊎ (earlier.1 + ten_minutes < later.1))

abbrev pub IsSpaced : List (String × ℕ) → Type 0
IsSpaced [] = Unit
IsSpaced (run ∷ runs) = All (IsApart run) runs × IsSpaced runs

-- A run is remembered, or it is more than ten minutes old.
abbrev IsRemembered : ℕ → List (String × ℕ) → String × ℕ → Type 0
IsRemembered now seen run =
    (run.0 ≡ "")
    ⊎ ((run.1 + ten_minutes < now) ⊎ ((t : ℕ) × (lookup run.0 seen ≡ some t) × (run.1 ≤ t)))

module _ {P Q : String × ℕ → Type 0} (f : (run : String × ℕ) → P run → Q run) where
  All-map : (runs : List (String × ℕ)) → All P runs → All Q runs
  All-map [] h = tt
  All-map (run ∷ runs) h = (f run h.0, All-map runs h.1)

lookup-filter_by :
    (now : ℕ) (id : String) (t : ℕ) (seen : List (String × ℕ))
    → lookup id seen ≡ some t
    → (t + ten_minutes < now)
      ⊎ (lookup id (filter_by (λ entry. not (ltb (entry.1 + ten_minutes) now)) seen) ≡ some t)
unfolding lookup
lookup-filter_by now id t [] h = absurd (ground arith)
lookup-filter_by now id t (entry ∷ seen) h = elim (Bool-cases (entry.0 == id)) [
  | inl mine ↦ ground arith
  | inr other ↦ let rest = lookup-filter_by now id t seen (ground arith) in ground (arith, rest)
]

prune-IsRemembered :
    (now : ℕ) (seen : List (String × ℕ)) (run : String × ℕ)
    → IsRemembered now seen run
    → IsRemembered now (filter_by (λ entry. not (ltb (entry.1 + ten_minutes) now)) seen) run
prune-IsRemembered now seen run (inl blank) = inl blank
prune-IsRemembered now seen run (inr (inl old)) = inr (inl old)
prune-IsRemembered now seen run (inr (inr (t, held, later))) =
    elim (lookup-filter_by now run.0 t seen held) [
      | inl old ↦ inr (inl (omega arith))
      | inr kept ↦ inr (inr (t, kept, later))
    ]

-- A run that is remembered stays so when another one is stored.
insert-IsRemembered :
    (now : ℕ) (id : String) (seen : List (String × ℕ)) (run : String × ℕ)
    → lookup id seen ≡ none
    → IsRemembered now seen run
    → IsRemembered now (insert id now seen) run
insert-IsRemembered now id seen run free (inl blank) = inl blank
insert-IsRemembered now id seen run free (inr (inl old)) = inr (inl old)
insert-IsRemembered now id seen run free (inr (inr (t, held, later))) =
    inr (inr (t, ground (arith, lookup-insert id run.0 now seen, eq_iff id run.0), later))

later-IsRemembered :
    (now elapsed : ℕ) (seen : List (String × ℕ)) (run : String × ℕ)
    → IsRemembered now seen run
    → IsRemembered (now + elapsed) seen run
later-IsRemembered now elapsed seen run (inl blank) = inl blank
later-IsRemembered now elapsed seen run (inr (inl old)) = inr (inl (omega arith))
later-IsRemembered now elapsed seen run (inr (inr held)) = inr (inr held)

apart :
    (now : ℕ) (id : String) (seen : List (String × ℕ)) (run : String × ℕ)
    → lookup id seen ≡ none
    → IsRemembered now seen run
    → IsApart (id, now) run
apart now id seen run free (inl blank) = elim (Bool-cases (id == "")) [
  | inl bare ↦ inl (ground (arith, eq_iff id ""))
  | inr named ↦ inr (inl (λ same. absurd (ground (arith, eq_iff id "", sym same ∙ blank))))
]
apart now id seen run free (inr (inl old)) = inr (inr old)
apart now id seen run free (inr (inr (t, held, later))) =
    inr (inl (λ same. ground (arith, ap (λ k. lookup k seen) same)))

-- The runs are remembered or old, and spaced.
record IsGuarded (now : ℕ) (s : Inbox) : Type 0 where
  pub remembered : All (IsRemembered now s.seen) s.started
  pub spaced : IsSpaced s.started

new_run-IsRemembered :
    (now : ℕ) (id : String) (seen : List (String × ℕ))
    → IsRemembered now (insert id now seen) (id, now)
new_run-IsRemembered now id seen =
    inr (inr (now, ground (arith, lookup-insert id id now seen, eq_iff id id), omega arith))

handle_control_msg-IsGuarded :
    (now : ℕ) (id : String) (s : Inbox)
    → IsGuarded now s
    → IsGuarded now (handle_control_msg now id s)
unfolding handle_control_msg
handle_control_msg-IsGuarded now id s g = elim (Bool-cases (id == "")) [
  | inl bare ↦
      simp (bare, handle_control_msg)
        (record {
          remembered = (inl ((eq_iff id "").0 bare), g.remembered);
          spaced = (all_apart ((eq_iff id "").0 bare) s.started, g.spaced);
        })
  | inr named ↦ elim (Option-cases (lookup id s.seen)) [
    | inr (t, held) ↦
        simp (named, held, handle_control_msg)
          (record { remembered = g.remembered; spaced = g.spaced })
    | inl free ↦
        simp (named, free, handle_control_msg)
          (record {
            remembered = (
              new_run-IsRemembered now id s.seen,
              All-map (λ run. insert-IsRemembered now id s.seen run free) s.started g.remembered,
            );
            spaced =
                (All-map (λ run. apart now id s.seen run free) s.started g.remembered, g.spaced);
          })
  ]
]
  where
    all_apart : id ≡ "" → (runs : List (String × ℕ)) → All (IsApart (id, now)) runs
    all_apart h [] = tt
    all_apart h (run ∷ runs) = (inl h, all_apart h runs)

happens-IsGuarded :
    (now : ℕ) (e : Event) (s : Inbox) → IsGuarded now s → IsGuarded now (happens now e s)
unfolding happens receive prune_shutdown_ids finished
happens-IsGuarded now (message type id) s g = elim (Bool-cases (type == "shutdown")) [
  | inl off ↦ simp (off, happens, receive) (handle_control_msg-IsGuarded now id s g)
  | inr other ↦ simp (other, happens, receive) g
]
happens-IsGuarded now pruning s g = record {
  remembered = All-map (λ run. prune-IsRemembered now s.seen run) s.started g.remembered;
  spaced = g.spaced;
}
happens-IsGuarded now (ended id none) s g = record { remembered = g.remembered; spaced = g.spaced }
happens-IsGuarded now (ended id (some e)) s g = record {
  remembered = g.remembered;
  spaced = g.spaced;
}

inbox_after-IsGuarded :
    (history : List (ℕ × Event)) → IsGuarded (clock history) (inbox_after history)
unfolding inbox_after clock
inbox_after-IsGuarded [] = record { remembered = tt; spaced = tt }
inbox_after-IsGuarded ((elapsed, e) ∷ history) =
    let g = inbox_after-IsGuarded history in
    happens-IsGuarded (clock history + elapsed) e (inbox_after history) (record {
      remembered =
          All-map (λ run. later-IsRemembered (clock history) elapsed _ run)
            (inbox_after history).started g.remembered;
      spaced = g.spaced;
    })

-- The machine is told once: after any history of messages, prunings and ends of the command, two
-- runs of the command for the same request, where its id is not empty, are more than ten minutes
-- apart, and the later of them stands first.
pub inbox_after-IsSpaced : (history : List (ℕ × Event)) → IsSpaced (inbox_after history).started
inbox_after-IsSpaced history = (inbox_after-IsGuarded history).spaced
