-- ===== src/Bemfa/Session/Sync.antt =====
-- internal/bemfa/manager.go, syncLocked: the topics that it leaves.
use wakehub.Base.{
  ◌≡◌, refl, ap, ◌∙◌, String, Bool, true, false, ◌&&◌, List, [], ◌∷◌, Option, none, some,
  if◌then◌else◌, ◌==◌, eq_iff, arith, lookup, insert, erase, lookup-insert, lookup-erase,
  Option-cases, Bool-cases, inl, inr, any, is_none, subst,
}
use wakehub.Config.{Device}
use wakehub.Config.Table.{HasUniqueIds}
use wakehub.Config.Table.Entries.{entry_key, HasUniqueIds-insert, lookup_of_IsFresh}
use wakehub.Bemfa.{Call, Manager, append_log_locked}
use wakehub.Bemfa.Session.{
  unsubscribe_locked, subscribe_locked, subscribe_wanted, subscribe_all, drop_unwanted, sync_locked,
  wanted_topics,
}

-- What one call of subscribeLocked leaves under its topic: the device where the topic had it or the
-- library subscribes, and nothing otherwise.
abbrev pub bound : Call → String → String → Option String → Option String
bound call topic id before =
    if (elim before [ none ↦ false | some old ↦ old == id ])
    then some id
    else elim (call.subscribe topic) [ none ↦ some id | some e ↦ none ]

-- One round of the loop over the wanted topics.
pub lookup-subscribe_wanted :
    (call : Call) (topic id at : String) (m : Manager)
    → m.dev ≡ true
    → ((subscribe_wanted call (topic, id) m).dev ≡ true)
      × (lookup at (subscribe_wanted call (topic, id) m).topics ≡ (
          if topic == at then bound call topic id (lookup topic m.topics) else lookup at m.topics))
unfolding subscribe_wanted subscribe_locked unsubscribe_locked append_log_locked
lookup-subscribe_wanted call topic id at m live =
    let inserted = lookup-insert topic at id (erase topic m.topics) in
    let erased = lookup-erase topic at m.topics in
    elim (Option-cases (lookup topic m.topics)) [
      | inl free ↦ ground (arith, inserted, erased, eq_iff topic at)
      | inr (old, held) ↦ ground (arith, inserted, erased, eq_iff topic at, eq_iff old id)
    ]

-- What the loop over the wanted topics leaves under a topic, by what was there.
abbrev pub desired : Call → Option String → String → Option String → Option String
desired call none topic before = before
desired call (some id) topic before = bound call topic id before

lookup-subscribe_all :
    (call : Call) (entries : List (String × String)) (at : String) (m : Manager)
    → m.dev ≡ true
    → HasUniqueIds entry_key entries
    → lookup at (subscribe_all call entries m).topics
      ≡ desired call (lookup at entries) at (lookup at m.topics)
unfolding subscribe_all lookup
lookup-subscribe_all call [] at m live u = refl
lookup-subscribe_all call ((topic, id) ∷ entries) at m live u =
    let (live', here) = lookup-subscribe_wanted call topic id at m live in
    lookup-subscribe_all call entries at (subscribe_wanted call (topic, id) m) live' u.1
    ∙ ap (desired call (lookup at entries) at) here
    ∙ elim (Bool-cases (topic == at)) [
      | inl hit ↦
          let same = (eq_iff topic at).0 hit in
          let absent : lookup at entries ≡ none =
            (subst (λ k. lookup k entries ≡ none) same (lookup_of_IsFresh topic entries u.0)) in
          rw (hit, absent) (ap (λ k. bound call k id (lookup k m.topics)) same)
      | inr miss ↦ rw miss refl
    ]

dev-drop_unwanted :
    (call : Call) (wanted olds : List (String × String)) (m : Manager)
    → (drop_unwanted call wanted olds m).dev ≡ m.dev
unfolding drop_unwanted unsubscribe_locked append_log_locked
dev-drop_unwanted call wanted [] m = refl
dev-drop_unwanted call wanted (old ∷ olds) m = elim (Option-cases (lookup old.0 wanted)) [
  | inl e ↦ rw (e, drop_unwanted) (dev-drop_unwanted call wanted olds _)
  | inr (id, e) ↦ rw (e, drop_unwanted) (dev-drop_unwanted call wanted olds m)
]

-- Whether a topic is that of one of these entries.
abbrev named : String → List (String × String) → Bool
named at olds = any (λ old. old.0 == at) olds

lookup-drop_unwanted :
    (call : Call) (wanted olds : List (String × String)) (at : String) (m : Manager)
    → lookup at (drop_unwanted call wanted olds m).topics
      ≡ (if named at olds && is_none (lookup at wanted) then none else lookup at m.topics)
unfolding drop_unwanted unsubscribe_locked append_log_locked
lookup-drop_unwanted call wanted [] at m = refl
lookup-drop_unwanted call wanted (old ∷ olds) at m = elim (Option-cases (lookup old.0 wanted)) [
  | inl e ↦
      rw (e, drop_unwanted)
        (lookup-drop_unwanted call wanted olds at _
          ∙ ground (arith, lookup-erase old.0 at m.topics, eq_iff old.0 at))
  | inr (id, e) ↦
      rw (e, drop_unwanted)
        (lookup-drop_unwanted call wanted olds at m ∙ ground (arith, eq_iff old.0 at))
]

lookup_of_named :
    (at : String) (olds : List (String × String)) → named at olds ≡ false → lookup at olds ≡ none
unfolding lookup
lookup_of_named at [] h = refl
lookup_of_named at (old ∷ olds) h = ground (arith, lookup_of_named at olds)

HasUniqueIds-wanted_topics :
    (ds : List Device) (wanted : List (String × String))
    → HasUniqueIds entry_key wanted
    → HasUniqueIds entry_key (wanted_topics ds wanted)
unfolding wanted_topics
HasUniqueIds-wanted_topics [] wanted h = h
HasUniqueIds-wanted_topics (d ∷ ds) wanted h = HasUniqueIds-wanted_topics ds _ (choose _)
  where
    choose :
        (b : Bool) → HasUniqueIds entry_key (if b then wanted else insert d.bemfa_topic d.id wanted)
    choose true = h
    choose false = HasUniqueIds-insert d.bemfa_topic d.id wanted h

unwanted_left :
    (call : Call) (at : String) (topics : List (String × String)) (w : Option String)
    → desired call w at (if named at topics && is_none w then none else lookup at topics)
      ≡ elim w as (λ _. Option String) [
        | none ↦ none
        | some id ↦ bound call at id (lookup at topics)
      ]
unwanted_left call at topics none = ground (arith, lookup_of_named at topics)
unwanted_left call at topics (some id) = elim (Bool-cases (named at topics)) [
  | inl e ↦ rw e refl
  | inr e ↦ rw e refl
]

-- After a synchronisation over a connection, every wanted topic is bound to its device, where it
-- was before or the library subscribes to it, and no other topic is left.
pub lookup-sync_locked :
    (call : Call) (devices : List Device) (m : Manager) (at : String)
    → m.dev ≡ true
    → lookup at (sync_locked call devices m).topics ≡ elim (lookup at (wanted_topics devices [])) [
      | none ↦ none
      | some id ↦ bound call at id (lookup at m.topics)
    ]
unfolding sync_locked append_log_locked
lookup-sync_locked call devices m at live =
    let wanted = wanted_topics devices [] in
    lookup-subscribe_all call wanted at (drop_unwanted call wanted m.topics m)
      (dev-drop_unwanted call wanted m.topics m ∙ live) (HasUniqueIds-wanted_topics devices [] tt)
    ∙ ap (desired call (lookup at wanted) at) (lookup-drop_unwanted call wanted m.topics at m)
    ∙ unwanted_left call at m.topics (lookup at wanted)
