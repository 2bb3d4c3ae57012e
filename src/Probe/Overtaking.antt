-- ===== src/Probe/Overtaking.antt =====
-- internal/probe/probe.go: the calls of onChange, however the goroutines of the probes interleave. The
-- runner and ProbeDevice call Set and onChange one after the other, and Set alone holds the lock.
use wakehub.Base.{
  ℕ, zero, suc, ◌+◌, ◌≡◌, refl, sym, ap, ◌∙◌, String, Bool, true, not, List, [], ◌∷◌, Option, none,
  some, if◌then◌else◌, ◌==◌, lookup, lookup-insert, Option-cases, Bool-cases, inl, inr, eq_iff,
  arith,
}
use wakehub.Probe.{
  Result, zero_result, Runner, Watch, get, set_result, change_of, call_change, observe,
  new_status_cache,
}
use wakehub.Probe.Listener.{told, known}

-- What one of the goroutines does: it puts a result into the cache, or it makes one of the calls of
-- onChange that are due, the k-th from the newest.
pub data Act : Type 0 where
  sets : Result → Act
  calls : ℕ → Act

-- The watch, and the calls that are due: their Set is done, and they are not made.
pub record Between : Type 0 where
  pub watch : Watch
  pub due : List (Result × Result)

abbrev pub taken : ℕ → List (Result × Result) → Option ((Result × Result) × List (Result × Result))
taken k [] = none
taken zero (c ∷ due) = some (c, due)
taken (suc k) (c ∷ due) = elim (taken k due) [ none ↦ none | some (d, rest) ↦ some (d, c ∷ rest) ]

unfoldable pub act : Runner → Act → Between → Between
act runner (sets cur) b =
    let (cache, prev) = set_result cur b.watch.cache in
    record {
      watch = record b.watch { cache = cache };
      due = elim (change_of runner prev cur) [ none ↦ b.due | some c ↦ c ∷ b.due ];
    }
act runner (calls k) b =
    let call : Option ((Result × Result) × List (Result × Result)) = taken k b.due in
    let made : Option (Result × Result) = elim call [ none ↦ none | some (c, rest) ↦ some c ] in
    record {
      watch = call_change made b.watch;
      due = elim call [ none ↦ b.due | some (c, rest) ↦ rest ];
    }

-- The last act stands first.
unfoldable pub after : Runner → List Act → Between
after runner [] = record { watch = new_status_cache; due = [] }
after runner (a ∷ history) = act runner a (after runner history)

-- The last result that a history puts into the cache for a device.
abbrev pub last_set : String → List Act → Option Result
last_set id [] = none
last_set id (calls k ∷ history) = last_set id history
last_set id (sets cur ∷ history) = if cur.device_id == id then some cur else last_set id history

-- A first result, or one of the other state.
abbrev pub is_news : Option Result → Result → Bool
is_news none cur = true
is_news (some prev) cur = if prev.online then not cur.online else cur.online

abbrev pub or_zero : Option Result → Result
or_zero none = zero_result
or_zero (some prev) = prev

-- The changes of a history, in the order of its results, the last one first.
abbrev pub changes_in : List Act → List (Result × Result)
changes_in [] = []
changes_in (calls k ∷ history) = changes_in history
changes_in (sets cur ∷ history) =
    let prev = last_set cur.device_id history in
    if is_news prev cur then (or_zero prev, cur) ∷ changes_in history else changes_in history

abbrev pub count : (Result × Result → Bool) → List (Result × Result) → ℕ
count p [] = 0
count p (c ∷ cs) = if p c then 1 + count p cs else count p cs

-- One goroutine that nothing comes between, as in `observe`.
observe-act :
    (runner : Runner) (cur : Result) (w : Watch)
    → runner.has_on_change ≡ true
    → (act runner (calls 0) (act runner (sets cur) (record { watch = w; due = [] }))).watch
      ≡ observe runner cur w
unfolding act observe change_of
observe-act runner cur w on = ground arith

get-after :
    (runner : Runner) (history : List Act) (id : String)
    → get id (after runner history).watch ≡ last_set id history
unfolding after act get new_status_cache lookup
get-after runner [] id = refl
get-after runner (sets cur ∷ history) id =
    lookup-insert cur.device_id id cur (after runner history).watch.cache
    ∙ ap (λ r. if cur.device_id == id then some cur else r) (get-after runner history id)
get-after runner (calls k ∷ history) id = get-after runner history id

change_of-is_news :
    (runner : Runner) (prev : Option Result) (cur : Result)
    → runner.has_on_change ≡ true
    → change_of runner prev cur ≡ (if is_news prev cur then some (or_zero prev, cur) else none)
unfolding change_of
change_of-is_news runner none cur on = ground arith
change_of-is_news runner (some prev) cur on = ground arith

-- The calls that are made and those that are due, as the tests of them count.
abbrev counted : (Result × Result → Bool) → Between → ℕ
counted p b = count p b.watch.changes + count p b.due

count-taken :
    (p : Result × Result → Bool) (k : ℕ) (due rest : List (Result × Result)) (c : Result × Result)
    → taken k due ≡ some (c, rest)
    → count p due ≡ count p (c ∷ rest)
count-taken p k [] rest c e = ground arith
count-taken p zero (d ∷ due) rest c e = ground arith
count-taken p (suc k) (d ∷ due) rest c e = elim (Option-cases (taken k due)) [
  | inl none_left ↦ ground arith
  | inr ((c', rest'), found) ↦ let earlier = count-taken p k due rest' c' found in ground arith
]

counted-calls :
    (p : Result × Result → Bool) (runner : Runner) (k : ℕ) (b : Between)
    → counted p (act runner (calls k) b) ≡ counted p b
unfolding act
counted-calls p runner k b = elim (Option-cases (taken k b.due)) [
  | inl none_left ↦ rw (act, none_left) refl
  | inr ((c, rest), found) ↦
      let same = count-taken p k b.due rest c found in rw (act, found) (ground arith)
]

counted-after :
    (p : Result × Result → Bool) (runner : Runner) (history : List Act)
    → runner.has_on_change ≡ true
    → counted p (after runner history) ≡ count p (changes_in history)
unfolding after new_status_cache get act
counted-after p runner [] on = refl
counted-after p runner (calls k ∷ history) on =
    counted-calls p runner k (after runner history) ∙ counted-after p runner history on
counted-after p runner (sets cur ∷ history) on =
    let earlier = counted-after p runner history on in
    let prev = get-after runner history cur.device_id in
    let call = change_of-is_news runner (last_set cur.device_id history) cur on in
    let made = ap (λ r. change_of runner r cur) prev ∙ call in
    elim (Bool-cases (is_news (last_set cur.device_id history) cur)) [
      | inl news ↦ rw (act, made, news) (ground arith)
      | inr old ↦ rw (act, made, old) (ground arith)
    ]

told-changes_in :
    (history : List Act) (id : String)
    → told (changes_in history) id
      ≡ elim (last_set id history) [ none ↦ none | some r ↦ some r.online ]
told-changes_in [] id = refl
told-changes_in (calls k ∷ history) id = told-changes_in history id
told-changes_in (sets cur ∷ history) id =
    let here = told-changes_in history cur.device_id in
    let there = told-changes_in history id in
    elim (Option-cases (last_set cur.device_id history)) [
      | inl free ↦ ground (arith, eq_iff cur.device_id id)
      | inr (old, held) ↦ ground (arith, eq_iff cur.device_id id)
    ]

-- However the goroutines interleave, each change of a device is told once: the calls of onChange
-- that are made and those that are still due are, in some order, the changes of the results that
-- Set has put into the cache. In the order of Set the last of these for a device says whether it is
-- online as the cache does, and there is one where the cache has a result. A goroutine that nothing
-- comes between makes its own call, as `observe` has it.
pub after-IsTold :
    (runner : Runner) (history : List Act) (id : String) (p : Result × Result → Bool)
    → runner.has_on_change ≡ true
    → (told (changes_in history) id ≡ known (after runner history).watch id)
      × (count p (after runner history).watch.changes + count p (after runner history).due
          ≡ count p (changes_in history))
      × ((cur : Result) (w : Watch)
          → (act runner (calls 0) (act runner (sets cur) (record { watch = w; due = [] }))).watch
            ≡ observe runner cur w)
after-IsTold runner history id p on = (
  told-changes_in history id
      ∙ sym (
          ap (λ r. elim r as (λ _. Option Bool) [ none ↦ none | some c ↦ some c.online ])
            (get-after runner history id)),
  counted-after p runner history on,
  λ cur w. observe-act runner cur w on,
)
