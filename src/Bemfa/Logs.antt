-- ===== src/Bemfa/Logs.antt =====
-- internal/bemfa/manager.go, lines 117 to 173: the log of the manager and what Logs gives of it.
use wakehub.Base.{
  ℕ, zero, suc, ◌+◌, ◌-◌, ◌≤◌, ◌≡◌, refl, sym, ap, ◌∙◌, String, List, [], ◌∷◌, ◌++◌, Bool-cases,
  inl, inr, if◌then◌else◌, ◌||◌, ltb, nat_eq, length, drop, length-append, length-drop, arith,
}
use wakehub.Bemfa.{Call, Manager, LogLevel, LogEntry, append_log_locked, logs_of}

module _ {ℓ} {A : Type ℓ} where
  -- The last n elements of a list.
  abbrev pub newest : ℕ → List A → List A
  newest n xs = drop (length xs - n) xs

  drop_nil : (n : ℕ) → drop {A = A} n [] ≡ []
  drop_nil zero = refl
  drop_nil (suc n) = refl

  drop-drop : (m n : ℕ) (xs : List A) → drop m (drop n xs) ≡ drop (n + m) xs
  drop-drop m zero xs = let e : 0 + m ≡ m = omega arith in rw e refl
  drop-drop m (suc n) [] = drop_nil m ∙ sym (drop_nil (suc n + m))
  drop-drop m (suc n) (x ∷ xs) =
      let e : suc n + m ≡ suc (n + m) = omega arith in drop-drop m n xs ∙ rw e refl

  drop-append : (n : ℕ) (xs ys : List A) → n ≤ length xs → drop n xs ++ ys ≡ drop n (xs ++ ys)
  drop-append zero xs ys h = refl
  drop-append (suc n) [] ys h = absurd (omega arith)
  drop-append (suc n) (x ∷ xs) ys h = drop-append n xs ys (omega arith)

  append_nil : (xs : List A) → xs ++ [] ≡ xs
  append_nil [] = refl
  append_nil (x ∷ xs) = ap (λ l. x ∷ l) (append_nil xs)

  append_cons : (xs : List A) (x : A) (ys : List A) → (xs ++ x ∷ []) ++ ys ≡ xs ++ x ∷ ys
  append_cons [] x ys = refl
  append_cons (w ∷ xs) x ys = ap (λ l. w ∷ l) (append_cons xs x ys)

  newest-append :
      (k n : ℕ) (xs ys : List A) → k ≤ n → newest k (newest n xs ++ ys) ≡ newest k (xs ++ ys)
  newest-append k n xs ys h =
      let kept = length-drop (length xs - n) xs in
      let joined = length-append xs ys in
      let moved = drop-append (length xs - n) xs ys (omega arith) in
      let cut = length-drop (length xs - n) (xs ++ ys) in
      rw moved (drop-drop _ (length xs - n) (xs ++ ys) ∙ ap (λ j. drop j (xs ++ ys)) (ground arith))

  newest-newest : (k n : ℕ) (xs : List A) → k ≤ n → newest k (newest n xs) ≡ newest k xs
  newest-newest k n xs h =
      let e = newest-append k n xs [] h in
      rw⁻¹ (append_nil (newest n xs)) (e ∙ rw (append_nil xs) refl)

  drop_none : (n : ℕ) (xs : List A) → length xs ≤ n → newest n xs ≡ xs
  drop_none n xs h = let e : length xs - n ≡ 0 = omega arith in rw e refl

-- Entries with the clock that each meets, and the manager once all are appended.
abbrev pub append_all : List (Call × LogLevel × String) → Manager → Manager
append_all [] m = m
append_all ((call, level, message) ∷ rest) m =
    append_all rest (append_log_locked call level message m)

abbrev pub entry_of : Call × LogLevel × String → LogEntry
entry_of (call, level, message) = record { time = call.now_milli; level = level; message = message }

abbrev pub entries_of : List (Call × LogLevel × String) → List LogEntry
entries_of [] = []
entries_of (x ∷ rest) = entry_of x ∷ entries_of rest

logs-append_log_locked :
    (x : Call × LogLevel × String) (m : Manager)
    → (append_log_locked x.0 x.1 x.2 m).logs ≡ newest 200 (m.logs ++ entry_of x ∷ [])
unfolding append_log_locked
logs-append_log_locked (call, level, message) m =
    trim (m.logs ++ entry_of (call, level, message) ∷ [])
  where
    trim :
        (l : List LogEntry)
        → (if ltb 200 (length l) then drop (length l - 200) l else l) ≡ newest 200 l
    trim l = ground (arith, drop_none 200 l)

logs-append_all :
    (xs : List (Call × LogLevel × String)) (m : Manager)
    → length m.logs ≤ 200
    → (append_all xs m).logs ≡ newest 200 (m.logs ++ entries_of xs)
logs-append_all [] m h = sym (rw (append_nil m.logs) (drop_none 200 m.logs h))
logs-append_all ((call, level, message) ∷ rest) m h =
    let x : Call × LogLevel × String = (call, level, message) in
    let first = logs-append_log_locked x m in
    let l = m.logs ++ entry_of x ∷ [] in
    let kept : length (append_log_locked call level message m).logs ≤ 200 =
      rw first (ground (arith, length-drop (length l - 200) l)) in
    let rest_held = logs-append_all rest (append_log_locked call level message m) kept in
    let moved = newest-append 200 200 l (entries_of rest) (omega arith) in
    let joined = append_cons m.logs (entry_of x) (entries_of rest) in
    cc (rest_held, first, moved, joined)

logs_of_lem :
    (m : Manager) (limit : ℕ)
    → logs_of m limit ≡ (if nat_eq limit 0 then m.logs else newest limit m.logs)
unfolding logs_of
logs_of_lem m limit = ground (arith, drop_none limit m.logs)

-- The log is the list of all entries cut to its last 200: after any entries on a manager that has
-- no more than 200, Logs(limit) gives the last `limit` of all of them in order, and the last 200
-- where the limit is not positive or is greater.
pub logs_of-append_all :
    (xs : List (Call × LogLevel × String)) (m : Manager) (limit : ℕ)
    → length m.logs ≤ 200
    → logs_of (append_all xs m) limit
      ≡ newest (if nat_eq limit 0 || ltb 200 limit then 200 else limit) (m.logs ++ entries_of xs)
logs_of-append_all xs m limit h =
    let held = logs-append_all xs m h in
    let all = m.logs ++ entries_of xs in
    logs_of_lem (append_all xs m) limit
    ∙ rw held (elim (Bool-cases (nat_eq limit 0)) [
      | inl every ↦ rw every refl
      | inr some_of ↦ elim (Bool-cases (ltb 200 limit)) [
        | inl more ↦
            rw (some_of, more)
              (drop_none limit (newest 200 all)
                (ground (arith, length-drop (length all - 200) all)))
        | inr fewer ↦ rw (some_of, fewer) (newest-newest limit 200 all (ground arith))
      ]
    ])
