-- ===== src/Client/Reconnect/Waits.antt =====
-- internal/clientapp/run.go and backoff.go: how long the client waits between its sessions.
use wakehub.Base.{
  ℕ, zero, suc, ◌*◌, ◌/◌, ◌%◌, ◌≤◌, ◌≡◌, refl, String, true, false, List, [], ◌∷◌, Option, none,
  some, if◌then◌else◌, ltb, All, Bool-cases, inl, inr, arith,
}
use wakehub.Client.Greeting.{SessionError, cancelled, fatal, other}
use wakehub.Client.Reconnect.{
  Round, Turn, leaves, goes_on, waits, initial_backoff, max_backoff, next_backoff, with_jitter,
  settle, turn, proceed, run, Exit,
}

abbrev IsDelay : ℕ → Type 0
IsDelay delay = (3000000000 ≤ delay) × (delay ≤ 60000000000)

next_backoff-IsDelay : (delay : ℕ) → IsDelay delay → IsDelay (next_backoff delay max_backoff)
unfolding next_backoff
next_backoff-IsDelay delay h = ground arith

abbrev pub IsWait : ℕ → Type 0
IsWait wait = (3000000000 ≤ wait) × (wait ≤ 72000000000)

jitter-le : (delay j : ℕ) → delay ≤ 60000000000 → j ≤ 20 → delay * j / 100 ≤ 12000000000
jitter-le delay j h k = grind arith

with_jitter-IsWait : (delay seed : ℕ) → IsDelay delay → IsWait (with_jitter delay 20 seed)
unfolding with_jitter
with_jitter-IsWait delay seed h = ground (arith, jitter-le delay (seed % 21) h.1)

-- The delay after a number of failures.
abbrev pub doubled : ℕ → ℕ
doubled zero = 3000000000
doubled (suc n) = 2 * doubled n

abbrev pub delay_after : ℕ → ℕ
delay_after n = if ltb 60000000000 (doubled n) then 60000000000 else doubled n

positive-doubled : (n : ℕ) → 3000000000 ≤ doubled n
positive-doubled zero = omega arith
positive-doubled (suc n) = omega (arith, positive-doubled n)

next_backoff-delay_after : (n : ℕ) → next_backoff (delay_after n) max_backoff ≡ delay_after (suc n)
unfolding next_backoff
next_backoff-delay_after n = ground (arith, positive-doubled n)

-- The wait and the next delay of a round that has them are in their ranges, and so is the delay that
-- the loop goes on with.
abbrev IsTurn : Turn → Type 0
IsTurn (leaves exit) = Unit
IsTurn (goes_on next) = IsDelay next
IsTurn (waits wait interrupted next) = IsWait wait × IsDelay next

settle-IsTurn :
    (delay : ℕ) (r : Round) (e : Option SessionError) → IsDelay delay → IsTurn (settle delay r e)
unfolding settle
settle-IsTurn delay r none h = h
settle-IsTurn delay r (some cancelled) h = tt
settle-IsTurn delay r (some (fatal message code)) h = tt
settle-IsTurn delay r (some (other text)) h =
    let next = next_backoff-IsDelay delay h in
    (with_jitter-IsWait delay r.seed h, ground (arith, next))

turn-IsTurn : (delay : ℕ) (r : Round) → IsDelay delay → IsTurn (turn delay r)
unfolding turn
turn-IsTurn delay r h = elim (Bool-cases r.stopped) [
  | inl over ↦ simp (over, turn) tt
  | inr on ↦
      simp (on, turn)
        (settle-IsTurn (if r.authed then initial_backoff else delay) r r.failed (ground arith))
]

proceed-IsWait :
    (later : ℕ → List ℕ × Option Exit) (t : Turn)
    → ((next : ℕ) → IsDelay next → All IsWait (later next).0)
    → IsTurn t
    → All IsWait (proceed later t).0
unfolding proceed
proceed-IsWait later (leaves exit) ih h = tt
proceed-IsWait later (goes_on next) ih h = ih next h
proceed-IsWait later (waits wait true next) ih h = (h.0, tt)
proceed-IsWait later (waits wait false next) ih h = (h.0, ih next h.1)

run-IsWait : (delay : ℕ) (rounds : List Round) → IsDelay delay → All IsWait (run delay rounds).0
unfolding run
run-IsWait delay [] h = tt
run-IsWait delay (r ∷ rounds) h =
    proceed-IsWait (λ next. run next rounds) (turn delay r) (λ next k. run-IsWait next rounds k)
      (turn-IsTurn delay r h)

-- Every wait of the client between two sessions takes from 3 to 72 seconds.
pub initial-IsWait : (rounds : List Round) → All IsWait (run initial_backoff rounds).0
initial-IsWait rounds = run-IsWait initial_backoff rounds (ground arith)

-- A session that failed before it was let in, with an error that is neither permanent nor a
-- context's.
abbrev pub failing_round : String → ℕ → Round
failing_round text seed = record {
  stopped = false;
  authed = false;
  failed = some (other text);
  seed = seed;
  interrupted = false;
}

abbrev pub failing_rounds : List (String × ℕ) → List Round
failing_rounds [] = []
failing_rounds ((text, seed) ∷ rest) = failing_round text seed ∷ failing_rounds rest

-- The waits of such sessions, the first of them after `n` others.
abbrev pub waits_from : ℕ → List (String × ℕ) → List ℕ
waits_from n [] = []
waits_from n ((text, seed) ∷ rest) = with_jitter (delay_after n) 20 seed ∷ waits_from (suc n) rest

run-failing_rounds :
    (n : ℕ) (rest : List (String × ℕ))
    → run (delay_after n) (failing_rounds rest) ≡ (waits_from n rest, none)
unfolding run proceed turn settle
run-failing_rounds n [] = refl
run-failing_rounds n ((text, seed) ∷ rest) =
    let step = next_backoff-delay_after n in
    let later = run-failing_rounds (suc n) rest in rw (step, later) refl

-- The client does not give up: while its sessions fail before it is let in, with errors that are
-- neither permanent nor a context's, it waits after each and goes on. The wait after the first of
-- them is that of 3 seconds, each later one that of twice the time of the one before, 60 seconds at
-- most, each with its jitter.
pub run-perseveres :
    (rest : List (String × ℕ))
    → run initial_backoff (failing_rounds rest) ≡ (waits_from 0 rest, none)
run-perseveres rest = run-failing_rounds 0 rest
