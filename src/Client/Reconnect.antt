-- ===== src/Client/Reconnect.antt =====
-- internal/clientapp/backoff.go and run.go: the loop that keeps the client connected. Durations are
-- in nanoseconds; one that is not positive is 0.
pub mod Waits
use wakehub.Base.{
  ℕ, ◌+◌, ◌*◌, ◌/◌, ◌%◌, String, Bool, true, false, List, [], ◌∷◌, Option, none, some,
  if◌then◌else◌, ltb, nat_eq, ◌||◌,
}
use wakehub.Client.Greeting.{SessionError, cancelled, fatal, other}

abbrev pub initial_backoff : ℕ
initial_backoff = 3000000000

abbrev pub max_backoff : ℕ
max_backoff = 60000000000

unfoldable pub next_backoff : ℕ → ℕ → ℕ
next_backoff delay max =
    let given = if nat_eq delay 0 then initial_backoff else delay in
    let most = if nat_eq max 0 then max_backoff else max in
    if ltb most (given * 2) then most else given * 2

-- The absolute value of the seed.
unfoldable pub with_jitter : ℕ → ℕ → ℕ → ℕ
with_jitter delay percent seed =
    if nat_eq percent 0 || nat_eq delay 0
    then delay
    else let most = if ltb 100 percent then 100 else percent in
      delay + delay * (seed % (most + 1)) / 100

-- What one round of the loop meets: whether the context has ended before it, the result of the
-- session, the clock that seeds the wait, and whether the context ends during the wait.
pub record Round : Type 0 where
  pub stopped : Bool
  pub authed : Bool
  pub failed : Option SessionError
  pub seed : ℕ
  pub interrupted : Bool

-- How the loop ends: cleanly, or with the message and the code of a FatalError.
pub data Exit : Type 0 where
  clean : Exit
  permanent : String → String → Exit

-- One round with the delay that it has: the end of the loop, or the wait, where there is one, and
-- the delay of the next round.
pub data Turn : Type 0 where
  leaves : Exit → Turn
  goes_on : ℕ → Turn
  waits : ℕ → Bool → ℕ → Turn

-- A round once the session has returned.
unfoldable pub settle : ℕ → Round → Option SessionError → Turn
settle delay r none = goes_on delay
settle delay r (some cancelled) = leaves clean
settle delay r (some (fatal message code)) = leaves (permanent message code)
settle delay r (some (other text)) =
    waits (with_jitter delay 20 r.seed) r.interrupted
      (if r.authed then delay else next_backoff delay max_backoff)

unfoldable pub turn : ℕ → Round → Turn
turn delay r =
    if r.stopped
    then leaves clean
    else settle (if r.authed then initial_backoff else delay) r r.failed

-- The rest of the loop, from the loop over the later rounds.
unfoldable pub proceed : (ℕ → List ℕ × Option Exit) → Turn → List ℕ × Option Exit
proceed later (leaves exit) = ([], some exit)
proceed later (goes_on next) = later next
proceed later (waits wait interrupted next) =
    let (rest, exit) = later next in
    if interrupted then (wait ∷ [], some clean) else (wait ∷ rest, exit)

-- The loop over the rounds: the waits, and how it ends, if it does.
unfoldable pub run : ℕ → List Round → List ℕ × Option Exit
run delay [] = ([], none)
run delay (r ∷ rounds) = proceed (λ next. run next rounds) (turn delay r)
