-- ===== src/Services/Windows/Control.antt =====
-- internal/service/service_windows.go: Execute, the loop between the service manager and the client.
use mathlib.Core.List.{append-nil}
use wakehub.Base.{
  ℕ, ◌≡◌, refl, sym, ap, ◌∙◌, String, Bool, true, false, List, [], ◌∷◌, ◌++◌, Option, none, some,
  All,
}

-- svc.Status: the state, with whether the service takes Stop and Shutdown, or what the service
-- manager last had of it.
pub data Status : Type 0 where
  start_pending : Status
  running : Status
  stop_pending : Status
  current : ℕ → Status

-- svc.ChangeRequest by its command; Interrogate carries the status that the manager has.
pub data Request : Type 0 where
  interrogate : Status → Request
  stop : Request
  shutdown : Request
  unknown : ℕ → Request

-- What the loop selects: the end of the run with its error, or a request.
pub data Event : Type 0 where
  ended : Option String → Event
  requested : Request → Event

-- What Execute has done: the statuses that it has sent, whether the service has been told to end by
-- its context, and what it has returned, where it has.
pub record Outcome : Type 0 where
  pub sent : List Status
  pub cancelled : Bool
  pub returned : Option (Bool × ℕ)

abbrev sending : Status → Outcome → Outcome
sending s o = record o { sent = s ∷ o.sent }

-- The function returns (false, 0) after a stop, whether the run ends within 20 seconds or not.
unfoldable pub serve : List Event → Outcome
serve [] = record { sent = []; cancelled = false; returned = none }
serve (ended none ∷ rest) = record { sent = []; cancelled = true; returned = some (false, 0) }
serve (ended (some e) ∷ rest) = record { sent = []; cancelled = true; returned = some (true, 1) }
serve (requested (interrogate s) ∷ rest) = sending s (serve rest)
serve (requested stop ∷ rest) = record {
  sent = stop_pending ∷ [];
  cancelled = true;
  returned = some (false, 0);
}
serve (requested shutdown ∷ rest) = record {
  sent = stop_pending ∷ [];
  cancelled = true;
  returned = some (false, 0);
}
serve (requested (unknown n) ∷ rest) = serve rest

unfoldable pub execute : List Event → Outcome
unfolding serve
execute events = sending start_pending (sending running (serve events))

-- The requests that do not end the service, and the answers to them.
abbrev pub IsQuiet : Event → Type 0
IsQuiet (ended e) = ⊥
IsQuiet (requested (interrogate s)) = Unit
IsQuiet (requested stop) = ⊥
IsQuiet (requested shutdown) = ⊥
IsQuiet (requested (unknown n)) = Unit

abbrev pub answers : List Event → List Status
answers [] = []
answers (ended e ∷ rest) = answers rest
answers (requested (interrogate s) ∷ rest) = s ∷ answers rest
answers (requested stop ∷ rest) = answers rest
answers (requested shutdown ∷ rest) = answers rest
answers (requested (unknown n) ∷ rest) = answers rest

-- The end of the run is the failure of the service where it has an error.
abbrev pub verdict : Option String → Bool × ℕ
verdict none = (false, 0)
verdict (some e) = (true, 1)

serve-append :
    (quiet events : List Event)
    → All IsQuiet quiet
    → serve (quiet ++ events)
      ≡ record (serve events) { sent = answers quiet ++ (serve events).sent }
unfolding serve
serve-append [] events h = refl
serve-append (ended e ∷ rest) events h = absurd h.0
serve-append (requested (interrogate s) ∷ rest) events h =
    ap (sending s) (serve-append rest events h.1)
serve-append (requested stop ∷ rest) events h = absurd h.0
serve-append (requested shutdown ∷ rest) events h = absurd h.0
serve-append (requested (unknown n) ∷ rest) events h = serve-append rest events h.1

serve-ended :
    (e : Option String) (rest : List Event)
    → serve (ended e ∷ rest) ≡ record { sent = []; cancelled = true; returned = some (verdict e) }
unfolding serve
serve-ended none rest = refl
serve-ended (some e) rest = refl

abbrev after_quiet : List Event → Outcome → Outcome
after_quiet quiet o = record o { sent = answers quiet ++ o.sent }

abbrev pub served : List Event → List Status → Bool → Option (Bool × ℕ) → Outcome
served quiet last cancelled returned = record {
  sent = start_pending ∷ running ∷ answers quiet ++ last;
  cancelled = cancelled;
  returned = returned;
}

-- The service manager hears that the service starts and runs, and has its questions answered in
-- their order; then the first request to stop is told to the run, confirmed and ends the service
-- without a failure, and where the run ends first this is a failure exactly if it has an error.
-- What comes later is not read, and until then the service goes on.
pub execute-append :
    (quiet rest : List Event) (e : Option String)
    → All IsQuiet quiet
    → (execute quiet ≡ served quiet [] false none)
      × (execute (quiet ++ requested stop ∷ rest)
          ≡ served quiet (stop_pending ∷ []) true (some (false, 0)))
      × (execute (quiet ++ requested shutdown ∷ rest)
          ≡ served quiet (stop_pending ∷ []) true (some (false, 0)))
      × (execute (quiet ++ ended e ∷ rest) ≡ served quiet [] true (some (verdict e)))
unfolding execute serve
execute-append quiet rest e h =
    let started : Outcome → Outcome = λ o. sending start_pending (sending running o) in
    (
      ap execute (sym (append-nil quiet)) ∙ ap started (serve-append quiet [] h),
      ap started (serve-append quiet (requested stop ∷ rest) h),
      ap started (serve-append quiet (requested shutdown ∷ rest) h),
      ap started
          (serve-append quiet (ended e ∷ rest) h ∙ ap (after_quiet quiet) (serve-ended e rest)),
    )
