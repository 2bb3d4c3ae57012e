-- ===== src/Client/Control.antt =====
-- internal/clientapp/shutdown.go, and the messages that session.go gives to it: the requests to
-- switch the machine off. Times are in nanoseconds. The map of the requests is changed by one call
-- of LoadOrStore for a message, and by the pruning, which is one step here.
pub mod Spacing
use wakehub.Base.{
  ℕ, ◌+◌, String, Bool, true, false, not, List, [], ◌∷◌, Option, none, some, if◌then◌else◌, ◌==◌,
  ltb, lookup, insert, filter_by, is_some, ◌&&◌,
}

-- What the client writes to the server: "shutdown_ack" with its status, and "shutdown_err".
pub data Sent : Type 0 where
  ack : String → String → Sent
  failure : String → String → Sent

-- `seen` is recentShutdownIDs; `started` are the runs of the command with their requests and times,
-- and `sent` the messages, both with the last one first.
pub record Inbox : Type 0 where
  pub seen : List (String × ℕ)
  pub started : List (String × ℕ)
  pub sent : List Sent

abbrev pub empty : Inbox
empty = record { seen = []; started = []; sent = [] }

unfoldable pub handle_control_msg : ℕ → String → Inbox → Inbox
handle_control_msg now id s =
    if not (id == "") && is_some (lookup id s.seen)
    then record s { sent = ack "duplicate" id ∷ s.sent }
    else record {
      seen = if id == "" then s.seen else insert id now s.seen;
      started = (id, now) ∷ s.started;
      sent = ack "accepted" id ∷ s.sent;
    }

-- The end of a run of the command, with its error.
unfoldable pub finished : String → Option String → Inbox → Inbox
finished id none s = record s { sent = ack "executed" id ∷ s.sent }
finished id (some e) s = record s { sent = failure e id ∷ s.sent }

abbrev pub ten_minutes : ℕ
ten_minutes = 600000000000

unfoldable pub prune_shutdown_ids : ℕ → Inbox → Inbox
prune_shutdown_ids now s = record s {
  seen = filter_by (λ entry. not (ltb (entry.1 + ten_minutes) now)) s.seen;
}

unfoldable pub reset_shutdown_dedupe : Inbox → Inbox
reset_shutdown_dedupe s = record s { seen = [] }

-- A message of the server, by its type and its requestId: the switch in the loop of Session.
unfoldable pub receive : ℕ → String → String → Inbox → Inbox
receive now type id s = if type == "shutdown" then handle_control_msg now id s else s
