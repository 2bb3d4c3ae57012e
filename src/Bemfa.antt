-- ===== src/Bemfa.antt =====
-- internal/bemfa/manager.go: the manager of the topics at the Bemfa cloud. The library bemfa-go is
-- what a `Call` says of it; a lock makes each method one step.
pub mod Topics
pub mod Logs
pub mod Creation
pub mod Session
pub mod Ensure
pub mod Requests
use Prim.Native.String
use wakehub.Base.{
  ℕ, ◌+◌, ◌-◌, ℤ, String, Bool, true, false, List, [], ◌∷◌, ◌++◌, Option, none, some, if◌then◌else◌,
  ltb, nat_eq, length, drop, ◌||◌,
}

abbrev pub max_log_entries : ℕ
max_log_entries = 200

pub data LogLevel : Type 0 where
  log_info : LogLevel
  log_warn : LogLevel
  log_error : LogLevel
  log_event : LogLevel

pub record LogEntry : Type 0 where
  pub time : ℕ
  pub level : LogLevel
  pub message : String

-- The field `dev` says whether there is a device of the library; `topics` maps topics to devices.
pub record Manager : Type 0 where
  pub uid : String
  pub dev : Bool
  pub topics : List (String × String)
  pub started : Bool
  pub logs : List LogEntry
  pub last_error : String
  pub connected_at : ℕ

-- An error of the library's HTTP calls: its text, and the code and message of an APIError in it.
pub record CallError : Type 0 where
  pub text : String
  pub api : Option (ℤ × String)

-- What a method meets outside: the clock in seconds and milliseconds, rand.Read, strconv.Quote,
-- which knows the characters that can be printed, and the library: the error of Start, of the
-- subscription to a topic, and of the k-th call that would make a topic of this name.
pub record Call : Type 0 where
  pub now : ℕ
  pub now_milli : ℕ
  pub read : ℕ → List ℕ
  pub quote : String → String
  pub start : String → Option String
  pub subscribe : String → Option String
  pub create : ℕ → String → String → Option CallError

-- The entry is mirrored to the log of the process.
unfoldable pub append_log_locked : Call → LogLevel → String → Manager → Manager
append_log_locked call level message m =
    let entry : LogEntry = record { time = call.now_milli; level = level; message = message } in
    let logs = m.logs ++ entry ∷ [] in
    record m {
      logs =
          if ltb max_log_entries (length logs)
          then drop (length logs - max_log_entries) logs
          else logs;
    }

unfoldable pub new_manager : Call → Manager
new_manager call = append_log_locked call log_info "bemfa manager ready" (record {
  uid = "";
  dev = false;
  topics = [];
  started = false;
  logs = [];
  last_error = "";
  connected_at = 0;
})

-- A limit that is not positive is 0 here.
unfoldable pub logs_of : Manager → ℕ → List LogEntry
logs_of m limit =
    let n = if nat_eq limit 0 || ltb (length m.logs) limit then length m.logs else limit in
    drop (length m.logs - n) m.logs

unfoldable pub clear_logs : Call → Manager → Manager
clear_logs call m = append_log_locked call log_info "logs cleared" (record m { logs = [] })

unfoldable pub set_last_error_locked : Option String → Manager → Manager
set_last_error_locked none m = record m { last_error = "" }
set_last_error_locked (some e) m = record m { last_error = e }
