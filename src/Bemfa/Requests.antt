-- ===== src/Bemfa/Requests.antt =====
-- internal/bemfa/manager.go: the operations on the manager, and the histories that they make.
pub mod Connection
pub mod Devices
use Prim.Native.String
use wakehub.Base.{
  ℕ, ◌≤◌, ◌+◌, ◌≡◌, refl, sym, subst, String, Bool, true, false, List, [], ◌∷◌, ◌++◌, Option, none,
  some, arith, length, drop, ◌-◌, length-append, length-drop, ltb, Option-cases, Bool-cases, inl,
  inr, erase, lookup, if◌then◌else◌, not, ◌==◌, ◌&&◌,
}
use wakehub.Text.{trim_space}
use wakehub.Config.{Device}
use wakehub.Bemfa.{
  Call, Manager, LogLevel, LogEntry, append_log_locked, clear_logs, set_last_error_locked,
  new_manager, log_warn, log_info, log_event, log_error,
}
use wakehub.Bemfa.Topics.{validate_uid, validate_topic, normalize_topic, sanitize_uid}
use wakehub.Bemfa.Creation.{create_from, create_topic_idempotent, is_already_exists, is_param_error}
use wakehub.Bemfa.Session.{
  subscribe_locked, unsubscribe_locked, subscribe_wanted, subscribe_all, drop_unwanted, sync_locked,
  wanted_topics, close_locked, close, start, reconfigure, on_connect, on_disconnect, on_command,
}
use wakehub.Bemfa.Ensure.{
  bind_created, ensure_topic, ensure_ready, ensure_device, remove_device, cloud_name, failing,
}

pub data Request : Type 0 where
  configure : String → List Device → Request
  ensure : Device → Request
  drop_device : Device → Request
  shut : Request
  clear : Request
  opened : Request
  lost : Option String → Request
  commanded : String → String → Bool → Request

unfoldable pub serve : Call → Request → Manager → Manager
serve call (configure uid devices) m = (reconfigure call uid devices m).0
serve call (ensure d) m = (ensure_device call d m).0
serve call (drop_device d) m = remove_device call d m
serve call shut m = close call m
serve call clear m = clear_logs call m
serve call opened m = on_connect call m
serve call (lost e) m = on_disconnect call e m
serve call (commanded topic id on) m = (on_command call topic id on m).0

-- A manager without a device of the library has no topics, and at most 200 entries are kept.
pub record IsTidy (m : Manager) : Type 0 where
  pub idle : m.dev ≡ false → m.topics ≡ []
  pub kept : length m.logs ≤ 200

-- The manager after a history of requests, each with what it meets outside.
unfoldable pub manager_after : Call → List (Call × Request) → Manager
manager_after first [] = new_manager first
manager_after first ((call, r) ∷ history) = serve call r (manager_after first history)
