-- ===== src/Audit.antt =====
-- internal/audit/log.go: the ring of the newest audit entries. The lock makes each call one step.
pub mod History
use wakehub.Base.{
  ℕ, suc, zero, ◌+◌, ◌-◌, ◌*◌, ◌%◌, String, Bool, List, [], ◌∷◌, ltb, nat_eq, if◌then◌else◌, get_or,
  set, replicate, ◌&&◌, ◌||◌, false,
}

pub record Entry : Type 0 where
  pub at : ℕ
  pub event : String
  pub device_id : String
  pub device_name : String
  pub succeeded : Bool
  pub error : String
  pub request_id : String
  pub detail : String

abbrev pub zero_entry : Entry
zero_entry = record {
  at = 0;
  event = "";
  device_id = "";
  device_name = "";
  succeeded = false;
  error = "";
  request_id = "";
  detail = "";
}

pub record Ring : Type 0 where
  pub buf : List Entry
  pub next : ℕ
  pub size : ℕ
  pub cap : ℕ

abbrev clamp : ℕ → ℕ
clamp n = if ltb n 4 then 4 else if ltb 2000 n then 2000 else n

unfoldable pub new : ℕ → Ring
new n = record { buf = replicate (clamp n) zero_entry; next = 0; size = 0; cap = clamp n }

abbrev pub stamped : ℕ → Entry → Entry
stamped now e = record e { at = if nat_eq e.at 0 then now else e.at }

unfoldable pub add : ℕ → Entry → Ring → Ring
add now e r = record {
  buf = set r.buf r.next (stamped now e);
  next = (r.next + 1) % r.cap;
  size = if ltb r.size r.cap then r.size + 1 else r.size;
  cap = r.cap;
}

-- The index of the entry that was added i calls ago. The sum is taken before the difference: with
-- i < cap both are the same number, which is not negative.
unfoldable pub index : Ring → ℕ → ℕ
index r i = (r.next + r.cap * 2 - 1 - i) % r.cap

-- The body of the loop of `List`, for `count` rounds from i.
unfoldable pub collect : Ring → ℕ → ℕ → List Entry
collect r i zero = []
collect r i (suc count) = get_or r.buf (index r i) zero_entry ∷ collect r (i + 1) count

-- A limit that is not positive is 0 here.
unfoldable pub list : Ring → ℕ → List Entry
list r limit = collect r 0 (if nat_eq limit 0 || ltb r.size limit then r.size else limit)
