-- ===== src/Probe.antt =====
-- internal/probe/probe.go: the checks whether devices can be reached, and the cache of the results.
-- The cache is a map under a lock, so each of its methods is one step. A round and a probe that is
-- asked for run in goroutines of their own; here each runs to its end, and Probe.Overtaking has what
-- holds when they overlap.
pub mod Rounds
pub mod Listener
pub mod Overtaking
use Prim.Native.String
use wakehub.Base.{
  ℕ, suc, ◌+◌, ℤ, pos, negsuc, String, Bool, true, false, ◌&&◌, ◌||◌, not, List, [], ◌∷◌, Option,
  none, some, if◌then◌else◌, ◌==◌, ltb, leb_ℤ, lookup, insert, map, is_some,
}
use wakehub.Text.{trim_space, to_lower, decimal}
use wakehub.Config.{Device, NicInfo}
use wakehub.Config.Store.{Store, list_devices, get_device}

pub record Result : Type 0 where
  pub device_id : String
  pub online : Bool
  pub method : String
  pub target : String
  pub latency_ms : ℕ
  pub error : String
  pub checked_at : ℕ

abbrev pub zero_result : Result
zero_result = record {
  device_id = "";
  online = false;
  method = "";
  target = "";
  latency_ms = 0;
  error = "";
  checked_at = 0;
}

-- What one probe meets outside: the clock, the milliseconds that it takes, net.JoinHostPort, the
-- error of net.DialTimeout for an address and a number of seconds, whether the system is Windows,
-- and the output and the error of the program `ping` for its arguments, within three seconds.
pub record Net : Type 0 where
  pub now : ℕ
  pub elapsed : ℕ
  pub join : String → String → String
  pub dial : String → ℕ → Option String
  pub windows : Bool
  pub ping : List String → String × Option String

-- The NICs of a device, where there is a function that gives them, and whether there is an onChange.
pub record Runner : Type 0 where
  pub nics_fn : Option (String → List NicInfo)
  pub has_on_change : Bool

-- The cache, and the calls of onChange with the last one first.
pub record Watch : Type 0 where
  pub cache : List (String × Result)
  pub changes : List (Result × Result)

unfoldable pub new_status_cache : Watch
new_status_cache = record { cache = []; changes = [] }

unfoldable pub get : String → Watch → Option Result
get id w = lookup id w.cache

-- The values of the map.
unfoldable pub snapshot : Watch → List Result
snapshot w = map (λ entry. entry.1) w.cache

abbrev pub is_off : String → Bool
is_off method = (method == "" || method == "off") || method == "none"

abbrev pub method_of : Device → String
method_of d = to_lower (trim_space d.probe_method)

-- The loops over the NICs: the first address of the NIC of this name, and of any.
unfoldable pub address_of : String → List NicInfo → String
address_of name [] = ""
address_of name (n ∷ ns) =
    let later = address_of name ns in
    if n.name == name then (elim n.ipv4 [ [] ↦ later | ip ∷ ips ↦ ip ]) else later

unfoldable pub any_address : List NicInfo → String
any_address [] = ""
any_address (n ∷ ns) = let later = any_address ns in elim n.ipv4 [ [] ↦ later | ip ∷ ips ↦ ip ]

unfoldable pub host_of : Device → List NicInfo → String
host_of d nics =
    let given = trim_space d.probe_host in
    let preferred = if d.preferred_nic == "" then "" else address_of d.preferred_nic nics in
    if not (given == "")
    then given
    else if not (preferred == "")
    then preferred
    else any_address nics

unfoldable pub resolve_target : Device → List NicInfo → String × ℤ × String
resolve_target d nics =
    let method = method_of d in
    if is_off method then ("", pos 0, "off") else (
      host_of d nics,
      (if method == "tcp" && leb_ℤ d.probe_port (pos 0) then pos 3389 else d.probe_port),
      method,
    )

-- "%d"
abbrev pub decimal_ℤ : ℤ → String
decimal_ℤ (pos n) = decimal n
decimal_ℤ (negsuc n) = String.◌++◌ "-" (decimal (suc n))

unfoldable pub probe_tcp : Net → String → ℤ → Option String
probe_tcp net host port = net.dial (net.join host (decimal_ℤ port)) 2

unfoldable pub probe_icmp : Net → String → Option String
probe_icmp net host =
    let arguments =
      if net.windows
      then "-n" ∷ "1" ∷ "-w" ∷ "2000" ∷ host ∷ []
      else "-c" ∷ "1" ∷ "-W" ∷ "2" ∷ host ∷ [] in
    let (out, failed) = net.ping arguments in
    elim failed [
      | none ↦ none
      | some e ↦
          let said = trim_space out in
          some (if said == "" then e else String.◌++◌ e (String.◌++◌ ": " said))
    ]

-- The end of ProbeOnce, from the error of the probe.
unfoldable pub probed : Net → Option String → Result → Result
probed net none r = record r { latency_ms = net.elapsed; online = true }
probed net (some e) r = record r { latency_ms = net.elapsed; online = false; error = e }

-- ProbeOnce, from the host, the port and the method.
unfoldable pub probe_at : Net → Device → String × ℤ × String → Result
probe_at net d (host, port, method) =
    let r : Result = record zero_result {
      device_id = d.id;
      method = method;
      checked_at = net.now;
    } in
    if method == "off"
    then record r { error = "probe disabled" }
    else if host == ""
    then record r { error = "no probe host" }
    else if method == "tcp"
    then probed net (probe_tcp net host port)
        (record r { target = String.◌++◌ host (String.◌++◌ ":" (decimal_ℤ port)) })
    else if method == "icmp" || method == "ping"
    then probed net (probe_icmp net host) (record r { target = host; method = "icmp" })
    else record r { error = "unknown probe method" }

unfoldable pub probe_once : Net → Device → List NicInfo → Result
probe_once net d nics = probe_at net d (resolve_target d nics)

-- Set of the cache: the cache with the result, and the result that it had.
abbrev pub set_result : Result → List (String × Result) → List (String × Result) × Option Result
set_result cur cache = (insert cur.device_id cur cache, lookup cur.device_id cache)

-- What onChange is to be called with after Set, if it is.
unfoldable pub change_of : Runner → Option Result → Result → Option (Result × Result)
change_of runner prev cur =
    let same : Bool = elim prev [
      | none ↦ false
      | some p ↦ if p.online then cur.online else not cur.online
    ] in
    let before : Result = elim prev [ none ↦ zero_result | some p ↦ p ] in
    if runner.has_on_change && not same then some (before, cur) else none

-- The call, where there is one.
abbrev pub call_change : Option (Result × Result) → Watch → Watch
call_change call w = record w { changes = elim call [ none ↦ w.changes | some c ↦ c ∷ w.changes ] }

-- Set and then onChange, as `tick` and ProbeDevice call them, for a goroutine that no other one comes
-- between; the lock covers Set alone, and Probe.Overtaking lets others come in.
unfoldable pub observe : Runner → Result → Watch → Watch
observe runner cur w =
    let (cache, prev) = set_result cur w.cache in
    call_change (change_of runner prev cur) (record w { cache = cache })

abbrev pub nics_for : Runner → String → List NicInfo
nics_for runner id = elim runner.nics_fn [ none ↦ [] | some f ↦ f id ]

abbrev pub interval_of : Device → ℕ
interval_of d = elim d.probe_interval [ pos n ↦ if ltb n 15 then 60 else n | negsuc n ↦ 60 ]

-- The body of the loop of `tick`; `net` is what a probe of the device meets.
unfoldable pub visit : Runner → ℕ → Net → Device → Watch → Watch
visit runner now net d w =
    let recent : Bool = elim (get d.id w) [
      | none ↦ false
      | some p ↦ ltb now (p.checked_at + interval_of d)
    ] in
    if is_off (method_of d) || recent
    then w
    else observe runner (probe_once net d (nics_for runner d.id)) w

unfoldable pub visit_all : Runner → ℕ → (String → Net) → List Device → Watch → Watch
visit_all runner now nets [] w = w
visit_all runner now nets (d ∷ ds) w =
    visit_all runner now nets ds (visit runner now (nets d.id) d w)

-- The probe of the device with an id meets what `nets` has for the id.
unfoldable pub tick : Runner → ℕ → (String → Net) → Store → Watch → Watch
tick runner now nets s w = visit_all runner now nets (list_devices s) w

unfoldable pub probe_device : Runner → Net → String → Store → Watch → Watch × Result × Option String
probe_device runner net id s w = elim (get_device s id) [
  | none ↦ (w, zero_result, some "device not found")
  | some d ↦ let cur = probe_once net d (nics_for runner id) in (observe runner cur w, cur, none)
]
