-- ===== src/Config/Normalize/Ranges.antt =====
-- internal/config/store.go, normalizeDeviceFields and normalizeScheduleFields: the ranges that they
-- are for.
use wakehub.Base.{◌≡◌, ◌≢◌, refl, IsBetween, IsAtLeast, arith, eq_iff}
use wakehub.Text.{trim_space, to_lower}
use wakehub.Text.Laws.{to_lower-trim_space_idem}
use wakehub.Config.{Device, Schedule}
use wakehub.Config.Normalize.{normalize_device_fields, normalize_schedule_fields}

-- What every device of the configuration satisfies.
pub record IsNormal (d : Device) : Type 0 where
  pub port : IsBetween 1 65535 d.port
  pub repeat : IsBetween 1 20 d.repeat
  pub method : to_lower (trim_space d.probe_method) ≡ d.probe_method
  pub named : d.probe_method ≢ ""
  pub probe_port : d.probe_method ≡ "tcp" → IsBetween 1 65535 d.probe_port
  pub interval : IsAtLeast 15 d.probe_interval

-- What every schedule of the configuration satisfies.
pub record IsTimed (sc : Schedule) : Type 0 where
  pub action : to_lower (trim_space sc.action) ≡ sc.action
  pub hour : IsBetween 0 23 sc.hour
  pub minute : IsBetween 0 59 sc.minute

off_word : to_lower (trim_space "off") ≡ "off"
unfolding to_lower trim_space
off_word = refl

-- Whatever is stored, a normalised device has a port, a repeat count and a probe interval in
-- range, a probe method in lower case, and a port to probe if that method is tcp.
pub normalize_device_fields-IsNormal : (d : Device) → IsNormal (normalize_device_fields d)
unfolding normalize_device_fields
normalize_device_fields-IsNormal d =
    let word = to_lower (trim_space d.probe_method) in
    record {
      port = ground arith;
      repeat = ground arith;
      method = ground (arith, off_word, to_lower-trim_space_idem d.probe_method, eq_iff word "");
      named = ground (arith, eq_iff word "", eq_iff "off" "");
      probe_port = ground (arith, eq_iff word "", eq_iff word "tcp", eq_iff "off" "tcp");
      interval = ground arith;
    }

pub normalize_device_fields_of_IsNormal : (d : Device) → IsNormal d → normalize_device_fields d ≡ d
unfolding normalize_device_fields
normalize_device_fields_of_IsNormal d v =
    ground (
      arith,
      v.method,
      eq_iff d.probe_method "tcp",
      eq_iff (to_lower (trim_space d.probe_method)) "",
    )

pub normalize_schedule_fields-IsTimed : (sc : Schedule) → IsTimed (normalize_schedule_fields sc)
unfolding normalize_schedule_fields
normalize_schedule_fields-IsTimed sc = ground (arith, to_lower-trim_space_idem sc.action)

pub normalize_schedule_fields_of_IsTimed :
    (sc : Schedule) → IsTimed sc → normalize_schedule_fields sc ≡ sc
unfolding normalize_schedule_fields
normalize_schedule_fields_of_IsTimed sc v = ground arith
