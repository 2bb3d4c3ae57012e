-- ===== src/Runner.antt =====
-- internal/schedule/runner.go: the schedules that are due, and what a tick of the runner does. The
-- actor and the notifier are the interfaces of the source: what they act on is the state `W`, and
-- they read the store.
pub mod Daily
use wakehub.Base.{
  ℕ, suc, ◌+◌, ℤ, String, Bool, true, false, ◌&&◌, ◌||◌, not, List, [], ◌∷◌, Option, none, some,
  if◌then◌else◌, ◌==◌, leb_ℤ, message, is_none,
}
use wakehub.Config.{Schedule, Group, Device}
use wakehub.Config.Store.{Store, Env, get_device}
use wakehub.Config.Store.Groups.{get_group}
use wakehub.Config.Store.Schedules.{list_schedules, mark_schedule_run}

-- now.Format("2006-01-02"), now.Weekday(), now.Hour() and now.Minute()
pub record Clock : Type 0 where
  pub day : String
  pub weekday : ℤ
  pub hour : ℤ
  pub minute : ℤ

pub record Actor (W : Type 0) : Type 0 where
  pub wake : Store → String → W → W × Option String
  pub shutdown : Store → String → W → W × Option String
  pub wake_group : Store → String → W → W × Option String
  pub shutdown_group : Store → String → W → W × Option String

-- The arguments of OnSchedule.
pub record Notice : Type 0 where
  pub action : String
  pub target_type : String
  pub target_id : String
  pub target_name : String
  pub ok : Bool
  pub err_msg : String

pub record Runner (W : Type 0) : Type 0 where
  pub actor : Actor W
  pub note : Option (Notice → W → W)

abbrev pub int_eq : ℤ → ℤ → Bool
int_eq a b = leb_ℤ a b && leb_ℤ b a

unfoldable pub contains_int : List ℤ → ℤ → Bool
contains_int [] v = false
contains_int (x ∷ xs) v = int_eq x v || contains_int xs v

-- len(list) > 0
abbrev pub is_nonempty : List ℤ → Bool
is_nonempty [] = false
is_nonempty (x ∷ xs) = true

-- The four tests of the loop, each of which skips the schedule.
unfoldable pub is_due : Clock → Schedule → Bool
is_due c sc =
    if not sc.enabled
    then false
    else if sc.last_run_day == c.day
    then false
    else if not (int_eq sc.hour c.hour) || not (int_eq sc.minute c.minute)
    then false
    else if is_nonempty sc.weekdays && not (contains_int sc.weekdays c.weekday)
    then false
    else true

-- targetType, targetID and targetName
unfoldable pub target : Store → Schedule → String × String × String
target s sc =
    if not (sc.group_id == "")
    then (
      "group",
      sc.group_id,
      elim (get_group s sc.group_id) [ some g ↦ Group.name g | none ↦ sc.name ],
    )
    else (
      "device",
      sc.device_id,
      elim (get_device s sc.device_id) [ some d ↦ Device.name d | none ↦ sc.name ],
    )

unfoldable pub notice : Store → Schedule → Option String → Notice
notice s sc failed =
    let (type, id, name) = target s sc in
    record {
      action = sc.action;
      target_type = type;
      target_id = id;
      target_name = name;
      ok = is_none failed;
      err_msg = message failed;
    }

module _ {W : Type 0} where
  unfoldable pub act : Actor W → Store → Schedule → W → W × Option String
  act actor s sc w =
      if not (sc.group_id == "")
      then (if sc.action == "wake"
          then actor.wake_group s sc.group_id w
          else actor.shutdown_group s sc.group_id w)
      else if sc.action == "wake"
      then actor.wake s sc.device_id w
      else actor.shutdown s sc.device_id w

  -- The error of MarkScheduleRun is dropped.
  unfoldable pub fire : Runner W → Env → String → Schedule → Store × W → Store × W
  fire r env day sc (s, w) =
      let (w', failed) = act r.actor s sc w in
      let (s', dropped) = mark_schedule_run env sc.id day s in
      (s', elim r.note [ none ↦ w' | some note ↦ note (notice s sc failed) w' ])

  -- The loop of `tick` over the schedules that were listed; the environment of the k-th round is
  -- envs k.
  unfoldable pub fire_all : Runner W → (ℕ → Env) → Clock → ℕ → List Schedule → Store × W → Store × W
  fire_all r envs c k [] sw = sw
  fire_all r envs c k (sc ∷ scs) sw =
      fire_all r envs c (k + 1) scs (if is_due c sc then fire r (envs k) c.day sc sw else sw)

  unfoldable pub tick : Runner W → (ℕ → Env) → Clock → Store × W → Store × W
  tick r envs c sw = fire_all r envs c 0 (list_schedules sw.0) sw
