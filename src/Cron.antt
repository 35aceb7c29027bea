-- ===== src/Cron.antt =====
-- crabclaw/cron/types.py and crabclaw/cron/service.py: the jobs of the cron service and their
-- schedules. Times are milliseconds. `croniter` and the zone table are parameters: `cron_next expr
-- tz now` is the next run after `now`, or `none` where the library raises, and `known_zone` tells
-- whether `ZoneInfo` accepts a name.
pub mod Run
pub mod Service
pub mod Schedule
pub mod Wake
pub mod Timer
pub mod Jobs
pub mod Sync
use crabclaw.Prelude.{
  ℕ, zero, suc, ◌+◌, String, Bool, true, false, not, ◌&&◌, Option, none, some, List, [], ◌∷◌, ◌++◌,
  if◌then◌else◌, nat_eq, string_eq, ◌==◌, keep, leb, ltb,
}
use crabclaw.Prelude.Int.{ℤ, pos, negsuc}
use crabclaw.Prelude.Result.{Result, ok, raise, ◌>>=◌, ◌>>◌, raise_if}

pub record CronSchedule : Type 0 where
  pub kind : String
  pub at_ms : Option ℤ
  pub every_ms : Option ℤ
  pub expr : Option String
  pub tz : Option String

pub record CronPayload : Type 0 where
  pub kind : String
  pub message : String
  pub deliver : Bool
  pub channel : Option String
  pub to : Option String

pub record CronJobState : Type 0 where
  pub next_run_at_ms : Option ℕ
  pub last_run_at_ms : Option ℕ
  pub last_status : Option String
  pub last_error : Option String

pub record CronJob : Type 0 where
  pub id : String
  pub name : String
  pub enabled : Bool
  pub schedule : CronSchedule
  pub payload : CronPayload
  pub state : CronJobState
  pub created_at_ms : ℕ
  pub updated_at_ms : ℕ
  pub delete_after_run : Bool

-- `schedule.at_ms if schedule.at_ms and schedule.at_ms > now_ms else None`
unfoldable pub next_at : Option ℤ → ℕ → Option ℕ
next_at none now = none
next_at (some (negsuc n)) now = none
next_at (some (pos t)) now = if not (t == 0) && ltb now t then some t else none

-- `every_ms` must be positive
unfoldable pub next_every : Option ℤ → ℕ → Option ℕ
next_every none now = none
next_every (some (negsuc n)) now = none
next_every (some (pos zero)) now = none
next_every (some (pos (suc n))) now = some (now + suc n)

-- `bool(s)` for a text that may be missing
abbrev pub given : Option String → Bool
given none = false
given (some s) = not (s == "")

module _ (cron_next : String → Option String → ℕ → Option ℕ) where
  unfoldable pub next_cron : Option String → Option String → ℕ → Option ℕ
  next_cron none tz now = none
  next_cron (some expr) tz now =
      if expr == "" then none else cron_next expr (if given tz then tz else none) now

  -- `_compute_next_run`
  unfoldable pub compute_next_run : CronSchedule → ℕ → Option ℕ
  unfolding next_at next_every next_cron
  compute_next_run s now =
      if s.kind == "at"
      then next_at s.at_ms now
      else if s.kind == "every"
      then next_every s.every_ms now
      else if s.kind == "cron"
      then next_cron s.expr s.tz now
      else none

pub data ValueError : Type 0 where
  tz_without_cron : ValueError
  unknown_timezone : String → ValueError

unfoldable pub check_zone : (String → Bool) → Option String → Result ValueError (Unit {0})
check_zone known_zone none = ok tt
check_zone known_zone (some tz) =
    raise_if (not (tz == "") && not (known_zone tz)) (unknown_timezone tz)

-- `_validate_schedule_for_add`
unfoldable pub validate_schedule_for_add :
    (String → Bool) → CronSchedule → Result ValueError (Unit {0})
unfolding check_zone
validate_schedule_for_add known_zone s = do
  raise_if (given s.tz && not (s.kind == "cron")) tz_without_cron
  if s.kind == "cron" then check_zone known_zone s.tz else ok tt

-- `enabled and next_run_at_ms`: the time at which a job wants to run
abbrev pub time_of : Option ℕ → List ℕ
time_of none = []
time_of (some zero) = []
time_of (some (suc t)) = suc t ∷ []

abbrev pub wake_times : List CronJob → List ℕ
wake_times [] = []
wake_times (j ∷ js) =
    if j.enabled then time_of j.state.next_run_at_ms ++ wake_times js else wake_times js

abbrev pub lesser : ℕ → Option ℕ → Option ℕ
lesser t none = some t
lesser t (some u) = some (if leb t u then t else u)

-- `min(times) if times else None`
unfoldable pub least : List ℕ → Option ℕ
least [] = none
least (t ∷ ts) = lesser t (least ts)

-- `_get_next_wake_ms`
unfoldable pub get_next_wake_ms : List CronJob → Option ℕ
unfolding least
get_next_wake_ms jobs = least (wake_times jobs)

-- the jobs whose time has come
abbrev pub has_come : Option ℕ → ℕ → Bool
has_come none now = false
has_come (some t) now = not (t == 0) && leb t now

abbrev pub is_due : ℕ → CronJob → Bool
is_due now j = j.enabled && has_come j.state.next_run_at_ms now
