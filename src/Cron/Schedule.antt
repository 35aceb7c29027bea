-- ===== src/Cron/Schedule.antt =====
-- A schedule never asks for a run in the past.
use crabclaw.Prelude.{
  ℕ, zero, suc, ◌<◌, String, ◌≡◌, Option, none, some, if◌then◌else◌, string_eq, arith,
}
use crabclaw.Prelude.Int.{ℤ, pos, negsuc}
use crabclaw.Cron.{CronSchedule, next_at, next_every, next_cron, compute_next_run, given}

-- What `croniter` documents: the next run lies behind the time that it is asked for.
abbrev pub IsLater : (String → Option String → ℕ → Option ℕ) → Type 0
IsLater cron_next =
    (expr : String) (tz : Option String) (now t : ℕ) → cron_next expr tz now ≡ some t → now < t

next_at-later : (a : Option ℤ) (now t : ℕ) → next_at a now ≡ some t → now < t
unfolding next_at
next_at-later none now t h = cc
next_at-later (some (negsuc n)) now t h = cc
next_at-later (some (pos u)) now t h = ground arith

next_every-later : (e : Option ℤ) (now t : ℕ) → next_every e now ≡ some t → now < t
unfolding next_every
next_every-later none now t h = cc
next_every-later (some (negsuc n)) now t h = cc
next_every-later (some (pos zero)) now t h = cc
next_every-later (some (pos (suc n))) now t h = ground arith

module _ (cron_next : String → Option String → ℕ → Option ℕ) (later : IsLater cron_next) where
  next_cron-later :
      (e tz : Option String) (now t : ℕ) → next_cron cron_next e tz now ≡ some t → now < t
  unfolding next_cron
  next_cron-later none tz now t h = cc
  next_cron-later (some e) tz now t h =
      ground (arith, later e (if given tz then tz else none) now t)

  -- If croniter's next run is always later than the time asked for, then the next run of every
  -- schedule, if there is one, is later than the time for which it is computed.
  pub compute_next_run-later :
      (s : CronSchedule) (now t : ℕ) → compute_next_run cron_next s now ≡ some t → now < t
  unfolding compute_next_run
  compute_next_run-later s now t h = ground (
    arith,
    next_at-later s.at_ms now t,
    next_every-later s.every_ms now t,
    next_cron-later s.expr s.tz now t,
  )
