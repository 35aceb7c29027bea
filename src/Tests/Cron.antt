-- ===== src/Tests/Cron.antt =====
-- The cron service at concrete inputs.
use crabclaw.Prelude.{
  ℕ, ◌+◌, String, ◌≡◌, refl, Bool, true, false, Option, none, some, List, [], ◌∷◌, nat_eq,
  string_eq, pair_eq, any, arith,
}
use crabclaw.Prelude.Int.{pos}
use crabclaw.Cron.{CronSchedule, CronJob, get_next_wake_ms, is_due}
use crabclaw.Cron.Run.{Run, find, run_due}
use crabclaw.Cron.Service.{CronService, NewJob, holds, init, jobs_of, start}
use crabclaw.Cron.Schedule.{IsLater}
use crabclaw.Cron.Wake.{gone_off, get_next_wake_ms-due}
use crabclaw.Cron.Timer.{run_due-none}
use crabclaw.Cron.Sync.{Call, tick, add, ask, run, run-due}

-- a `croniter` that runs each expression a minute later
abbrev each_minute : String → Option String → ℕ → Option ℕ
each_minute expr tz now = some (now + 60000)

each_minute-IsLater : IsLater each_minute
each_minute-IsLater expr tz now t h = ground arith

abbrev hourly : CronSchedule
hourly = record {
  kind = "every";
  at_ms = none;
  every_ms = some (pos 3600000);
  expr = none;
  tz = none;
}

abbrev once : CronSchedule
once = record { kind = "at"; at_ms = some (pos 5000); every_ms = none; expr = none; tz = none }

abbrev job : String → CronSchedule → ℕ → CronJob
job id s next = record {
  id = id;
  name = id;
  enabled = true;
  schedule = s;
  payload = record {
    kind = "agent_turn";
    message = "go";
    deliver = false;
    channel = none;
    to = none;
  };
  state = record {
    next_run_at_ms = some next;
    last_run_at_ms = none;
    last_status = none;
    last_error = none;
  };
  created_at_ms = 0;
  updated_at_ms = 0;
  delete_after_run = false;
}

abbrev jobs : List CronJob
jobs = job "a" hourly 4000 ∷ job "b" once 5000 ∷ []

abbrev service : CronService
service = init (holds 7 jobs)

abbrev runs : ℕ → Run
runs i = record { start = 6000 + i; finish = 6000 + i; after = 6000 + i; error = none }

get_next_wake_ms-due_example : gone_off (get_next_wake_ms jobs) 4500 ≡ any (is_due 4500) jobs
get_next_wake_ms-due_example = get_next_wake_ms-due jobs 4500

run_due-none_example : any (is_due 6000) (run_due each_minute 6000 runs jobs) ≡ false
run_due-none_example =
    run_due-none each_minute each_minute-IsLater 6000 runs jobs (λ i. omega arith)

abbrev request : NewJob
request = record {
  name = "c";
  schedule = hourly;
  message = "go";
  deliver = false;
  channel = none;
  to = none;
  delete_after_run = false;
}

abbrev no_zone : String → Bool
no_zone s = false

c_is_new : find "c" (jobs_of service) ≡ none
unfolding find
c_is_new = refl

abbrev calls : List Call
calls = tick 6000 runs 6100 ∷ add 6200 6201 "c" request ∷ ask ∷ []

abbrev later_service : CronService
later_service = run each_minute no_zone calls (start each_minute 3000 3001 service)

run-due_example :
    (later_service.file ≡ holds later_service.last_mtime (jobs_of later_service))
    × (later_service.running ≡ true
        → gone_off later_service.timer 9000 ≡ any (is_due 9000) (jobs_of later_service))
run-due_example = run-due each_minute no_zone calls 3000 3001 service 9000
