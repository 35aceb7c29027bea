-- ===== src/Cron/Service.antt =====
-- crabclaw/cron/service.py: the cron service. Clock readings are arguments. The file is what its
-- text decodes to, with the time of its last change; the timer is the time that it is set for.
-- While a job runs, no other call of the service is made.
use crabclaw.Prelude.{
  ℕ, String, Bool, true, false, not, ◌&&◌, ◌||◌, Option, none, some, List, [], ◌∷◌, ◌++◌,
  if◌then◌else◌, nat_eq, string_eq, ◌==◌, keep, ltb, length,
}
use crabclaw.Prelude.Result.{Result, ok, raise}
use crabclaw.Cron.{
  CronSchedule, CronJob, ValueError, compute_next_run, validate_schedule_for_add, get_next_wake_ms,
}
use crabclaw.Cron.Run.{
  Run, find, replace, without, set_next, execute_job, run_due, recompute_next_runs,
}

pub data JobFile : Type 0 where
  absent : JobFile
  unreadable : (mtime : ℕ) → JobFile
  holds : (mtime : ℕ) → (jobs : List CronJob) → JobFile

pub record CronService : Type 0 where
  pub store : Option (List CronJob)
  pub file : JobFile
  pub last_mtime : ℕ
  pub timer : Option ℕ
  pub running : Bool

abbrev pub init : JobFile → CronService
init file = record { store = none; file = file; last_mtime = 0; timer = none; running = false }

abbrev pub jobs_in : JobFile → List CronJob
jobs_in absent = []
jobs_in (unreadable t) = []
jobs_in (holds t jobs) = jobs

-- the file exists and has another time than the one that the service knows
abbrev pub is_changed : JobFile → ℕ → Bool
is_changed absent last = false
is_changed (unreadable t) last = not (t == last)
is_changed (holds t jobs) last = not (t == last)

abbrev pub loaded : Option (List CronJob) → JobFile → ℕ → List CronJob
loaded none file last = jobs_in file
loaded (some jobs) file last = if is_changed file last then jobs_in file else jobs

-- `_load_store().jobs`
abbrev pub jobs_of : CronService → List CronJob
jobs_of s = loaded s.store s.file s.last_mtime

-- `_load_store`
unfoldable pub load_store : CronService → CronService
load_store s = record s { store = some (jobs_of s) }

abbrev pub set_jobs : List CronJob → CronService → CronService
set_jobs jobs s = record s { store = some jobs }

-- `_save_store`, at the time `t`
unfoldable pub save_store : ℕ → CronService → CronService
save_store t s = elim s.store [
  | none ↦ s
  | some jobs ↦ record s { file = holds t jobs; last_mtime = t }
]

abbrev pub next_wake : Option (List CronJob) → Option ℕ
next_wake none = none
next_wake (some jobs) = get_next_wake_ms jobs

-- `_arm_timer`
unfoldable pub arm_timer : CronService → CronService
arm_timer s = record s { timer = if s.running then next_wake s.store else none }

unfoldable pub saved : ℕ → List CronJob → CronService → CronService
unfolding save_store arm_timer
saved t jobs s = arm_timer (save_store t (set_jobs jobs s))

unfoldable pub stop : CronService → CronService
stop s = record s { running = false; timer = none }

-- What the caller of `add_job` passes.
pub record NewJob : Type 0 where
  pub name : String
  pub schedule : CronSchedule
  pub message : String
  pub deliver : Bool
  pub channel : Option String
  pub to : Option String
  pub delete_after_run : Bool

-- the key by which `list_jobs` sorts: a job without a time comes last
abbrev pub is_before : Option ℕ → Option ℕ → Bool
is_before none o = false
is_before (some t) none = not (t == 0)
is_before (some t) (some u) = not (t == 0) && (ltb t u || u == 0)

abbrev pub comes_before : CronJob → CronJob → Bool
comes_before a b = is_before a.state.next_run_at_ms b.state.next_run_at_ms

unfoldable pub insert : CronJob → List CronJob → List CronJob
insert x [] = x ∷ []
insert x (y ∷ ys) = if comes_before y x then y ∷ insert x ys else x ∷ y ∷ ys

-- `sorted`, which is stable
unfoldable pub sorted : List CronJob → List CronJob
unfolding insert
sorted [] = []
sorted (j ∷ js) = insert j (sorted js)

unfoldable pub list_jobs : Bool → CronService → List CronJob × CronService
unfolding sorted load_store
list_jobs include_disabled s = (
  sorted (if include_disabled then jobs_of s else keep (λ j. j.enabled) (jobs_of s)),
  load_store s,
)

unfoldable pub remove_job : ℕ → String → CronService → Bool × CronService
unfolding load_store
remove_job t id s =
    if ltb (length (without id (jobs_of s))) (length (jobs_of s))
    then (true, saved t (without id (jobs_of s)) s)
    else (false, set_jobs (without id (jobs_of s)) s)

unfoldable pub status : CronService → (Bool × ℕ × Option ℕ) × CronService
unfolding load_store
status s = ((s.running, length (jobs_of s), get_next_wake_ms (jobs_of s)), load_store s)

-- the part of `add_job` behind the check of the schedule
unfoldable pub add_valid :
    Result ValueError (Unit {0})
    → ℕ
    → CronJob
    → CronService
    → Result ValueError CronJob × CronService
unfolding save_store arm_timer load_store
add_valid (raise e) t job s = (raise e, load_store s)
add_valid (ok x) t job s = (ok job, saved t (jobs_of s ++ (job ∷ [])) s)

module _ (cron_next : String → Option String → ℕ → Option ℕ) where
  unfoldable pub start : ℕ → ℕ → CronService → CronService
  unfolding save_store arm_timer
  start now t s =
      saved t (recompute_next_runs cron_next now (jobs_of s)) (record s { running = true })

  -- `_on_timer`
  unfoldable pub on_timer : ℕ → (ℕ → Run) → ℕ → CronService → CronService
  unfolding save_store arm_timer
  on_timer now runs t s = saved t (run_due cron_next now runs (jobs_of s)) s

  unfoldable pub new_job : ℕ → String → NewJob → CronJob
  new_job now id a = record {
    id = id;
    name = a.name;
    enabled = true;
    schedule = a.schedule;
    payload = record {
      kind = "agent_turn";
      message = a.message;
      deliver = a.deliver;
      channel = a.channel;
      to = a.to;
    };
    state = record {
      next_run_at_ms = compute_next_run cron_next a.schedule now;
      last_run_at_ms = none;
      last_status = none;
      last_error = none;
    };
    created_at_ms = now;
    updated_at_ms = now;
    delete_after_run = a.delete_after_run;
  }

  -- `add_job`; `id` is the new identifier
  unfoldable pub add_job :
      (String → Bool)
      → ℕ
      → ℕ
      → String
      → NewJob
      → CronService
      → Result ValueError CronJob × CronService
  unfolding new_job
  add_job known_zone now t id a s =
      add_valid (validate_schedule_for_add known_zone a.schedule) t (new_job now id a) s

  -- the job with its new flag, at the two readings of the clock
  unfoldable pub enable : Bool → ℕ → ℕ → CronJob → CronJob
  unfolding set_next
  enable flag updated now job =
      record (set_next (if flag then compute_next_run cron_next job.schedule now else none) job) {
        enabled = flag;
        updated_at_ms = updated;
      }

  unfoldable pub enable_found :
      Option CronJob → Bool → ℕ → ℕ → ℕ → CronService → Option CronJob × CronService
  unfolding save_store arm_timer load_store enable
  enable_found none flag updated now t s = (none, load_store s)
  enable_found (some job) flag updated now t s = (
    some (enable flag updated now job),
    saved t (replace (enable flag updated now job) (jobs_of s)) s,
  )

  unfoldable pub enable_job : String → Bool → ℕ → ℕ → ℕ → CronService → Option CronJob × CronService
  enable_job id flag updated now t s = enable_found (find id (jobs_of s)) flag updated now t s

  unfoldable pub run_found : Option CronJob → Bool → Run → ℕ → CronService → Bool × CronService
  unfolding save_store arm_timer load_store
  run_found none force r t s = (false, load_store s)
  run_found (some job) force r t s =
      if not force && not job.enabled
      then (false, load_store s)
      else (true, saved t (execute_job cron_next r job (jobs_of s)) s)

  unfoldable pub run_job : String → Bool → Run → ℕ → CronService → Bool × CronService
  run_job id force r t s = run_found (find id (jobs_of s)) force r t s
