-- ===== src/Cron/Sync.antt =====
-- The cron service in the long run: memory, file and timer stay in step.
use crabclaw.Prelude.{
  ℕ, String, ◌≡◌, refl, ap, Bool, true, not, ◌&&◌, Option, none, some, List, [], ◌∷◌, ◌++◌, nat_eq,
  string_eq, any, arith, Bool-cases, Option-cases, inl, inr, nat_beq_iff,
}
use crabclaw.Prelude.Result.{Result, ok, raise}
use crabclaw.Cron.{CronJob, ValueError, is_due, get_next_wake_ms, validate_schedule_for_add}
use crabclaw.Cron.Run.{Run, find, without, replace, execute_job, run_due, recompute_next_runs}
use crabclaw.Cron.Wake.{gone_off, get_next_wake_ms-due}
use crabclaw.Cron.Service.{
  CronService, NewJob, holds, saved, jobs_of, load_store, save_store, arm_timer, start, stop,
  on_timer, list_jobs, add_job, add_valid, new_job, remove_job, enable_job, enable_found, enable,
  run_job, run_found, status,
}
use crabclaw.Cron.Jobs.{length-without, without_absent}

-- The calls of a running service, each with its readings of the clock.
pub data Call : Type 0 where
  tick : (now : ℕ) → (runs : ℕ → Run) → (t : ℕ) → Call
  add : (now : ℕ) → (t : ℕ) → (id : String) → (a : NewJob) → Call
  remove : (t : ℕ) → (id : String) → Call
  switch : (id : String) → (flag : Bool) → (updated : ℕ) → (now : ℕ) → (t : ℕ) → Call
  run_now : (id : String) → (force : Bool) → (r : Run) → (t : ℕ) → Call
  show : (include_disabled : Bool) → Call
  ask : Call
  halt : Call

-- Memory and file hold the same jobs, and the timer of a running service is set for the next one.
pub record IsInStep (s : CronService) : Type 0 where
  pub jobs : List CronJob
  pub stored : s.store ≡ some jobs
  pub filed : s.file ≡ holds s.last_mtime jobs
  pub armed : s.running ≡ true → s.timer ≡ get_next_wake_ms jobs

saved-IsInStep : (t : ℕ) (jobs : List CronJob) (s : CronService) → IsInStep (saved t jobs s)
unfolding saved save_store arm_timer
saved-IsInStep t jobs s = record {
  jobs = jobs;
  stored = refl;
  filed = refl;
  armed = λ on. rw on refl;
}

jobs_of-IsInStep : (s : CronService) (p : IsInStep s) → jobs_of s ≡ p.jobs
jobs_of-IsInStep s p =
    rw (p.stored, p.filed) (ground (arith, nat_beq_iff s.last_mtime s.last_mtime))

load_store-IsInStep : (s : CronService) → IsInStep s → IsInStep (load_store s)
unfolding load_store
load_store-IsInStep s p = record {
  jobs = p.jobs;
  stored = ap some (jobs_of-IsInStep s p);
  filed = p.filed;
  armed = p.armed;
}

stop-IsInStep : (s : CronService) → IsInStep s → IsInStep (stop s)
unfolding stop
stop-IsInStep s p = record {
  jobs = p.jobs;
  stored = p.stored;
  filed = p.filed;
  armed = λ on. cc on;
}

remove_job-IsInStep :
    (t : ℕ) (id : String) (s : CronService) → IsInStep s → IsInStep (remove_job t id s).1
unfolding remove_job load_store
remove_job-IsInStep t id s p = elim (Option-cases (find id (jobs_of s))) [
  | inl missing ↦
      rw (length-without id (jobs_of s), missing, without_absent id (jobs_of s) missing)
        (load_store-IsInStep s p)
  | inr (j, there) ↦
      rw (length-without id (jobs_of s), there) (saved-IsInStep t (without id (jobs_of s)) s)
]

add_valid-IsInStep :
    (r : Result ValueError (Unit {0})) (t : ℕ) (job : CronJob) (s : CronService)
    → IsInStep s
    → IsInStep (add_valid r t job s).1
unfolding add_valid
add_valid-IsInStep (raise e) t job s p = load_store-IsInStep s p
add_valid-IsInStep (ok x) t job s p = saved-IsInStep t (jobs_of s ++ (job ∷ [])) s

module _ (cron_next : String → Option String → ℕ → Option ℕ) (known_zone : String → Bool) where
  unfoldable pub step : Call → CronService → CronService
  step (tick now runs t) s = on_timer cron_next now runs t s
  step (add now t id a) s = (add_job cron_next known_zone now t id a s).1
  step (remove t id) s = (remove_job t id s).1
  step (switch id flag updated now t) s = (enable_job cron_next id flag updated now t s).1
  step (run_now id force r t) s = (run_job cron_next id force r t s).1
  step (show include_disabled) s = (list_jobs include_disabled s).1
  step ask s = (status s).1
  step halt s = stop s

  unfoldable pub run : List Call → CronService → CronService
  unfolding step
  run [] s = s
  run (c ∷ cs) s = run cs (step c s)

  enable_found-IsInStep :
      (o : Option CronJob) (flag : Bool) (updated now t : ℕ) (s : CronService)
      → IsInStep s
      → IsInStep (enable_found cron_next o flag updated now t s).1
  unfolding enable_found
  enable_found-IsInStep none flag updated now t s p = load_store-IsInStep s p
  enable_found-IsInStep (some job) flag updated now t s p =
      saved-IsInStep t (replace (enable cron_next flag updated now job) (jobs_of s)) s

  run_found-IsInStep :
      (o : Option CronJob) (force : Bool) (r : Run) (t : ℕ) (s : CronService)
      → IsInStep s
      → IsInStep (run_found cron_next o force r t s).1
  unfolding run_found
  run_found-IsInStep none force r t s p = load_store-IsInStep s p
  run_found-IsInStep (some job) force r t s p = elim (Bool-cases (not force && not job.enabled)) [
    | inl refused ↦ rw refused (load_store-IsInStep s p)
    | inr runs ↦ rw runs (saved-IsInStep t (execute_job cron_next r job (jobs_of s)) s)
  ]

  step-IsInStep : (c : Call) (s : CronService) → IsInStep s → IsInStep (step c s)
  unfolding step on_timer add_job enable_job run_job list_jobs status
  step-IsInStep (tick now runs t) s p = saved-IsInStep t (run_due cron_next now runs (jobs_of s)) s
  step-IsInStep (add now t id a) s p =
      add_valid-IsInStep (validate_schedule_for_add known_zone a.schedule) t
        (new_job cron_next now id a) s p
  step-IsInStep (remove t id) s p = remove_job-IsInStep t id s p
  step-IsInStep (switch id flag updated now t) s p =
      enable_found-IsInStep (find id (jobs_of s)) flag updated now t s p
  step-IsInStep (run_now id force r t) s p = run_found-IsInStep (find id (jobs_of s)) force r t s p
  step-IsInStep (show include_disabled) s p = load_store-IsInStep s p
  step-IsInStep ask s p = load_store-IsInStep s p
  step-IsInStep halt s p = stop-IsInStep s p

  run-IsInStep : (cs : List Call) (s : CronService) → IsInStep s → IsInStep (run cs s)
  unfolding run
  run-IsInStep [] s p = p
  run-IsInStep (c ∷ cs) s p = run-IsInStep cs (step c s) (step-IsInStep c s p)

  start-IsInStep : (now t : ℕ) (s : CronService) → IsInStep (start cron_next now t s)
  unfolding start
  start-IsInStep now t s =
      saved-IsInStep t (recompute_next_runs cron_next now (jobs_of s)) (record s { running = true })

  IsInStep-due :
      (s : CronService) (time : ℕ)
      → IsInStep s
      → (s.file ≡ holds s.last_mtime (jobs_of s))
        × (s.running ≡ true → gone_off s.timer time ≡ any (is_due time) (jobs_of s))
  IsInStep-due s time p =
      rw (jobs_of-IsInStep s p) (p.filed, λ on. rw (p.armed on) (get_next_wake_ms-due p.jobs time))

  -- After start and any sequence of ticks and calls, without a change of the file from outside,
  -- the file holds the jobs of the service, and if the service is running, its timer has gone off
  -- at a given time exactly if some job is due at that time.
  pub run-due :
      (calls : List Call) (now t : ℕ) (s : CronService) (time : ℕ)
      → ((run calls (start cron_next now t s)).file
          ≡ holds
              (run calls (start cron_next now t s)).last_mtime
              (jobs_of (run calls (start cron_next now t s))))
        × ((run calls (start cron_next now t s)).running ≡ true
            → gone_off (run calls (start cron_next now t s)).timer time
              ≡ any (is_due time) (jobs_of (run calls (start cron_next now t s))))
  run-due calls now t s time =
      IsInStep-due (run calls (start cron_next now t s)) time
        (run-IsInStep calls (start cron_next now t s) (start-IsInStep now t s))
