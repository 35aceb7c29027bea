-- ===== src/Cron/Run.antt =====
-- crabclaw/cron/service.py: what a run does to a job and to the list of jobs.
use crabclaw.Prelude.{
  ℕ, suc, String, false, Option, none, some, List, [], ◌∷◌, if◌then◌else◌, nat_eq, string_eq, ◌==◌,
  keep,
}
use crabclaw.Cron.{CronJob, compute_next_run, is_due}

-- What happens when a job runs: the three readings of the clock, and the exception, if any.
pub record Run : Type 0 where
  pub start : ℕ
  pub finish : ℕ
  pub after : ℕ
  pub error : Option String

-- A job is known by its id, so to change the object is to replace the job of that id.
unfoldable pub replace : CronJob → List CronJob → List CronJob
replace job [] = []
replace job (j ∷ js) = (if j.id == job.id then job else j) ∷ replace job js

-- the first job of that id
unfoldable pub find : String → List CronJob → Option CronJob
find id [] = none
find id (j ∷ js) = if j.id == id then some j else find id js

unfoldable pub without : String → List CronJob → List CronJob
without id [] = []
without id (j ∷ js) = if j.id == id then without id js else j ∷ without id js

-- the job after its run, before its next run is set
unfoldable pub mark : Run → CronJob → CronJob
mark r j = record j {
  state = record j.state {
    last_run_at_ms = some r.start;
    last_status = some (elim r.error [ none ↦ "ok" | some e ↦ "error" ]);
    last_error = r.error;
  };
  updated_at_ms = r.finish;
}

unfoldable pub set_next : Option ℕ → CronJob → CronJob
set_next t j = record j { state = record j.state { next_run_at_ms = t } }

module _ (cron_next : String → Option String → ℕ → Option ℕ) where
  -- `_execute_job`
  unfoldable pub execute_job : Run → CronJob → List CronJob → List CronJob
  unfolding mark set_next replace without
  execute_job r job jobs =
      if job.schedule.kind == "at"
      then if job.delete_after_run
        then without job.id jobs
        else replace (record (set_next none (mark r job)) { enabled = false }) jobs
      else replace (set_next (compute_next_run cron_next job.schedule r.after) (mark r job)) jobs

  -- the loop over the jobs that are due; `runs i` is the i-th run
  unfoldable pub execute_all : (ℕ → Run) → List CronJob → List CronJob → List CronJob
  unfolding execute_job
  execute_all runs [] jobs = jobs
  execute_all runs (j ∷ due) jobs =
      execute_all (λ i. runs (suc i)) due (execute_job (runs 0) j jobs)

  -- the part of `_on_timer` that works on the jobs
  unfoldable pub run_due : ℕ → (ℕ → Run) → List CronJob → List CronJob
  unfolding execute_all
  run_due now runs jobs = execute_all runs (keep (is_due now) jobs) jobs

  -- `_recompute_next_runs`
  unfoldable pub recompute_next_runs : ℕ → List CronJob → List CronJob
  unfolding set_next
  recompute_next_runs now [] = []
  recompute_next_runs now (j ∷ js) =
      (if j.enabled then set_next (compute_next_run cron_next j.schedule now) j else j)
      ∷ recompute_next_runs now js
