-- ===== src/Cron/Timer.antt =====
-- What a tick of the timer leaves to do.
use crabclaw.Prelude.{
  ℕ, suc, ◌≤◌, ◌<◌, String, ◌≡◌, refl, sym, subst, ◌∙◌, true, false, Option, none, some, List, [],
  ◌∷◌, nat_eq, string_eq, ◌==◌, arith, Bool-cases, inl, inr, eq_iff, any, All, elem, keep,
}
use crabclaw.Cron.{CronJob, is_due, has_come, compute_next_run}
use crabclaw.Cron.Run.{Run, mark, set_next, replace, without, execute_job, execute_all, run_due}
use crabclaw.Cron.Schedule.{IsLater, compute_next_run-later}

abbrev ids : List CronJob → List String
ids [] = []
ids (j ∷ js) = j.id ∷ ids js

-- Each job that is due at `now` is among the pending ones.
abbrev IsPending : ℕ → List String → List CronJob → Type 0
IsPending now pending = All (λ j. is_due now j ≡ true → elem j.id pending ≡ true)

module _ (now : ℕ) where
  replace-IsPending :
      (job : CronJob) (pending : List String) (jobs : List CronJob)
      → is_due now job ≡ false
      → IsPending now (job.id ∷ pending) jobs
      → IsPending now pending (replace job jobs)
  unfolding replace
  replace-IsPending job pending [] h p = tt
  replace-IsPending job pending (j ∷ js) h (p, ps) = (
    elim (Bool-cases (j.id == job.id)) [
      | inl same ↦ rw same (λ due. ground arith)
      | inr other ↦ rw other (λ due. ground (arith, p due, eq_iff j.id job.id, eq_iff job.id j.id))
    ],
    replace-IsPending job pending js h ps,
  )

  without-IsPending :
      (id : String) (pending : List String) (jobs : List CronJob)
      → IsPending now (id ∷ pending) jobs
      → IsPending now pending (without id jobs)
  unfolding without
  without-IsPending id pending [] p = tt
  without-IsPending id pending (j ∷ js) (p, ps) = elim (Bool-cases (j.id == id)) [
    | inl same ↦ rw same (without-IsPending id pending js ps)
    | inr other ↦ rw other (
      λ due. ground (arith, p due, eq_iff j.id id, eq_iff id j.id),
      without-IsPending id pending js ps,
    )
  ]

  has_come-later : (o : Option ℕ) → ((t : ℕ) → o ≡ some t → now < t) → has_come o now ≡ false
  has_come-later none h = refl
  has_come-later (some t) h = ground (arith, h t refl)

  IsPending-weaken :
      (id : String) (pending : List String) (jobs : List CronJob)
      → IsPending now pending jobs
      → IsPending now (id ∷ pending) jobs
  IsPending-weaken id pending [] p = tt
  IsPending-weaken id pending (j ∷ js) (p, ps) =
      (λ due. ground (arith, p due), IsPending-weaken id pending js ps)

  keep-yes :
      (j : CronJob) (js : List CronJob)
      → is_due now j ≡ true
      → keep (is_due now) (j ∷ js) ≡ (j ∷ keep (is_due now) js)
  keep-yes j js h = rw h refl

  keep-no :
      (j : CronJob) (js : List CronJob)
      → is_due now j ≡ false
      → keep (is_due now) (j ∷ js) ≡ keep (is_due now) js
  keep-no j js h = rw h refl

  due-IsPending : (jobs : List CronJob) → IsPending now (ids (keep (is_due now) jobs)) jobs
  due-IsPending [] = tt
  due-IsPending (j ∷ js) = elim (Bool-cases (is_due now j)) [
    | inl on ↦
        subst (λ due. IsPending now (ids due) (j ∷ js)) (sym (keep-yes j js on))
          (
            λ due. ground (arith, eq_iff j.id j.id),
            IsPending-weaken j.id (ids (keep (is_due now) js)) js (due-IsPending js),
          )
    | inr off ↦
        subst (λ due. IsPending now (ids due) (j ∷ js)) (sym (keep-no j js off))
          (λ due. cc (sym due ∙ off), due-IsPending js)
  ]

  not_due : (jobs : List CronJob) → IsPending now [] jobs → any (is_due now) jobs ≡ false
  not_due [] p = refl
  not_due (j ∷ js) (p, ps) = elim (Bool-cases (is_due now j)) [
    | inl due ↦ cc (p due)
    | inr off ↦ rw off (not_due js ps)
  ]

module _ (cron_next : String → Option String → ℕ → Option ℕ) (later : IsLater cron_next)
    (now : ℕ) where
  execute_job-IsPending :
      (r : Run) (job : CronJob) (pending : List String) (jobs : List CronJob)
      → now ≤ r.after
      → IsPending now (job.id ∷ pending) jobs
      → IsPending now pending (execute_job cron_next r job jobs)
  unfolding execute_job mark set_next
  execute_job-IsPending r job pending jobs h p = elim (Bool-cases (job.schedule.kind == "at")) [
    | inl once ↦ elim (Bool-cases job.delete_after_run) [
      | inl del ↦ rw (once, del) (without-IsPending now job.id pending jobs p)
      | inr stays ↦ rw (once, stays) (replace-IsPending now _ pending jobs refl p)
    ]
    | inr again ↦ rw again (
        replace-IsPending now _ pending jobs
          (ground (
            arith,
            has_come-later now (compute_next_run cron_next job.schedule r.after) (λ t e.
                ground (arith, compute_next_run-later cron_next later job.schedule r.after t e)),
          ))
          p)
  ]

  execute_all-IsPending :
      (runs : ℕ → Run) (due jobs : List CronJob)
      → ((i : ℕ) → now ≤ (runs i).after)
      → IsPending now (ids due) jobs
      → IsPending now [] (execute_all cron_next runs due jobs)
  unfolding execute_all
  execute_all-IsPending runs [] jobs h p = p
  execute_all-IsPending runs (j ∷ due) jobs h p =
      execute_all-IsPending (λ i. runs (suc i)) due (execute_job cron_next (runs 0) j jobs)
        (λ i. h (suc i)) (execute_job-IsPending (runs 0) j (ids due) jobs (h 0) p)

  -- If croniter's next run is always later than the time asked for, and no run ends before the
  -- time of the tick, then after a tick no job is due at the time of the tick.
  pub run_due-none :
      (runs : ℕ → Run) (jobs : List CronJob)
      → ((i : ℕ) → now ≤ (runs i).after)
      → any (is_due now) (run_due cron_next now runs jobs) ≡ false
  unfolding run_due
  run_due-none runs jobs h =
      not_due now (run_due cron_next now runs jobs)
        (execute_all-IsPending runs (keep (is_due now) jobs) jobs h (due-IsPending now jobs))
