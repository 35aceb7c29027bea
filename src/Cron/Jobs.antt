-- ===== src/Cron/Jobs.antt =====
-- What each call of the cron service does to the jobs, seen by their ids.
use crabclaw.Prelude.{
  ℕ, ◌≤◌, String, ◌≡◌, refl, subst, ap, ◌∙◌, Bool, false, Option, none, some, is_some, List, [],
  ◌∷◌, ◌++◌, if◌then◌else◌, nat_eq, string_eq, ◌==◌, ltb, length, arith, Bool-cases, Option-cases,
  inl, inr, eq_iff, nat_beq_iff,
}
use crabclaw.Prelude.Result.{Result, ok, raise}
use crabclaw.Cron.{CronJob, ValueError, is_due, validate_schedule_for_add}
use crabclaw.Cron.Run.{find, replace, without, set_next}
use crabclaw.Cron.Service.{
  CronService, NewJob, JobFile, saved, jobs_of, is_changed, load_store, save_store, arm_timer,
  loaded, add_job, add_valid, saved, new_job, remove_job, enable_job, enable_found, enable,
}

-- what `saved` stores is what the next call finds
pub jobs_of-saved :
    (t : ℕ) (jobs : List CronJob) (s : CronService) → jobs_of (saved t jobs s) ≡ jobs
unfolding saved save_store arm_timer
jobs_of-saved t jobs s = ground (arith, nat_beq_iff t t)

loaded-again :
    (o : Option (List CronJob)) (file : JobFile) (last : ℕ)
    → loaded (some (loaded o file last)) file last ≡ loaded o file last
loaded-again none file last = elim (Bool-cases (is_changed file last)) [
  | inl c ↦ rw c refl
  | inr c ↦ rw c refl
]
loaded-again (some jobs) file last = elim (Bool-cases (is_changed file last)) [
  | inl c ↦ rw c refl
  | inr c ↦ rw c refl
]

-- a second load finds the same jobs
pub jobs_of-load_store : (s : CronService) → jobs_of (load_store s) ≡ jobs_of s
unfolding load_store
jobs_of-load_store s = loaded-again s.store s.file s.last_mtime

find-append :
    (id : String) (job : CronJob) (jobs : List CronJob)
    → find job.id jobs ≡ none
    → find id (jobs ++ (job ∷ [])) ≡ (if job.id == id then some job else find id jobs)
unfolding find
find-append id job [] h = refl
find-append id job (j ∷ js) h = elim (Bool-cases (j.id == id)) [
  | inl same ↦ rw same (ground (arith, eq_iff j.id id, eq_iff job.id id, eq_iff j.id job.id))
  | inr other ↦ rw other (find-append id job js (ground (arith, h)))
]

-- the job of `id` after `add_job` succeeded or failed
abbrev pub after_add : Result ValueError CronJob → String → Option CronJob → Option CronJob
after_add (raise e) id before = before
after_add (ok job) id before = if job.id == id then some job else before

add_valid-find :
    (r : Result ValueError (Unit {0})) (t : ℕ) (job : CronJob) (s : CronService) (id : String)
    → find job.id (jobs_of s) ≡ none
    → find id (jobs_of (add_valid r t job s).1)
      ≡ after_add (add_valid r t job s).0 id (find id (jobs_of s))
unfolding add_valid load_store
add_valid-find (raise e) t job s id h = ap (find id) (jobs_of-load_store s)
add_valid-find (ok x) t job s id h =
    ap (find id) (jobs_of-saved t (jobs_of s ++ (job ∷ [])) s) ∙ find-append id job (jobs_of s) h

-- If no job has the new identifier, then after add_job every identifier is found as before, except
-- that the new one is found with the returned job if add_job succeeds.
pub add_job-find :
    (cron_next : String → Option String → ℕ → Option ℕ) (known_zone : String → Bool) (now t : ℕ)
    (id : String) (a : NewJob) (s : CronService) (other : String)
    → find id (jobs_of s) ≡ none
    → find other (jobs_of (add_job cron_next known_zone now t id a s).1)
      ≡ after_add (add_job cron_next known_zone now t id a s).0 other (find other (jobs_of s))
unfolding add_job new_job
add_job-find cron_next known_zone now t id a s other h =
    add_valid-find (validate_schedule_for_add known_zone a.schedule) t (new_job cron_next now id a)
      s other h

find-without :
    (id other : String) (jobs : List CronJob)
    → find other (without id jobs) ≡ (if other == id then none else find other jobs)
unfolding find without
find-without id other [] = ground arith
find-without id other (j ∷ js) = elim (Bool-cases (j.id == id)) [
  | inl same ↦ rw same (
      find-without id other js ∙ ground (arith, eq_iff j.id id, eq_iff other id, eq_iff j.id other))
  | inr off ↦
      ground (arith, find-without id other js, eq_iff j.id id, eq_iff other id, eq_iff j.id other)
]

length-without-le : (id : String) (jobs : List CronJob) → length (without id jobs) ≤ length jobs
unfolding without
length-without-le id [] = ground arith
length-without-le id (j ∷ js) = ground (arith, length-without-le id js)

pub length-without :
    (id : String) (jobs : List CronJob)
    → ltb (length (without id jobs)) (length jobs) ≡ is_some (find id jobs)
unfolding without find
length-without id [] = refl
length-without id (j ∷ js) = elim (Bool-cases (j.id == id)) [
  | inl same ↦ rw same (ground (arith, length-without-le id js))
  | inr off ↦ rw off (ground (arith, length-without id js))
]

pub without_absent :
    (id : String) (jobs : List CronJob) → find id jobs ≡ none → without id jobs ≡ jobs
unfolding without find
without_absent id [] h = refl
without_absent id (j ∷ js) h = elim (Bool-cases (j.id == id)) [
  | inl same ↦ ground (arith, h, same)
  | inr off ↦ rw off (ap (λ js'. j ∷ js') (without_absent id js (ground (arith, h, off))))
]

jobs_of-remove_job :
    (t : ℕ) (id : String) (s : CronService) → jobs_of (remove_job t id s).1 ≡ without id (jobs_of s)
unfolding remove_job load_store
jobs_of-remove_job t id s = elim (Option-cases (find id (jobs_of s))) [
  | inl none_there ↦
      rw (length-without id (jobs_of s), none_there, without_absent id (jobs_of s) none_there)
        (jobs_of-load_store s)
  | inr (j, there) ↦
      rw (length-without id (jobs_of s), there) (jobs_of-saved t (without id (jobs_of s)) s)
]

-- remove_job returns whether a job of the identifier was found; afterwards the identifier is not
-- found, and every other one is found as before.
pub remove_job-find :
    (t : ℕ) (id : String) (s : CronService)
    → ((remove_job t id s).0 ≡ is_some (find id (jobs_of s)))
      × ((other : String)
          → find other (jobs_of (remove_job t id s).1)
            ≡ (if other == id then none else find other (jobs_of s)))
unfolding remove_job
remove_job-find t id s = (
  ground (arith, length-without id (jobs_of s)),
  λ other. ap (find other) (jobs_of-remove_job t id s) ∙ find-without id other (jobs_of s),
)

abbrev in_place : CronJob → Option CronJob → Option CronJob
in_place job none = none
in_place job (some old) = some job

find-replace :
    (job : CronJob) (other : String) (jobs : List CronJob)
    → find other (replace job jobs)
      ≡ (if job.id == other then in_place job (find other jobs) else find other jobs)
unfolding find replace
find-replace job other [] = ground arith
find-replace job other (j ∷ js) = elim (Bool-cases (j.id == job.id)) [
  | inl same ↦ rw same (
      ground (
        arith,
        find-replace job other js,
        eq_iff j.id job.id,
        eq_iff job.id other,
        eq_iff j.id other,
      ))
  | inr off ↦ rw off (
      ground (
        arith,
        find-replace job other js,
        eq_iff j.id job.id,
        eq_iff job.id other,
        eq_iff j.id other,
      ))
]

find-id :
    (id : String) (jobs : List CronJob) (job : CronJob) → find id jobs ≡ some job → job.id ≡ id
unfolding find
find-id id [] job h = cc h
find-id id (j ∷ js) job h = elim (Bool-cases (j.id == id)) [
  | inl same ↦ ground (arith, eq_iff j.id id, h, same)
  | inr off ↦ find-id id js job (ground (arith, h, off))
]

module _ (cron_next : String → Option String → ℕ → Option ℕ) where
  enable_found-find :
      (o : Option CronJob) (id : String) (flag : Bool) (updated now t : ℕ) (s : CronService)
      (other : String)
      → find id (jobs_of s) ≡ o
      → find other (jobs_of (enable_found cron_next o flag updated now t s).1) ≡ (
          if id == other
          then (enable_found cron_next o flag updated now t s).0
          else find other (jobs_of s))
  unfolding enable_found load_store enable set_next
  enable_found-find none id flag updated now t s other h =
      ap (find other) (jobs_of-load_store s) ∙ ground (arith, h, eq_iff id other)
  enable_found-find (some job) id flag updated now t s other h =
      ap (find other)
        (jobs_of-saved t (replace (enable cron_next flag updated now job) (jobs_of s)) s)
      ∙ find-replace (enable cron_next flag updated now job) other (jobs_of s)
      ∙ ground (arith, h, eq_iff id other, find-id id (jobs_of s) job h)

  enable_found-is_some :
      (o : Option CronJob) (flag : Bool) (updated now t : ℕ) (s : CronService)
      → is_some (enable_found cron_next o flag updated now t s).0 ≡ is_some o
  unfolding enable_found
  enable_found-is_some none flag updated now t s = refl
  enable_found-is_some (some job) flag updated now t s = refl

  enable_found-enabled :
      (o : Option CronJob) (flag : Bool) (updated now t : ℕ) (s : CronService) (job : CronJob)
      (time : ℕ)
      → (enable_found cron_next o flag updated now t s).0 ≡ some job
      → (job.enabled ≡ flag) × (flag ≡ false → is_due time job ≡ false)
  unfolding enable_found enable set_next
  enable_found-enabled none flag updated now t s job time h = cc h
  enable_found-enabled (some old) flag updated now t s job time h =
      subst (λ j. (j.enabled ≡ flag) × (flag ≡ false → is_due time j ≡ false))
        (ap (λ o. elim o [ none ↦ enable cron_next flag updated now old | some j ↦ j ]) h)
        (refl, λ off. rw off refl)

  -- enable_job returns a job exactly if the identifier was found; afterwards the identifier is
  -- found with the returned job, and every other one is found as before; the returned job has the
  -- flag that was asked for, and if it was disabled it is due at no time.
  pub enable_job-find :
      (id : String) (flag : Bool) (updated now t : ℕ) (s : CronService)
      → ((other : String)
          → find other (jobs_of (enable_job cron_next id flag updated now t s).1) ≡ (
              if id == other
              then (enable_job cron_next id flag updated now t s).0
              else find other (jobs_of s)))
        × (is_some (enable_job cron_next id flag updated now t s).0 ≡ is_some (find id (jobs_of s)))
        × ((job : CronJob) (time : ℕ)
            → (enable_job cron_next id flag updated now t s).0 ≡ some job
            → (job.enabled ≡ flag) × (flag ≡ false → is_due time job ≡ false))
  unfolding enable_job
  enable_job-find id flag updated now t s = (
    λ other. enable_found-find (find id (jobs_of s)) id flag updated now t s other refl,
    enable_found-is_some (find id (jobs_of s)) flag updated now t s,
    enable_found-enabled (find id (jobs_of s)) flag updated now t s,
  )
