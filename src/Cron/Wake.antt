-- ===== src/Cron/Wake.antt =====
-- The time for which the timer is set.
use crabclaw.Prelude.{
  ℕ, zero, suc, ◌≡◌, refl, ap, ◌∙◌, Bool, false, ◌||◌, Option, none, some, List, [], ◌∷◌, nat_eq,
  arith, Bool-cases, inl, inr, any, any-append, leb,
}
use crabclaw.Cron.{CronJob, wake_times, time_of, least, lesser, get_next_wake_ms, is_due, has_come}

-- A timer that is set for `m` has gone off by `now`; without a time it never does.
abbrev pub gone_off : Option ℕ → ℕ → Bool
gone_off none now = false
gone_off (some m) now = leb m now

gone_off-lesser :
    (t : ℕ) (o : Option ℕ) (now : ℕ) → gone_off (lesser t o) now ≡ (leb t now || gone_off o now)
gone_off-lesser t none now = ground arith
gone_off-lesser t (some u) now = ground arith

gone_off-least : (ts : List ℕ) (now : ℕ) → gone_off (least ts) now ≡ any (λ t. leb t now) ts
unfolding least
gone_off-least [] now = refl
gone_off-least (t ∷ ts) now =
    gone_off-lesser t (least ts) now ∙ ap (λ b. leb t now || b) (gone_off-least ts now)

any-time_of : (o : Option ℕ) (now : ℕ) → any (λ t. leb t now) (time_of o) ≡ has_come o now
any-time_of none now = refl
any-time_of (some zero) now = refl
any-time_of (some (suc t)) now = ground arith

any-wake_times :
    (jobs : List CronJob) (now : ℕ) → any (λ t. leb t now) (wake_times jobs) ≡ any (is_due now) jobs
any-wake_times [] now = refl
any-wake_times (j ∷ js) now = elim (Bool-cases j.enabled) [
  | inl on ↦ rw on (
      any-append (λ t. leb t now) (time_of j.state.next_run_at_ms) (wake_times js)
      ∙ ground (arith, any-time_of j.state.next_run_at_ms now, any-wake_times js now))
  | inr off ↦ rw off (any-wake_times js now)
]

-- At every time, the next wake time of a list of jobs has been reached exactly if some job of the
-- list is due.
pub get_next_wake_ms-due :
    (jobs : List CronJob) (now : ℕ) → gone_off (get_next_wake_ms jobs) now ≡ any (is_due now) jobs
unfolding get_next_wake_ms
get_next_wake_ms-due jobs now = gone_off-least (wake_times jobs) now ∙ any-wake_times jobs now
