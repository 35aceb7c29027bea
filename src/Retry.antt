-- ===== src/Retry.antt =====
-- crabclaw/utils/http_pool.py: `RetryPolicy`. Delays are counted in a unit in which they are whole,
-- and the base of the exponent is a whole number. The outcome of each attempt is an argument, and so
-- is `random.uniform`: `jitter i d` is what it adds to the delay d of attempt i.
pub mod Attempts
use crabclaw.Prelude.{
  ℕ, zero, suc, ◌+◌, ◌*◌, ◌^◌, min, Bool, true, false, List, [], ◌∷◌, if◌then◌else◌, nat_eq, ◌==◌,
  elem,
}
use crabclaw.Prelude.Result.{Result, ok, raise}

pub record RetryPolicy : Type 0 where
  pub max_retries : ℕ
  pub base_delay : ℕ
  pub max_delay : ℕ
  pub exponential_base : ℕ
  pub retryable_statuses : List ℕ

-- What the wrapped function may raise.
pub data RequestError : Type 0 where
  status_error : (status : ℕ) → RequestError
  connect_error : RequestError
  timeout_error : RequestError
  other_error : RequestError

-- `_is_retryable`
unfoldable pub is_retryable : RetryPolicy → RequestError → Bool
is_retryable p (status_error status) = elem status p.retryable_statuses
is_retryable p connect_error = true
is_retryable p timeout_error = true
is_retryable p other_error = false

-- the delay of an attempt, before the jitter
unfoldable pub delay_of : RetryPolicy → ℕ → ℕ
delay_of p attempt = min (p.base_delay * p.exponential_base ^ attempt) p.max_delay

module _ (jitter : ℕ → ℕ → ℕ) {A : Type 0} (p : RetryPolicy)
    (func : ℕ → Result RequestError A) where
  -- `_calculate_delay`
  unfoldable pub calculate_delay : ℕ → ℕ
  unfolding delay_of
  calculate_delay attempt = delay_of p attempt + jitter attempt (delay_of p attempt)

  abbrev pub after_sleep : ℕ → Result RequestError A × List ℕ → Result RequestError A × List ℕ
  after_sleep d (r, sleeps) = (r, d ∷ sleeps)

  abbrev pub attempted :
      Result RequestError A → ℕ → Result RequestError A × List ℕ → Result RequestError A × List ℕ
  attempted (ok a) d rest = (ok a, [])
  attempted (raise e) d rest = if is_retryable p e then after_sleep d rest else (raise e, [])

  -- the loop, with the number of retries that are left; it ends with the outcome and the sleeps
  unfoldable pub attempts : ℕ → ℕ → Result RequestError A × List ℕ
  unfolding calculate_delay is_retryable
  attempts zero attempt = (func attempt, [])
  attempts (suc left) attempt =
      attempted (func attempt) (calculate_delay attempt) (attempts left (suc attempt))

  -- `execute`
  unfoldable pub execute : Result RequestError A × List ℕ
  unfolding attempts
  execute = attempts p.max_retries 0
