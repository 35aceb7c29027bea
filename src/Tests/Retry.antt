-- ===== src/Tests/Retry.antt =====
-- The retry policy at concrete inputs.
use crabclaw.Prelude.{ℕ, zero, suc, ◌*◌, ◌≤◌, [], ◌∷◌, length, All, arith}
use crabclaw.Prelude.Result.{Result, ok, raise}
use crabclaw.Retry.{RetryPolicy, RequestError, status_error, execute}
use crabclaw.Retry.Attempts.{IsRetried, IsShort, execute-IsRetried}

abbrev policy : RetryPolicy
policy = record {
  max_retries = 3;
  base_delay = 1000;
  max_delay = 60000;
  exponential_base = 2;
  retryable_statuses = 429 ∷ 503 ∷ [];
}

-- two failures, then a value
abbrev request : ℕ → Result RequestError ℕ
request zero = raise (status_error 503)
request (suc zero) = raise (status_error 429)
request (suc (suc n)) = ok 7

abbrev no_jitter : ℕ → ℕ → ℕ
no_jitter i d = 0

no_jitter_small : (i d : ℕ) → 10 * no_jitter i d ≤ d
no_jitter_small i d = omega arith

execute-IsRetried_example :
    IsRetried no_jitter policy request 3 0
      (execute no_jitter policy request).0
      (length (execute no_jitter policy request).1)
    × All (IsShort no_jitter policy request) (execute no_jitter policy request).1
execute-IsRetried_example = execute-IsRetried no_jitter policy request no_jitter_small
