-- ===== src/Retry/Attempts.antt =====
-- How often a request is tried, what its outcome is, and how long the pauses are.
use crabclaw.Prelude.{
  ℕ, zero, suc, ◌+◌, ◌*◌, ◌^◌, ◌≤◌, ◌<◌, min, ◌≡◌, ◌⊎◌, inl, inr, refl, sym, ap, subst, ◌∙◌, Bool,
  true, false, List, [], ◌∷◌, length, All, arith, Bool-cases,
}
use crabclaw.Prelude.Result.{Result, ok, raise}
use crabclaw.Retry.{
  RetryPolicy, RequestError, is_retryable, delay_of, calculate_delay, attempted, attempts, execute,
}

-- an outcome after which the policy would try again
abbrev pub wants_retry {ℓ} : {A : Type ℓ} → RetryPolicy → Result RequestError A → Bool
wants_retry p (ok a) = false
wants_retry p (raise e) = is_retryable p e

module _ (jitter : ℕ → ℕ → ℕ) {A : Type 0} (p : RetryPolicy)
    (func : ℕ → Result RequestError A) where
  -- `n` sleeps from attempt `first` on, with `left` retries allowed: the outcome is that of the
  -- attempt behind the last sleep, every earlier attempt failed so that a retry was wanted, and the last one did
  -- not, or no retry was left.
  abbrev pub IsRetried : ℕ → ℕ → Result RequestError A → ℕ → Type 0
  IsRetried left first outcome n =
      (n ≤ left)
      × ((outcome ≡ func (first + n))
          × (((i : ℕ) → i < n → wants_retry p (func (first + i)) ≡ true)
              × ((wants_retry p outcome ≡ false) ⊎ (n ≡ left))))

  IsRetried-stop :
      (left first : ℕ) → wants_retry p (func first) ≡ false → IsRetried left first (func first) 0
  IsRetried-stop left first h =
      (omega arith, (ap func (omega arith), (λ i lt. absurd (omega arith), inl h)))

  IsRetried-step :
      (left first : ℕ) (outcome : Result RequestError A) (n : ℕ)
      → wants_retry p (func first) ≡ true
      → IsRetried left (suc first) outcome n
      → IsRetried (suc left) first outcome (suc n)
  IsRetried-step left first outcome n h (le, (last, (earlier, end))) = (
    omega arith,
    (
      last ∙ ap func (omega arith),
      (λ i lt. each i lt, elim end [ inl done ↦ inl done | inr all ↦ inr (omega (arith, all)) ]),
    ),
  )
    where
      each : (i : ℕ) → i < suc n → wants_retry p (func (first + i)) ≡ true
      each zero lt = subst (λ k. wants_retry p (func k) ≡ true) (omega arith) h
      each (suc i) lt =
          subst (λ k. wants_retry p (func k) ≡ true) (omega arith) (earlier i (omega arith))

  attempted-IsRetried :
      (r : Result RequestError A) (left first : ℕ) (rest : Result RequestError A × List ℕ)
      → func first ≡ r
      → IsRetried left (suc first) rest.0 (length rest.1)
      → IsRetried
          (suc left)
          first
          (attempted jitter p func r (calculate_delay jitter p func first) rest).0
          (length (attempted jitter p func r (calculate_delay jitter p func first) rest).1)
  attempted-IsRetried (ok a) left first rest eq h =
      subst (λ r. IsRetried (suc left) first r 0) eq
        (IsRetried-stop (suc left) first (ap (wants_retry p) eq))
  attempted-IsRetried (raise e) left first (r, sleeps) eq h = elim (Bool-cases (is_retryable p e)) [
    | inl again ↦
        subst (λ x. IsRetried (suc left) first x.0 (length x.1)) (sym (goes_on again))
          (IsRetried-step left first r (length sleeps) (ap (wants_retry p) eq ∙ again) h)
    | inr final ↦
        subst (λ x. IsRetried (suc left) first x.0 (length x.1)) (sym (ends final))
          (subst (λ x. IsRetried (suc left) first x 0) eq
            (IsRetried-stop (suc left) first (ap (wants_retry p) eq ∙ final)))
  ]
    where
      goes_on :
          is_retryable p e ≡ true
          → attempted jitter p func (raise e) (calculate_delay jitter p func first) (r, sleeps)
            ≡ (r, calculate_delay jitter p func first ∷ sleeps)
      goes_on h = rw h refl

      ends :
          is_retryable p e ≡ false
          → attempted jitter p func (raise e) (calculate_delay jitter p func first) (r, sleeps)
            ≡ (raise e, [])
      ends h = rw h refl

  attempts-IsRetried :
      (left first : ℕ)
      → IsRetried left first
          (attempts jitter p func left first).0
          (length (attempts jitter p func left first).1)
  unfolding attempts
  attempts-IsRetried zero first =
      (omega arith, (ap func (omega arith), (λ i lt. absurd (omega arith), inr refl)))
  attempts-IsRetried (suc left) first =
      attempted-IsRetried (func first) left first (attempts jitter p func left (suc first)) refl
        (attempts-IsRetried left (suc first))

  abbrev pub IsShort : ℕ → Type 0
  IsShort d = 10 * d ≤ 11 * p.max_delay

  module _ (small : (i d : ℕ) → 10 * jitter i d ≤ d) where
    calculate_delay-IsShort : (first : ℕ) → IsShort (calculate_delay jitter p func first)
    unfolding calculate_delay delay_of
    calculate_delay-IsShort first =
        omega (arith, small first (min (p.base_delay * p.exponential_base ^ first) p.max_delay))

    attempted-IsShort :
        (r : Result RequestError A) (d : ℕ) (rest : Result RequestError A × List ℕ)
        → IsShort d
        → All IsShort rest.1
        → All IsShort (attempted jitter p func r d rest).1
    attempted-IsShort (ok a) d rest h hs = tt
    attempted-IsShort (raise e) d (r, sleeps) h hs = elim (Bool-cases (is_retryable p e)) [
      | inl again ↦ rw again (h, hs)
      | inr final ↦ rw final tt
    ]

    attempts-IsShort : (left first : ℕ) → All IsShort (attempts jitter p func left first).1
    unfolding attempts
    attempts-IsShort zero first = tt
    attempts-IsShort (suc left) first =
        attempted-IsShort (func first) (calculate_delay jitter p func first)
          (attempts jitter p func left (suc first)) (calculate_delay-IsShort first)
          (attempts-IsShort left (suc first))

    -- If the jitter is at most a tenth of the delay, execute sleeps at most max_retries times,
    -- each time at most 1.1 times max_delay; its outcome is that of the attempt after the last
    -- sleep, every earlier attempt failed with an error that is retried, and the last one did not,
    -- or all retries were used.
    pub execute-IsRetried :
        IsRetried p.max_retries 0 (execute jitter p func).0 (length (execute jitter p func).1)
        × All IsShort (execute jitter p func).1
    unfolding execute
    execute-IsRetried = (attempts-IsRetried p.max_retries 0, attempts-IsShort p.max_retries 0)
