-- ===== src/Providers/Resilient/Valid.antt =====
-- What `_call` does to the breaker, whatever other tasks do meanwhile.
use vortex_ai_gateway.Base.{
  ℕ, zero, suc, ◌+◌, ◌≡◌, Bool-cases, ◌⊎◌, inl, inr, refl, Text, Option, none, some, arith,
}
use vortex_ai_gateway.Resilience.Breaker.Invariant.{
  IsValid, allow-IsValid, record_success-IsValid, record_failure-IsValid, release_trial-IsValid,
  run-IsValid,
}
use vortex_ai_gateway.Resilience.Policy.{RetryPolicy}
use vortex_ai_gateway.Resilience.Breaker.{Permit, run, allow}
use vortex_ai_gateway.Providers.Errors.{
  ProviderError, retryable, provider_error, cancelled, other_exception, Result, returned, raised,
}
use vortex_ai_gateway.Providers.Resilient.{
  World, Environment, Interlude, Turn, attempt_with, turn_of, loop, call, give_up_with, pass, leave,
  break_with, again, backoff_or_give_up, on_retryable, on_result, on_permit, sleep_for,
  after_backoff, Backoff, waited, gave_up, sleep_cancelled, GiveUp, set_breaker, count_attempt,
  outcome_error,
}

pub Turn-cases {ℓ} :
    {A : Type ℓ} (t : Turn A)
    → ((r : Result A) × (t ≡ leave r))
      ⊎ (((exc : ProviderError) × (reason : GiveUp) × (t ≡ break_with exc reason))
          ⊎ ((exc : ProviderError) × (t ≡ again exc)))
Turn-cases (leave r) = inl (r, refl)
Turn-cases (break_with exc reason) = inr (inl (exc, reason, refl))
Turn-cases (again exc) = inr (inr (exc, refl))

module _ {ℓ} {A : Type ℓ} (name : Text) (policy : RetryPolicy) (env : Environment A) where
  pass-IsValid : (i : Interlude) (w : World) → IsValid w.breaker → IsValid (pass i w).breaker
  unfolding pass
  pass-IsValid i w v = run-IsValid i.calls w.breaker v

  -- Waiting changes the breaker only by what other tasks do while the task sleeps.
  pub backoff-breaker :
      (exc : ProviderError) (attempt started : ℕ) (w : World)
      → let b = (backoff_or_give_up name policy env exc attempt started w).1.breaker in
        (b ≡ w.breaker)
        ⊎ (b ≡ run (env.sleep attempt (sleep_for name policy env exc attempt)).0.calls w.breaker)
  unfolding backoff_or_give_up
  backoff-breaker exc attempt started w = ground arith

  backoff-IsValid :
      (exc : ProviderError) (attempt started : ℕ) (w : World)
      → IsValid w.breaker
      → IsValid (backoff_or_give_up name policy env exc attempt started w).1.breaker
  backoff-IsValid exc attempt started w v = elim (backoff-breaker exc attempt started w) [
    | inl same ↦ rw same v
    | inr slept ↦ rw slept (run-IsValid _ w.breaker v)
  ]

  pub after_backoff-breaker :
      (exc : ProviderError) (r : Backoff × World)
      → (after_backoff name policy env exc r).1.breaker ≡ r.1.breaker
  unfolding after_backoff
  after_backoff-breaker exc (waited, w) = refl
  after_backoff-breaker exc (gave_up reason, w) = refl
  after_backoff-breaker exc (sleep_cancelled, w) = refl

  on_retryable-IsValid :
      (exc : ProviderError) (permit : Permit) (attempt started : ℕ) (w : World)
      → IsValid w.breaker
      → IsValid (on_retryable name policy env exc permit attempt started w).1.breaker
  unfolding on_retryable
  on_retryable-IsValid exc permit attempt started w v = elim (Bool-cases permit.trial) [
    | inl trial ↦ rw (trial, on_retryable) (record_failure-IsValid w.clock w.breaker v)
    | inr ordinary ↦
        rw (ordinary, on_retryable, after_backoff-breaker) (backoff-IsValid exc attempt started w v)
  ]

  on_result-IsValid :
      (r : Result A) (permit : Permit) (attempt started : ℕ) (w : World)
      → IsValid w.breaker
      → IsValid (on_result name policy env r permit attempt started w).1.breaker
  unfolding on_result
  on_result-IsValid (returned a) permit attempt started w v = record_success-IsValid w.breaker v
  on_result-IsValid (raised cancelled) permit attempt started w v = v
  on_result-IsValid (raised (other_exception e)) permit attempt started w v = v
  on_result-IsValid (raised (provider_error exc)) permit attempt started w v =
      elim (Bool-cases (retryable exc)) [
        | inl transient ↦
            rw (transient, on_result)
              (on_retryable-IsValid exc permit attempt started (count_attempt outcome_error w) v)
        | inr final ↦ rw (final, on_result) v
      ]

  attempt_with-IsValid :
      (permit : Permit) (attempt started : ℕ) (w : World)
      → IsValid w.breaker
      → IsValid (attempt_with name policy env permit attempt started w).1.breaker
  unfolding attempt_with
  attempt_with-IsValid permit attempt started w v = release_trial-IsValid permit _ (
      on_result-IsValid (env.attempt attempt).0 permit attempt started
        (pass (env.attempt attempt).1 w) (pass-IsValid (env.attempt attempt).1 w v))

  on_permit-IsValid :
      (permit : Option Permit) (attempt started : ℕ) (w : World)
      → IsValid w.breaker
      → IsValid (on_permit name policy env permit attempt started w).1.breaker
  unfolding on_permit
  on_permit-IsValid none attempt started w v = v
  on_permit-IsValid (some p) attempt started w v = attempt_with-IsValid p attempt started w v

  pub turn_of-IsValid :
      (attempt started : ℕ) (w : World)
      → IsValid w.breaker
      → IsValid (turn_of name policy env attempt started w).1.breaker
  unfolding turn_of
  turn_of-IsValid attempt started w v =
      let (permit, b) = allow w.clock w.breaker in
      on_permit-IsValid permit attempt started (set_breaker b w) (allow-IsValid w.clock w.breaker v)

  loop-IsValid :
      (rest attempt started : ℕ) (w : World)
      → IsValid w.breaker
      → IsValid (loop name policy env rest attempt started w).1.breaker
  unfolding loop give_up_with
  loop-IsValid zero attempt started w v = record_failure-IsValid w.clock w.breaker v
  loop-IsValid (suc rest) attempt started w v =
      let w' = (turn_of name policy env attempt started w).1 in
      let v' : IsValid w'.breaker = turn_of-IsValid attempt started w v in
      elim (Turn-cases (turn_of name policy env attempt started w).0) [
        | inl (r, e) ↦ rw (e, loop) v'
        | inr (inl (exc, reason, e)) ↦ rw (e, loop) (record_failure-IsValid w'.clock w'.breaker v')
        | inr (inr (exc, e)) ↦ rw (e, loop) (loop-IsValid rest (attempt + 1) started w' v')
      ]

  -- A call keeps the breaker valid, with any outcome and with any calls of other tasks in between.
  pub call-IsValid : (w : World) → IsValid w.breaker → IsValid (call name policy env w).1.breaker
  unfolding call
  call-IsValid w v = loop-IsValid policy.max_attempts 0 w.clock w v
