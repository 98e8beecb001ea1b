-- ===== src/Providers/Resilient/Serve.antt =====
-- What `_call` is for: a transient fault is retried until the provider serves.
use vortex_ai_gateway.Base.{
  ℕ, zero, suc, ◌+◌, ◌≤◌, ◌<◌, ◌≡◌, refl, Text, true, false, none, arith, length, ap, ◌∙◌, subst,
}
use native.Mathlib.Decide.{dec_lt}
use vortex_ai_gateway.Resilience.Policy.{RetryPolicy}
use vortex_ai_gateway.Resilience.Breaker.{
  closed, allow, record_success, run, CircuitBreaker, release_trial,
}
use vortex_ai_gateway.Providers.Errors.{ProviderError, retryable, provider_error, returned, raised}
use vortex_ai_gateway.Providers.Resilient.{
  World, Environment, leave, again, turn_of, loop, call, sleep_for,
}
use vortex_ai_gateway.Providers.Resilient.Slot.{IsQuiet}

-- The conditions of an undisturbed call: no other task on the breaker, no cancelled sleep, no
-- deadline and no budget, and a closed breaker.
pub record IsCalm {ℓ} {A : Type ℓ} (policy : RetryPolicy) (env : Environment A) (w : World)
    : Type ℓ where
  pub quiet : IsQuiet env
  pub awake : (n d : ℕ) → (env.sleep n d).1 ≡ false
  pub no_deadline : policy.deadline ≡ none
  pub no_budget : w.budget ≡ none
  pub in_service : w.breaker.state ≡ closed
  pub slot_free : w.breaker.trial ≡ none

module _ {ℓ} {A : Type ℓ} (name : Text) (policy : RetryPolicy) (env : Environment A) where
  turn_transient :
      (exc : ProviderError) (attempt started : ℕ) (w : World)
      → IsCalm policy env w
      → attempt + 1 < policy.max_attempts
      → (env.attempt attempt).0 ≡ raised (provider_error exc)
      → retryable exc ≡ true
      → let (t, w') = turn_of name policy env attempt started w in
        (t ≡ again exc)
        × (w'.breaker ≡ w.breaker)
        × (w'.budget ≡ none)
        × (length w'.attempts ≡ length w.attempts + 1)
  unfolding turn_of run release_trial allow
  turn_transient exc attempt started w calm more fails transient =
      let d : ℕ = sleep_for name policy env exc attempt in
      ground (
        arith,
        calm,
        calm.quiet.attempt_quiet attempt,
        calm.quiet.sleep_quiet attempt d,
        calm.awake attempt d,
      )

  turn_served :
      (a : A) (attempt started : ℕ) (w : World)
      → IsCalm policy env w
      → (env.attempt attempt).0 ≡ returned a
      → let (t, w') = turn_of name policy env attempt started w in
        (t ≡ leave (returned a))
        × (w'.breaker ≡ record_success w.breaker)
        × (length w'.attempts ≡ length w.attempts + 1)
  unfolding turn_of run release_trial allow record_success
  turn_served a attempt started w calm serves =
      ground (arith, calm, calm.quiet.attempt_quiet attempt)

  module _ (a : A) (fault : ℕ → ProviderError) (k : ℕ) where
    loop-serves :
        (rest attempt started : ℕ) (w : World)
        → IsCalm policy env w
        → ((n : ℕ) → n < k → (env.attempt n).0 ≡ raised (provider_error (fault n)))
        → ((n : ℕ) → retryable (fault n) ≡ true)
        → (env.attempt k).0 ≡ returned a
        → attempt + rest ≡ policy.max_attempts
        → attempt ≤ k
        → k < policy.max_attempts
        → let (r, w') = loop name policy env rest attempt started w in
          (r ≡ returned a)
          × (w'.breaker ≡ record_success w.breaker)
          × (length w'.attempts + attempt ≡ length w.attempts + k + 1)
    unfolding loop
    loop-serves zero attempt started w calm faults transient serves total le lt =
        absurd (omega arith)
    loop-serves (suc rest) attempt started w calm faults transient serves total le lt =
        let w' = (turn_of name policy env attempt started w).1 in
        elim (dec_lt attempt k) [
          | yes before ↦
              let (t, same, broke, made) =
                turn_transient (fault attempt) attempt started w calm (omega arith)
                  (faults attempt before) (transient attempt) in
              let calm' : IsCalm policy env w' = record {
                quiet = calm.quiet;
                awake = calm.awake;
                no_deadline = calm.no_deadline;
                no_budget = broke;
                in_service = ap (λ (b : CircuitBreaker). b.state) same ∙ calm.in_service;
                slot_free = ap (λ (b : CircuitBreaker). b.trial) same ∙ calm.slot_free;
              } in
              let (r, b, n) =
                loop-serves rest (attempt + 1) started w' calm' faults transient serves
                  (omega arith) (omega arith) lt in
              rw (t, loop) (r, b ∙ ap record_success same, omega arith)
          | no reached ↦
              let e : k ≡ attempt = omega arith in
              let (t, b, n) =
                turn_served a attempt started w calm
                  (subst (λ m. (env.attempt m).0 ≡ returned a) e serves) in
              rw (t, loop) (refl, b, omega arith)
        ]

    -- On a closed breaker, with no deadline, no budget, no cancellation and no other task in
    -- between: if the first `k` attempts fail with failures that may be retried and the next one
    -- succeeds, and `k` is below `max_attempts`, then the call returns that success after exactly
    -- `k + 1` attempts, and the breaker has recorded one success and no failure.
    pub call-serves :
        (w : World)
        → IsCalm policy env w
        → ((n : ℕ) → n < k → (env.attempt n).0 ≡ raised (provider_error (fault n)))
        → ((n : ℕ) → retryable (fault n) ≡ true)
        → (env.attempt k).0 ≡ returned a
        → k < policy.max_attempts
        → let (r, w') = call name policy env w in
          (r ≡ returned a)
          × (w'.breaker ≡ record_success w.breaker)
          × (length w'.attempts ≡ length w.attempts + k + 1)
    unfolding call
    call-serves w calm faults transient serves lt =
        let (r, b, n) =
          loop-serves policy.max_attempts 0 w.clock w calm faults transient serves (omega arith)
            (omega arith) lt in
        (r, b, omega arith)
