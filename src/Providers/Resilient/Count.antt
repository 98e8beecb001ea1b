-- ===== src/Providers/Resilient/Count.antt =====
-- How often `_call` calls the provider, retries and reports, and that its sleeps fit the deadline.
use vortex_ai_gateway.Base.{ℕ, zero, suc, ◌+◌, ◌≤◌, ◌≡◌, Text, some, arith, length}
use vortex_ai_gateway.Resilience.Policy.{RetryPolicy}
use vortex_ai_gateway.Providers.Errors.{ProviderError}
use vortex_ai_gateway.Providers.Resilient.{
  World, Environment, Turn, leave, break_with, again, waited, backoff_or_give_up, turn_of, loop,
  give_up_with, call, sleep_for,
}

-- What one turn adds to the counters: at most one attempt; a retry only on the way to another turn
-- (or to a cancellation in its sleep), and then no report; a report at most once.
record TurnCounts {ℓ} {A : Type ℓ} (w : World) (t : Turn A) (w' : World) : Type 0 where
  attempts_ge : length w.attempts ≤ length w'.attempts
  attempts_le : length w'.attempts ≤ length w.attempts + 1
  retries_le : w'.retries + length w.attempts ≤ w.retries + length w'.attempts
  give_ups_le :
      length w'.give_ups
      ≤ length w.give_ups + (elim t [ leave r ↦ 1 | break_with e g ↦ 0 | again e ↦ 0 ])

module _ {ℓ} {A : Type ℓ} (name : Text) (policy : RetryPolicy) (env : Environment A) where
  turn-counts :
      (attempt started : ℕ) (w : World)
      → let (t, w') = turn_of name policy env attempt started w in TurnCounts w t w'
  unfolding turn_of
  turn-counts attempt started w = ground arith

  loop-counts :
      (rest attempt started : ℕ) (w : World)
      → let w' = (loop name policy env rest attempt started w).1 in
        (length w'.attempts ≤ length w.attempts + rest)
        × (w'.retries + length w.attempts ≤ w.retries + length w'.attempts)
        × (length w'.give_ups ≤ length w.give_ups + 1)
  unfolding loop give_up_with
  loop-counts zero attempt started w = omega arith
  loop-counts (suc rest) attempt started w =
      let w' = (turn_of name policy env attempt started w).1 in
      ground (arith, turn-counts attempt started w, loop-counts rest (attempt + 1) started w')

  -- Whatever the environment does, one call makes at most `max_attempts` attempts, never counts more
  -- retries than attempts, and reports at most one give-up.
  pub call-counts :
      (w : World)
      → let w' = (call name policy env w).1 in
        (length w'.attempts ≤ length w.attempts + policy.max_attempts)
        × (w'.retries + length w.attempts ≤ w.retries + length w'.attempts)
        × (length w'.give_ups ≤ length w.give_ups + 1)
  unfolding call
  call-counts w = loop-counts policy.max_attempts 0 w.clock w

  -- A backoff that is slept out, for just as long as it asked, ends within the deadline of the
  -- sequence.
  pub backoff_in_time :
      (exc : ProviderError) (attempt started deadline : ℕ) (w : World)
      → policy.deadline ≡ some deadline
      → started ≤ w.clock
      → (backoff_or_give_up name policy env exc attempt started w).0 ≡ waited
      → (env.sleep attempt (sleep_for name policy env exc attempt)).0.elapsed
        ≡ sleep_for name policy env exc attempt
      → (backoff_or_give_up name policy env exc attempt started w).1.clock ≤ started + deadline
  unfolding backoff_or_give_up
  backoff_in_time exc attempt started deadline w d s e exact = ground arith
