-- ===== src/Providers/Resilient/Slot.antt =====
-- The trial slot: `_call` hands back what it takes, on every way out (ADR-030).
use vortex_ai_gateway.Base.{
  ℕ, zero, suc, ◌+◌, ◌≡◌, ◌∙◌, sym, subst, ◌<◌, ◌-◌, Option-cases, Bool-cases, inl, inr, Text,
  false, Option, none, some, [], arith,
}
use vortex_ai_gateway.Resilience.Breaker.Invariant.{IsValid}
use vortex_ai_gateway.Resilience.Policy.{RetryPolicy}
use vortex_ai_gateway.Resilience.Breaker.{
  Permit, CircuitBreaker, run, allow, holds_slot, release_trial, record_success, record_failure,
}
use vortex_ai_gateway.Providers.Resilient.Valid.{
  after_backoff-breaker, backoff-breaker, turn_of-IsValid, Turn-cases,
}
use vortex_ai_gateway.Providers.Errors.{
  ProviderError, retryable, provider_error, cancelled, other_exception, Result, returned, raised,
}
use vortex_ai_gateway.Providers.Resilient.{
  World, Environment, attempt_with, turn_of, loop, call, give_up_with, pass, backoff_or_give_up,
  on_retryable, on_result, on_permit, set_breaker, count_attempt, outcome_error,
}

release_trial-frees :
    (p : Permit) (b : CircuitBreaker) → holds_slot (release_trial p b).trial p ≡ false
unfolding release_trial
release_trial-frees p b = ground arith

record_failure-none :
    (now : ℕ) (b : CircuitBreaker) → b.trial ≡ none → (record_failure now b).trial ≡ none
unfolding record_failure
record_failure-none now b h = ground arith

-- The trial slot is free, or it is this permit's.
abbrev pub FreeOrMine : Option Permit → Permit → Type 0
FreeOrMine none p = Unit
FreeOrMine (some q) p = q ≡ p

record_failure-FreeOrMine :
    (now : ℕ) (p : Permit) (b : CircuitBreaker)
    → FreeOrMine b.trial p
    → FreeOrMine (record_failure now b).trial p
unfolding record_failure
record_failure-FreeOrMine now p b h = ground arith

release_trial-none :
    (p : Permit) (b : CircuitBreaker) → FreeOrMine b.trial p → (release_trial p b).trial ≡ none
unfolding release_trial
release_trial-none p b h = ground arith

-- What `allow` answers, and the slot that it leaves.
abbrev Handed : Option Permit → CircuitBreaker → CircuitBreaker → Type 0
Handed none b b' = b'.trial ≡ b.trial
Handed (some p) b b' = FreeOrMine b'.trial p × (b.trial ≡ none)

allow-Handed : (now : ℕ) (b : CircuitBreaker) → IsValid b → Handed (allow now b).0 b (allow now b).1
unfolding allow
allow-Handed now b v = ground arith

-- No other task touches the breaker while this one waits.
pub record IsQuiet {ℓ} {A : Type ℓ} (env : Environment A) : Type ℓ where
  pub attempt_quiet : (n : ℕ) → (env.attempt n).1.calls ≡ []
  pub sleep_quiet : (n d : ℕ) → (env.sleep n d).0.calls ≡ []

module _ {ℓ} {A : Type ℓ} (name : Text) (policy : RetryPolicy) (env : Environment A) where
  -- However an attempt ends, by a result, any failure, a cancellation or a give-up, and whatever
  -- other tasks did to the breaker while it ran or slept, it no longer holds the trial slot.
  pub attempt_with-frees :
      (permit : Permit) (attempt started : ℕ) (w : World)
      → holds_slot (attempt_with name policy env permit attempt started w).1.breaker.trial permit
        ≡ false
  unfolding attempt_with
  attempt_with-frees permit attempt started w = release_trial-frees permit _

  backoff-FreeOrMine :
      (exc : ProviderError) (p : Permit) (attempt started : ℕ) (w : World)
      → IsQuiet env
      → FreeOrMine w.breaker.trial p
      → FreeOrMine (backoff_or_give_up name policy env exc attempt started w).1.breaker.trial p
  unfolding run
  backoff-FreeOrMine exc p attempt started w quiet h =
      elim (backoff-breaker name policy env exc attempt started w) [
        | inl same ↦ rw same h
        | inr slept ↦ rw (slept, quiet.sleep_quiet) h
      ]

  on_retryable-FreeOrMine :
      (exc : ProviderError) (p : Permit) (attempt started : ℕ) (w : World)
      → IsQuiet env
      → FreeOrMine w.breaker.trial p
      → FreeOrMine (on_retryable name policy env exc p attempt started w).1.breaker.trial p
  unfolding on_retryable run
  on_retryable-FreeOrMine exc p attempt started w quiet h = elim (Bool-cases p.trial) [
    | inl trial ↦ simp (trial, on_retryable) (record_failure-FreeOrMine w.clock p w.breaker h)
    | inr ordinary ↦
        simp (ordinary, on_retryable, after_backoff-breaker)
          (backoff-FreeOrMine exc p attempt started w quiet h)
  ]

  on_result-FreeOrMine :
      (r : Result A) (p : Permit) (attempt started : ℕ) (w : World)
      → IsQuiet env
      → FreeOrMine w.breaker.trial p
      → FreeOrMine (on_result name policy env r p attempt started w).1.breaker.trial p
  unfolding on_result record_success
  on_result-FreeOrMine (returned a) p attempt started w quiet h = tt
  on_result-FreeOrMine (raised cancelled) p attempt started w quiet h = h
  on_result-FreeOrMine (raised (other_exception e)) p attempt started w quiet h = h
  on_result-FreeOrMine (raised (provider_error exc)) p attempt started w quiet h =
      elim (Bool-cases (retryable exc)) [
        | inl transient ↦
            rw (transient, on_result)
              (on_retryable-FreeOrMine exc p attempt started (count_attempt outcome_error w) quiet
                h)
        | inr final ↦ rw (final, on_result) h
      ]

  attempt_with-none :
      (p : Permit) (attempt started : ℕ) (w : World)
      → IsQuiet env
      → FreeOrMine w.breaker.trial p
      → (attempt_with name policy env p attempt started w).1.breaker.trial ≡ none
  unfolding attempt_with pass run
  attempt_with-none p attempt started w quiet h = release_trial-none p _ (
      on_result-FreeOrMine (env.attempt attempt).0 p attempt started
        (pass (env.attempt attempt).1 w) quiet (rw (quiet.attempt_quiet attempt, run) h))

  attempt_trial :
      (permit : Option Permit) (attempt started : ℕ) (w : World) (before : CircuitBreaker)
      → IsQuiet env
      → Handed permit before w.breaker
      → (on_permit name policy env permit attempt started w).1.breaker.trial ≡ before.trial
  unfolding on_permit
  attempt_trial none attempt started w before quiet h = h
  attempt_trial (some p) attempt started w before quiet (h, free) =
      attempt_with-none p attempt started w quiet h ∙ sym free

  turn_of-trial :
      (attempt started : ℕ) (w : World)
      → IsQuiet env
      → IsValid w.breaker
      → (turn_of name policy env attempt started w).1.breaker.trial ≡ w.breaker.trial
  unfolding turn_of
  turn_of-trial attempt started w quiet v =
      let (permit, b) = allow w.clock w.breaker in
      attempt_trial permit attempt started (set_breaker b w) w.breaker quiet
        (allow-Handed w.clock w.breaker v)

  loop-none :
      (rest attempt started : ℕ) (w : World)
      → IsQuiet env
      → IsValid w.breaker
      → w.breaker.trial ≡ none
      → (loop name policy env rest attempt started w).1.breaker.trial ≡ none
  unfolding loop give_up_with
  loop-none zero attempt started w quiet v free = record_failure-none w.clock w.breaker free
  loop-none (suc rest) attempt started w quiet v free =
      let w' = (turn_of name policy env attempt started w).1 in
      let v' : IsValid w'.breaker = turn_of-IsValid name policy env attempt started w v in
      let e : w'.breaker.trial ≡ none = turn_of-trial attempt started w quiet v ∙ free in
      elim (Turn-cases (turn_of name policy env attempt started w).0) [
        | inl (r, d) ↦ rw (d, loop) e
        | inr (inl (exc, reason, d)) ↦ rw (d, loop) (record_failure-none w'.clock w'.breaker e)
        | inr (inr (exc, d)) ↦ rw (d, loop) (loop-none rest (attempt + 1) started w' quiet v' e)
      ]

  loop-held :
      (rest attempt started : ℕ) (q : Permit) (w : World)
      → IsValid w.breaker
      → w.breaker.trial ≡ some q
      → (loop name policy env (suc rest) attempt started w).1.breaker.trial ≡ some q
  unfolding loop turn_of allow
  loop-held rest attempt started q w v held = ground arith

  -- A call hands back the trial slot if it takes it, and takes it from nobody: from a valid breaker,
  -- with `max_attempts` positive, and when no other task touches the breaker meanwhile, the slot is
  -- held after the call exactly as it was before, whatever the attempts' outcomes and however the
  -- call ends.
  pub call-trial :
      (w : World)
      → IsQuiet env
      → IsValid w.breaker
      → 0 < policy.max_attempts
      → (call name policy env w).1.breaker.trial ≡ w.breaker.trial
  unfolding call
  call-trial w quiet v h = elim (Option-cases w.breaker.trial) [
    | inl free ↦ loop-none policy.max_attempts 0 w.clock w quiet v free ∙ sym free
    | inr (q, held) ↦
        let e : suc (policy.max_attempts - 1) ≡ policy.max_attempts = omega arith in
        subst (λ n. (loop name policy env n 0 w.clock w).1.breaker.trial ≡ some q) e
          (loop-held (policy.max_attempts - 1) 0 w.clock q w v held)
        ∙ sym held
  ]
