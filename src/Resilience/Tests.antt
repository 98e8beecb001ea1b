-- ===== src/Resilience/Tests.antt =====
-- The theorems on the budget and the breaker at concrete states, and test runs.
use vortex_ai_gateway.Base.{
  ◌+◌, ◌*◌, ◌/◌, ◌≤◌, min, ◌≡◌, refl, true, false, none, some, [], ◌∷◌, arith, ltb, if◌then◌else◌,
}
use vortex_ai_gateway.Resilience.Budget.{RetryBudget, token, consume}
use vortex_ai_gateway.Resilience.Budget.Bounds
use vortex_ai_gateway.Resilience.Breaker.{
  closed, open_state, half_open, CircuitBreaker, init, allow, record_failure, allow_call,
  failure_call, release_call, step, run,
}
use vortex_ai_gateway.Resilience.Breaker.Invariant.{IsValid, run-IsValid}
use vortex_ai_gateway.Resilience.Breaker.Trial.{granted, single_trial}
use vortex_ai_gateway.Resilience.Breaker.Recovery.{failed_trial_reopens}

abbrev two_tokens : RetryBudget
two_tokens = record { capacity = 2; refill_per_second = 1000; tokens = 2_000_000; last = 0 }

-- Two at once, none for the third, and one more after a second and a half.
bucket_run :
    Bounds.run (10 ∷ 10 ∷ 20 ∷ 1510 ∷ []) two_tokens
    ≡ (3, record two_tokens { tokens = 500_000; last = 1510 })
unfolding Bounds.run consume
bucket_run = refl

retries_bounded_example :
    let (granted', b') = Bounds.run (10 ∷ 10 ∷ 20 ∷ []) two_tokens in
    (b'.tokens ≤ b'.capacity * token)
    × (granted' * token + 0 * 1000 ≤ 2_000_000 + b'.last * b'.refill_per_second)
unfolding Bounds.run consume
retries_bounded_example = Bounds.retries_bounded (10 ∷ 10 ∷ 20 ∷ []) two_tokens (omega arith)

abbrev fresh : CircuitBreaker
fresh = record {
  failure_threshold = 2;
  backoff_multiplier = 2000;
  max_open = 600_000;
  base_open = 60_000;
  open_window = 60_000;
  state = closed;
  consecutive_failures = 0;
  opened_until = none;
  trial = none;
  next_identity = 1;
  transitions = [];
  gauge = 0;
}

abbrev probing : CircuitBreaker
probing = record fresh {
  open_window = 120_000;
  state = half_open;
  opened_until = some 60_100;
  trial = some (record { identity = 1; trial = true });
  next_identity = 2;
  transitions = half_open ∷ open_state ∷ [];
  gauge = 1;
}

abbrev opened : CircuitBreaker
opened = record fresh {
  open_window = 120_000;
  state = open_state;
  opened_until = some 60_100;
  transitions = open_state ∷ [];
  gauge = 2;
}

fresh_init : init 2 60_000 2000 600_000 ≡ fresh
unfolding init
fresh_init = refl

-- Two failures open it, and after the window the next caller is the trial.
breaker_run :
    run (failure_call 50 ∷ failure_call 100 ∷ allow_call 60_099 ∷ allow_call 60_100 ∷ []) fresh
    ≡ probing
unfolding run step
breaker_run = refl

run-IsValid_example :
    IsValid (run (failure_call 50 ∷ failure_call 100 ∷ allow_call 70_000 ∷ []) fresh)
run-IsValid_example =
    run-IsValid (failure_call 50 ∷ failure_call 100 ∷ allow_call 70_000 ∷ []) fresh (omega arith)

single_trial_example :
    granted
      (allow_call 70_000
        ∷ release_call (record { identity = 0; trial = false })
        ∷ allow_call 80_000
        ∷ [])
      probing
    ≡ []
unfolding allow
single_trial_example =
    single_trial 60_100 opened
      (allow_call 70_000
        ∷ release_call (record { identity = 0; trial = false })
        ∷ allow_call 80_000
        ∷ [])
      refl refl (tt, (omega arith, (tt, tt)))

failed_trial_reopens_example :
    let b = record_failure 61_000 probing in
    (b.state ≡ open_state)
    × (b.opened_until ≡ some (61_000 + 120_000))
    × (b.open_window ≡ min (120_000 * 2000 / 1000) 600_000)
    × (120_000 ≤ b.open_window)
    × ((allow 100_000 b).0 ≡ (
        if ltb 100_000 (61_000 + 120_000)
        then none
        else some (record { identity = 2; trial = true })))
unfolding allow
failed_trial_reopens_example =
    failed_trial_reopens 60_100 61_000 100_000 opened {b' = probing} (ground arith) refl refl
