-- ===== src/Providers/Tests.antt =====
-- The theorems on the wrappers at concrete environments.
use vortex_ai_gateway.Base.{
  ℕ, ◌+◌, ◌≤◌, ◌<◌, ◌≡◌, refl, codes, false, none, some, List, [], ◌∷◌, ◌++◌, length, arith, leb,
  if◌then◌else◌,
}
use vortex_ai_gateway.Resilience.Policy.{RetryPolicy}
use vortex_ai_gateway.Resilience.Breaker.{
  CircuitBreaker, allow, release_trial, run, closed, record_success,
}
use vortex_ai_gateway.Providers.Errors.{timeout, ProviderError, provider_error, returned, raised}
use vortex_ai_gateway.Providers.Resilient.{World, Environment, backoff_or_give_up, call, turn_of}
use vortex_ai_gateway.Providers.Resilient.Slot.{IsQuiet, call-trial}
use vortex_ai_gateway.Providers.Resilient.{loop}
use vortex_ai_gateway.Providers.Resilient.Ends.{call-ends}
use vortex_ai_gateway.Providers.Resilient.Count.{call-counts, backoff_in_time}
use vortex_ai_gateway.Providers.Resilient.Serve.{IsCalm, call-serves}
use vortex_ai_gateway.Providers.Fallback.{Member, first_to_serve}
use vortex_ai_gateway.Providers.Fallback.Chain.{
  Skips, none_left, skip, first_to_serve-decisive, first_to_serve_exhausted,
}

abbrev too_late : ProviderError
too_late = record {
  kind = timeout;
  provider = codes "openai";
  status_code = none;
  code = none;
  parameter = none;
  retry_after = none;
}

abbrev fresh : CircuitBreaker
fresh = record {
  failure_threshold = 2;
  backoff_multiplier = 2000;
  max_open = 600_000;
  base_open = 60_000;
  open_window = 60_000;
  state = closed;
  consecutive_failures = 1;
  opened_until = none;
  trial = none;
  next_identity = 1;
  transitions = [];
  gauge = 0;
}

abbrev start : World
start = record {
  clock = 1000;
  breaker = fresh;
  budget = none;
  attempts = [];
  retries = 0;
  give_ups = [];
}

abbrev policy : RetryPolicy
policy = record { max_attempts = 3; backoff_base = 500; max_backoff = 10_000; deadline = none }

abbrev in_time : RetryPolicy
in_time = record policy { deadline = some 90_000 }

-- The first two attempts time out after a second, and the third serves the number 7.
abbrev flaky : Environment ℕ
flaky = record {
  attempt = λ n. (
    if leb n 1 then raised (provider_error too_late) else returned 7,
    record { elapsed = 1000; calls = []; takes = [] },
  );
  sleep = λ n d. (record { elapsed = d; calls = []; takes = [] }, false);
  uniform = λ n b. b;
}

flaky_run : (call (codes "openai") policy flaky start).0 ≡ returned 7
unfolding call turn_of allow release_trial run
flaky_run = refl

flaky-IsQuiet : IsQuiet flaky
flaky-IsQuiet = record { attempt_quiet = λ n. refl; sleep_quiet = λ n d. refl }

call-trial_example : (call (codes "openai") policy flaky start).1.breaker.trial ≡ none
call-trial_example =
    call-trial (codes "openai") policy flaky start flaky-IsQuiet (ground arith) (omega arith)

call-counts_example :
    let w = (call (codes "openai") policy flaky start).1 in
    (length w.attempts ≤ 0 + 3)
    × (w.retries + 0 ≤ 0 + length w.attempts)
    × (length w.give_ups ≤ 0 + 1)
call-counts_example = call-counts (codes "openai") policy flaky start

call-ends_example :
    loop (codes "openai") policy flaky (3 + 100) 0 start.clock start
    ≡ call (codes "openai") policy flaky start
call-ends_example = call-ends (codes "openai") policy flaky 100 start (omega arith)

backoff_in_time_example :
    (backoff_or_give_up (codes "openai") in_time flaky too_late 0 500 start).1.clock ≤ 500 + 90_000
unfolding backoff_or_give_up
backoff_in_time_example =
    backoff_in_time (codes "openai") in_time flaky too_late 0 500 90_000 start refl (omega arith)
      refl refl

flaky-IsCalm : IsCalm policy flaky start
flaky-IsCalm = record {
  quiet = flaky-IsQuiet;
  awake = λ n d. refl;
  no_deadline = refl;
  no_budget = refl;
  in_service = refl;
  slot_free = refl;
}

flaky_faults : (n : ℕ) → n < 2 → (flaky.attempt n).0 ≡ raised (provider_error too_late)
flaky_faults n h = ground arith

call-serves_example :
    let (r, w) = call (codes "openai") policy flaky start in
    (r ≡ returned 7) × (w.breaker ≡ record_success fresh) × (length w.attempts ≡ 0 + 2 + 1)
call-serves_example =
    call-serves (codes "openai") policy flaky 7 (λ n. too_late) 2 start flaky-IsCalm flaky_faults
      (λ n. refl) refl (omega arith)

-- Members that log their calls: the first times out, the second serves, the third is never asked.
abbrev late : Member (List ℕ) ℕ
late = record { name = codes "a"; serve = λ w. (raised (provider_error too_late), 1 ∷ w) }

abbrev good : Member (List ℕ) ℕ
good = record { name = codes "b"; serve = λ w. (returned 7, 2 ∷ w) }

late-Skips : Skips (List ℕ) ℕ (late ∷ []) [] (1 ∷ [])
late-Skips = skip too_late refl refl none_left

first_to_serve-decisive_example :
    let (r, v, hops) = first_to_serve ((late ∷ []) ++ good ∷ (late ∷ [])) [] in
    (r ≡ returned 7) × (v ≡ 2 ∷ 1 ∷ []) × (length hops ≡ length (late ∷ []))
first_to_serve-decisive_example =
    first_to_serve-decisive (late ∷ []) (late ∷ []) good [] (1 ∷ []) (2 ∷ 1 ∷ []) (returned 7)
      late-Skips refl refl

first_to_serve_exhausted_example :
    let (r, v, hops) = first_to_serve ((late ∷ []) ++ late ∷ []) [] in
    (r ≡ raised (provider_error too_late)) × (v ≡ 1 ∷ 1 ∷ []) × (length hops ≡ length (late ∷ []))
first_to_serve_exhausted_example =
    first_to_serve_exhausted (late ∷ []) late [] (1 ∷ []) (1 ∷ 1 ∷ []) too_late late-Skips refl
