-- ===== src/Routes/Tests.antt =====
-- The theorem on refused requests at an open breaker.
use vortex_ai_gateway.Base.{
  ℕ, ◌≡◌, ◌+◌, ◌-◌, ◌*◌, ◌/◌, ◌≤◌, max, refl, codes, none, some, false, [], arith,
}
use vortex_ai_gateway.Resilience.Policy.{RetryPolicy}
use vortex_ai_gateway.Resilience.Breaker.{open_state, CircuitBreaker}
use vortex_ai_gateway.Providers.Errors.{returned}
use vortex_ai_gateway.Providers.Resilient.{World, Environment, call}
use vortex_ai_gateway.Routes.{api_error, answer_to}
use vortex_ai_gateway.Routes.Refused.{call-open}

abbrev opened : CircuitBreaker
opened = record {
  failure_threshold = 2;
  backoff_multiplier = 2000;
  max_open = 600_000;
  base_open = 60_000;
  open_window = 120_000;
  state = open_state;
  consecutive_failures = 2;
  opened_until = some 61_500;
  trial = none;
  next_identity = 1;
  transitions = [];
  gauge = 2;
}

abbrev outage : World
outage = record {
  clock = 60_000;
  breaker = opened;
  budget = none;
  attempts = [];
  retries = 0;
  give_ups = [];
}

abbrev policy : RetryPolicy
policy = record { max_attempts = 3; backoff_base = 500; max_backoff = 10_000; deadline = none }

abbrev steady : Environment ℕ
steady = record {
  attempt = λ n. (returned 7, record { elapsed = 1000; calls = []; takes = [] });
  sleep = λ n d. (record { elapsed = d; calls = []; takes = [] }, false);
  uniform = λ n b. b;
}

-- A second and a half is left of the window, so the header says two seconds.
call-open_example :
    (answer_to (call (codes "openai") policy steady outage).0
      ≡ some (record {
        status = 503;
        error_type = api_error;
        param = none;
        code = codes "circuit_open";
        retry_after = some (max 1 ((61_500 - 60_000 + 999) / 1000));
      }))
    × (61_500 ≤ 60_000 + max 1 ((61_500 - 60_000 + 999) / 1000) * 1000)
    × ((call (codes "openai") policy steady outage).1 ≡ outage)
call-open_example =
    call-open (codes "openai") policy steady outage 61_500 (omega arith) refl refl (omega arith)
