-- ===== src/Routes/Refused.antt =====
-- What a caller sees of an open breaker: src/vortex_ai_gateway/resilience.py, by way of `_call` of
-- src/vortex_ai_gateway/providers/resilience_wrapper.py and `_failed` of src/vortex_ai_gateway/routes.py.
use vortex_ai_gateway.Base.{
  ℕ, zero, suc, ◌<◌, ◌≤◌, ◌+◌, ◌*◌, ◌/◌, max, ◌≡◌, refl, ap, ◌∙◌, Text, codes, none, some, arith,
  ◌-◌,
}
use vortex_ai_gateway.Resilience.Policy.{RetryPolicy}
use vortex_ai_gateway.Resilience.Breaker.{CircuitBreaker, open_state, allow, retry_after}
use vortex_ai_gateway.Providers.Resilient.{World, Environment, leave, call, loop, turn_of}
use vortex_ai_gateway.Providers.Errors.{provider_error, raised, circuit_open_error}
use Prim.{absurd}
use vortex_ai_gateway.Routes.{api_error, failed, answer_to}

allow-open :
    (now until : ℕ) (b : CircuitBreaker)
    → b.state ≡ open_state
    → b.opened_until ≡ some until
    → now < until
    → (allow now b ≡ (none, b)) × (retry_after now b ≡ some (until - now))
unfolding allow retry_after
allow-open now until b opened window early = (ground arith, ground arith)

turn_of-refused {ℓ} :
    {A : Type ℓ} (name : Text) (policy : RetryPolicy) (env : Environment A) (w : World)
    (attempt started : ℕ)
    → allow w.clock w.breaker ≡ (none, w.breaker)
    → turn_of name policy env attempt started w ≡ (
      leave (raised (provider_error (circuit_open_error name (retry_after w.clock w.breaker)))),
      w,
    )
unfolding turn_of
turn_of-refused name policy env w attempt started e = rw e refl

loop-refused {ℓ} :
    {A : Type ℓ} (name : Text) (policy : RetryPolicy) (env : Environment A) (w : World)
    (rounds attempt started : ℕ)
    → 0 < rounds
    → allow w.clock w.breaker ≡ (none, w.breaker)
    → loop name policy env rounds attempt started w
      ≡ (raised (provider_error (circuit_open_error name (retry_after w.clock w.breaker))), w)
unfolding loop
loop-refused name policy env w zero attempt started h e = absurd (omega arith)
loop-refused name policy env w (suc rounds) attempt started h e =
    let turn = turn_of-refused name policy env w attempt started e in
    let failure = circuit_open_error name (retry_after w.clock w.breaker) in
    rw (loop, turn) (ap (λ t. (raised (provider_error failure), t.1)) turn)

-- While the breaker is open and its window has not passed, a call with `max_attempts` positive makes
-- no attempt and changes nothing, and the request is answered by a 503 with a `Retry-After` that
-- reaches the end of the window.
pub call-open {ℓ} :
    {A : Type ℓ} (name : Text) (policy : RetryPolicy) (env : Environment A) (w : World) (until : ℕ)
    → 0 < policy.max_attempts
    → w.breaker.state ≡ open_state
    → w.breaker.opened_until ≡ some until
    → w.clock < until
    → (answer_to (call name policy env w).0
        ≡ some (record {
          status = 503;
          error_type = api_error;
          param = none;
          code = codes "circuit_open";
          retry_after = some (max 1 ((until - w.clock + 999) / 1000));
        }))
      × (until ≤ w.clock + max 1 ((until - w.clock + 999) / 1000) * 1000)
      × ((call name policy env w).1 ≡ w)
unfolding call failed circuit_open_error
call-open name policy env w until tries opened window early =
    let (refusing, wait) = allow-open w.clock until w.breaker opened window early in
    let out = loop-refused name policy env w policy.max_attempts 0 w.clock tries refusing in
    (ap (λ r. answer_to r.0) out ∙ rw wait refl, ground arith, ap (λ r. r.1) out)
