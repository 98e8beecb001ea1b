-- ===== src/Resilience/Policy.antt =====
-- `RetryPolicy` of src/vortex_ai_gateway/resilience.py, but for its budget, which is shared state and
-- stands in the world of Providers.Resilient. `random.uniform` is the argument `uniform`: the draw
-- for each attempt, given the upper end of its window.
use vortex_ai_gateway.Base.{ℕ, ◌*◌, ◌^◌, min, Option}

pub record RetryPolicy : Type 0 where
  pub max_attempts : ℕ
  pub backoff_base : ℕ
  pub max_backoff : ℕ
  pub deadline : Option ℕ

-- `backoff_seconds`
unfoldable pub backoff : RetryPolicy → ℕ → ℕ
backoff p attempt = min p.max_backoff (p.backoff_base * 2 ^ attempt)

unfoldable pub backoff_with_jitter : (ℕ → ℕ → ℕ) → RetryPolicy → ℕ → ℕ
unfolding backoff
backoff_with_jitter uniform p attempt = uniform attempt (backoff p attempt)
