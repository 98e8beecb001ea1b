-- ===== src/Resilience/Budget.antt =====
-- `RetryBudget` of src/vortex_ai_gateway/resilience.py. Tokens are counted in millionths and the
-- refill rate in thousandths of a token per second, so that a refill over whole milliseconds is
-- exact.
pub mod Bounds
use vortex_ai_gateway.Base.{ℕ, ◌+◌, ◌-◌, ◌*◌, min, Bool, true, false, ltb, leb, if◌then◌else◌}

abbrev pub token : ℕ
token = 1_000_000

pub record RetryBudget : Type 0 where
  pub capacity : ℕ
  pub refill_per_second : ℕ
  pub tokens : ℕ
  pub last : ℕ

-- `__init__` and `__post_init__`: full, at the time of construction.
unfoldable pub init : ℕ → ℕ → ℕ → RetryBudget
init capacity refill_per_second now = record {
  capacity = capacity;
  refill_per_second = refill_per_second;
  tokens = capacity * token;
  last = now;
}

-- The refill at the head of `consume`: a clock that did not advance changes nothing.
unfoldable pub refill : ℕ → RetryBudget → RetryBudget
refill now b =
    if ltb b.last now
    then (record b {
      tokens = min (b.capacity * token) (b.tokens + (now - b.last) * b.refill_per_second);
      last = now;
    })
    else b

unfoldable pub take_tokens : ℕ → RetryBudget → Bool × RetryBudget
take_tokens cost b =
    if leb cost b.tokens then (true, record b { tokens = b.tokens - cost }) else (false, b)

-- `consume(tokens)` at the clock reading `now`.
unfoldable pub consume : ℕ → ℕ → RetryBudget → Bool × RetryBudget
unfolding refill take_tokens
consume now cost b = take_tokens cost (refill now b)
