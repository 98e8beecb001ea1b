-- ===== src/RateLimit/Bucket.antt =====
-- One bucket of the scripts of src/vortex_ai_gateway/ratelimit.py: what is measured and what is kept.
use vortex_ai_gateway.Base.{
  ℕ, suc, ◌+◌, ◌-◌, ◌*◌, ◌/◌, ◌≤◌, ◌<◌, ◌↔◌, min, Option, none, some, arith, mul-le-mul,
  mul-sub-add,
}
use vortex_ai_gateway.RateLimit.Redis.{Bucket}

-- `WINDOW_MS`, which is also how many units a token has.
abbrev pub window : ℕ
window = 60_000

-- What the bucket holds now: a bucket that is not stored is full. Truncated subtraction is the
-- script's `math.max(0, now - seen)`.
unfoldable pub measure : ℕ → ℕ → Option Bucket → ℕ
measure now capacity none = capacity * window
measure now capacity (some b) = min (capacity * window) (b.tokens + (now - b.ts) * capacity)

-- The least whole number that is at least a / b.
unfoldable pub ceil_div : ℕ → ℕ → ℕ
ceil_div a b = (a + b - 1) / b

ceil_div-le : (a b r : ℕ) → 0 < b → ceil_div a b ≤ r → a ≤ r * b
unfolding ceil_div
ceil_div-le a b r h k = omega (arith, mul-le-mul ((a + b - 1) / b) r b k)

le-ceil_div : (a b r : ℕ) → 0 < b → r < ceil_div a b → r * b < a
unfolding ceil_div
le-ceil_div a b r h k = omega (arith, mul-le-mul (suc r) ((a + b - 1) / b) b k)

-- Waiting `r` is enough exactly when it is at least the rounded quotient.
pub ceil_div_iff : (a b r : ℕ) → 0 < b → (ceil_div a b ≤ r) ↔ (a ≤ r * b)
ceil_div_iff a b r h = (ceil_div-le a b r h, λ k. ground (arith, le-ceil_div a b r h))

-- A measurement never exceeds the capacity.
pub measure_bounded :
    (now capacity : ℕ) (o : Option Bucket) → measure now capacity o ≤ capacity * window
unfolding measure
measure_bounded now capacity none = omega arith
measure_bounded now capacity (some b) = omega arith

-- A refill adds what the elapsed time earned, at most.
pub measure_refill :
    (now capacity : ℕ) (b : Bucket)
    → b.ts ≤ now
    → measure now capacity (some b) + b.ts * capacity ≤ b.tokens + now * capacity
unfolding measure
measure_refill now capacity b h = omega (arith, mul-sub-add b.ts now capacity h)
