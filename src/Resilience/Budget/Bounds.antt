-- ===== src/Resilience/Budget/Bounds.antt =====
-- The aggregate protection of `RetryBudget.consume`: how many retries a bucket can pay for.
use vortex_ai_gateway.Base.{ℕ, ◌+◌, ◌*◌, ◌≤◌, ◌≡◌, List, [], ◌∷◌, arith, if◌then◌else◌, mul-sub-add}
use vortex_ai_gateway.Resilience.Budget.{RetryBudget, token, refill, take_tokens, consume}

-- A run of `consume()` calls at the given clock readings: how many were granted, and the bucket.
unfoldable pub run : List ℕ → RetryBudget → ℕ × RetryBudget
run [] b = (0, b)
run (now ∷ later) b =
    let (granted, b') = consume now token b in
    let (n, b'') = run later b' in ((if granted then 1 else 0) + n, b'')

-- What one refill can add, and that it never fills beyond the capacity.
refill_bounds :
    (now : ℕ) (b : RetryBudget)
    → b.tokens ≤ b.capacity * token
    → ((refill now b).tokens + b.last * b.refill_per_second
        ≤ b.tokens + (refill now b).last * b.refill_per_second)
      × ((refill now b).tokens ≤ b.capacity * token)
unfolding refill
refill_bounds now b h = ground (arith, mul-sub-add b.last now b.refill_per_second)

-- One call conserves: the price paid and the tokens left come from the bucket and its refill.
record Conserves (b : RetryBudget) (paid : ℕ) (b' : RetryBudget) : Type 0 where
  bounded : b'.tokens ≤ b'.capacity * token
  capacity : b'.capacity ≡ b.capacity
  rate : b'.refill_per_second ≡ b.refill_per_second
  balance :
      paid + b'.tokens + b.last * b.refill_per_second ≤ b.tokens + b'.last * b.refill_per_second

consume-Conserves :
    (now : ℕ) (b : RetryBudget)
    → b.tokens ≤ b.capacity * token
    → Conserves b (if (consume now token b).0 then token else 0) (consume now token b).1
unfolding consume take_tokens refill
consume-Conserves now b h = ground (arith, refill_bounds now b)

run-Conserves :
    (times : List ℕ) (b : RetryBudget)
    → b.tokens ≤ b.capacity * token
    → Conserves b ((run times b).0 * token) (run times b).1
unfolding run
run-Conserves [] b h = ground arith
run-Conserves (now ∷ later) b h =
    let c = consume-Conserves now b h in
    ground (arith, c, run-Conserves later (consume now token b).1)

-- However many retries ask, and whenever they ask, a full bucket pays for at most its capacity and
-- what was refilled since: the retries granted, in millionths of a token, stay below that sum.
-- The bucket never holds more than its capacity.
pub retries_bounded :
    (times : List ℕ) (b : RetryBudget)
    → b.tokens ≤ b.capacity * token
    → let (granted, b') = run times b in
      (b'.tokens ≤ b.capacity * token)
      × (granted * token + b.last * b.refill_per_second ≤ b.tokens + b'.last * b.refill_per_second)
retries_bounded times b h = ground (arith, run-Conserves times b h)
