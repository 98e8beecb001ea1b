-- ===== src/RateLimit/Script/Bound.antt =====
-- How much a run of admissions can let through: the allowance is a rate, not a counter.
use vortex_ai_gateway.Base.{
  ℕ, ◌+◌, ◌*◌, ◌≤◌, ◌<◌, ◌≡◌, Text, some, if◌then◌else◌, arith, text_eq_refl, List, [], ◌∷◌,
}
use vortex_ai_gateway.RateLimit.Redis.{Bucket, Server}
use vortex_ai_gateway.RateLimit.Bucket.{window, measure_bounded, measure_refill}
use vortex_ai_gateway.RateLimit.Script.{Demand, Reply, debit, level_of, admit}
use vortex_ai_gateway.RateLimit.Script.Atomic.{read-admit}

-- One admission attempt of a caller: the clock, and the tokens asked for.
pub record Attempt : Type 0 where
  pub now : ℕ
  pub cost : ℕ

-- The clock never steps back.
abbrev pub Ordered : ℕ → List Attempt → Type 0
Ordered since [] = Unit
Ordered since (a ∷ later) = (since ≤ a.now) × Ordered a.now later

abbrev pub last_time : ℕ → List Attempt → ℕ
last_time since [] = since
last_time since (a ∷ later) = last_time a.now later

-- One visit conserves: what is paid and what is left come from the bucket and its refill.
record Conserves (capacity paid now : ℕ) (b b' : Bucket) : Type 0 where
  stamped : b'.ts ≡ now
  bounded : b'.tokens ≤ capacity * window
  balance : paid * window + b'.tokens + b.ts * capacity ≤ b.tokens + now * capacity

module _ (server : Server) (requests : Text) (tokens : Text) (rpm tpm : ℕ) where
  open server use {State, read}

  unfoldable pub attempt : Attempt → State → Reply × State
  attempt a s =
      admit server a.now (record { key = requests; capacity = rpm; cost = 1 })
        (record { key = tokens; capacity = tpm; cost = a.cost }) s

  -- Every attempt of a run, and the tokens that were granted.
  unfoldable pub run : List Attempt → State → ℕ × State
  run [] s = (0, s)
  run (a ∷ later) s =
      let (reply, s') = attempt a s in
      let (granted, s'') = run later s' in ((if reply.allowed then a.cost else 0) + granted, s'')

  attempt-Conserves :
      (a : Attempt) (b : Bucket) (s : State)
      → 0 < tpm
      → read tokens s ≡ some b
      → b.ts ≤ a.now
      → (b' : Bucket) × (read tokens (attempt a s).1 ≡ some b')
        × Conserves tpm (if (attempt a s).0.allowed then a.cost else 0) a.now b b'
  unfolding attempt admit debit level_of
  attempt-Conserves a b s h held ordered =
      let r : Demand = record { key = requests; capacity = rpm; cost = 1 } in
      let t : Demand = record { key = tokens; capacity = tpm; cost = a.cost } in
      let level = level_of server a.now t s in
      let allowed = (admit server a.now r t s).0.allowed in
      (
        record { tokens = debit allowed t level; ts = a.now },
        ground (arith, read-admit server a.now r t tokens s, text_eq_refl tokens),
        ground
            (arith, measure_bounded a.now tpm (some b), measure_refill a.now tpm b ordered, held),
      )

  -- Over any run of attempts on a stored bucket, by a clock that does not step back, the tokens
  -- granted never exceed what the bucket held at the start and what the elapsed time refilled.
  pub admissions_bounded :
      (attempts : List Attempt) (b : Bucket) (s : State)
      → 0 < tpm
      → read tokens s ≡ some b
      → Ordered b.ts attempts
      → (run attempts s).0 * window + b.ts * tpm ≤ b.tokens + last_time b.ts attempts * tpm
  unfolding run
  admissions_bounded [] b s h held ordered = omega arith
  admissions_bounded (a ∷ later) b s h held (first, rest) =
      let (b', held', c) = attempt-Conserves a b s h held first in
      ground (arith, c, admissions_bounded later b' (attempt a s).1 h held' (rw c.stamped rest))
