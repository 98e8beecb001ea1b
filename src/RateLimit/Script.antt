-- ===== src/RateLimit/Script.antt =====
-- `ADMIT_SCRIPT` and `SETTLE_SCRIPT` of src/vortex_ai_gateway/ratelimit.py. Redis runs a script as one
-- command, so a script is one step on the server's state.
pub mod Atomic
pub mod Bound
pub mod Retry
use vortex_ai_gateway.Base.{
  ℕ, ◌+◌, ◌-◌, ◌*◌, ◌/◌, min, max, Text, Bool, true, false, not, ◌&&◌, ◌||◌, ltb, leb,
  if◌then◌else◌, ℤ, pos, negsuc, pos_part, neg_part, is_zero,
}
use vortex_ai_gateway.RateLimit.Redis.{Bucket, Server}
use vortex_ai_gateway.RateLimit.Bucket.{window, measure, ceil_div}

-- One pass of the loops: a bucket's key, its capacity (zero: not configured) and the cost.
pub record Demand : Type 0 where
  pub key : Text
  pub capacity : ℕ
  pub cost : ℕ

-- The reply: -1 for the limit and the remainder of a bucket that is not configured.
pub record BucketReply : Type 0 where
  pub limit : ℤ
  pub remaining : ℤ
  pub reset_ms : ℕ

pub record Reply : Type 0 where
  pub allowed : Bool
  pub requests : BucketReply
  pub tokens : BucketReply
  pub retry_ms : ℕ

abbrev pub configured : Demand → Bool
configured d = ltb 0 d.capacity

-- `level[i] < cost[i]`
abbrev pub is_short : Demand → ℕ → Bool
is_short d level = configured d && ltb level (d.cost * window)

-- What one short bucket adds to `retry_ms`, rounded up at once: rounding up commutes with the
-- maximum that the script takes before its `math.ceil`.
unfoldable pub wait_for : Demand → ℕ → ℕ
unfolding ceil_div
wait_for d level = if is_short d level then ceil_div (d.cost * window - level) d.capacity else 0

unfoldable pub debit : Bool → Demand → ℕ → ℕ
debit allowed d level = if allowed then level - d.cost * window else level

unfoldable pub report : Demand → ℕ → BucketReply
unfolding ceil_div
report d level =
    if configured d
    then (record {
      limit = pos d.capacity;
      remaining = pos (level / window);
      reset_ms = ceil_div (d.capacity * window - level) d.capacity;
    })
    else (record { limit = negsuc 0; remaining = negsuc 0; reset_ms = 0 })

-- The level after a refund (positive) or a further charge (negative), within the bucket.
unfoldable pub shift : ℕ → ℤ → ℕ → ℕ
shift capacity delta level =
    min (capacity * window) (level + pos_part delta * window - neg_part delta * window)

module _ (server : Server) where
  open server use {State, read, write}

  -- The first loop: nothing is written, and a bucket that is not configured is not read.
  unfoldable pub level_of : ℕ → Demand → State → ℕ
  level_of now d s = if configured d then measure now d.capacity (read d.key s) else 0

  -- The second loop.
  unfoldable pub keep : ℕ → Bool → Demand → ℕ → State → State
  unfolding debit
  keep now allowed d level s =
      if configured d
      then write d.key (record { tokens = debit allowed d level; ts = now }) s
      else s

  unfoldable pub admit : ℕ → Demand → Demand → State → Reply × State
  unfolding level_of keep report wait_for
  admit now requests tokens s =
      let a = level_of now requests s in
      let b = level_of now tokens s in
      let allowed = not (is_short requests a || is_short tokens b) in
      (
        record {
          allowed = allowed;
          requests = report requests (debit allowed requests a);
          tokens = report tokens (debit allowed tokens b);
          retry_ms = max (wait_for requests a) (wait_for tokens b);
        },
        keep now allowed tokens b (keep now allowed requests a s),
      )

  unfoldable pub settle : ℕ → Text → ℕ → ℤ → State → State
  unfolding shift
  settle now key capacity delta s =
      if leb capacity 0 || is_zero delta
      then s
      else write key
          (record { tokens = shift capacity delta (measure now capacity (read key s)); ts = now }) s
