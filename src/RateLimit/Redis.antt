-- ===== src/RateLimit/Redis.antt =====
-- Redis as the rate limiter of src/vortex_ai_gateway/ratelimit.py uses it: hashes with the fields
-- `tokens` and `ts`, read by HMGET, written by HSET and PEXPIRE, and dropped when they expire.
use vortex_ai_gateway.Base.{ℕ, ◌≡◌, Text, text_eq, Option, none, some, if◌then◌else◌}

-- A level is in sixty-thousandths of a token and a time in milliseconds, so that a refill of
-- `rpm / 60000` tokens per millisecond is exact.
pub record Bucket : Type 0 where
  pub tokens : ℕ
  pub ts : ℕ

-- The server: its state, the commands, and what Redis documents of them.
pub record Server : Type 1 where
  pub State : Type 0
  pub read : Text → State → Option Bucket
  pub write : Text → Bucket → State → State
  pub expire : Text → State → State
  pub read-write :
      (j k : Text) (b : Bucket) (s : State)
      → read j (write k b s) ≡ (if text_eq k j then some b else read j s)
  pub read-expire :
      (j k : Text) (s : State) → read j (expire k s) ≡ (if text_eq k j then none else read j s)
