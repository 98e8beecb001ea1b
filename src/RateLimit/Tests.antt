-- ===== src/RateLimit/Tests.antt =====
-- The theorems on the rate limiter at concrete states, over a server that is a dictionary.
use vortex_ai_gateway.Base.{
  ℕ, ◌+◌, ◌-◌, ◌*◌, ◌≤◌, ◌<◌, ◌≡◌, refl, codes, ◌&&◌, some, List, [], ◌∷◌, Dict, lookup, insert,
  erase, lookup-insert, lookup-erase, leb, if◌then◌else◌, arith,
}
use vortex_ai_gateway.Auth.Identity.{Principal}
use vortex_ai_gateway.RateLimit.Redis.{Bucket, Server}
use vortex_ai_gateway.RateLimit.Bucket.{window, measure}
use vortex_ai_gateway.RateLimit.Script.{Demand, admit, level_of}
use vortex_ai_gateway.RateLimit.Script.Atomic.{admit_atomic}
use vortex_ai_gateway.RateLimit.Script.Bound.{Attempt, run, admissions_bounded}
use vortex_ai_gateway.RateLimit.Script.Retry.{retry_exact}
use vortex_ai_gateway.RateLimit.Limiter.{up, requests_key, tokens_key, admit_request}
use vortex_ai_gateway.RateLimit.Limiter.Keys.{admit_request-others}

abbrev memory : Server
memory = record {
  State = Dict Bucket;
  read = lookup;
  write = insert;
  expire = erase;
  read-write = lookup-insert;
  read-expire = lookup-erase;
}

abbrev requests : Demand
requests = record { key = codes "r"; capacity = 60; cost = 1 }

abbrev tokens : Demand
tokens = record { key = codes "t"; capacity = 600; cost = 500 }

-- One request was admitted at time 0: 59 requests and 100 tokens are left.
abbrev used : Dict Bucket
used =
    (codes "r", record { tokens = 59 * 60_000; ts = 0 })
    ∷ (codes "t", record { tokens = 100 * 60_000; ts = 0 })
    ∷ []

first_admission : (admit memory 0 requests tokens []).1 ≡ used
unfolding admit lookup insert measure
first_admission = refl

admit_atomic_example :
    let a = level_of memory 1000 requests used in
    let b = level_of memory 1000 tokens used in
    let (reply, s') = admit memory 1000 requests tokens used in
    let held = λ (level cost : ℕ). if reply.allowed then level - cost * window else level in
    (reply.allowed ≡ leb (1 * window) a && leb (500 * window) b)
    × (lookup (codes "r") s' ≡ some (record { tokens = held a 1; ts = 1000 }))
    × (lookup (codes "t") s' ≡ some (record { tokens = held b 500; ts = 1000 }))
    × (lookup (codes "x") s' ≡ lookup (codes "x") used)
admit_atomic_example =
    admit_atomic memory 1000 requests tokens (codes "x") used (omega arith) (omega arith) refl refl
      refl

abbrev attempts : List Attempt
attempts = record { now = 1000; cost = 50 } ∷ record { now = 2000; cost = 500 } ∷ []

admissions_bounded_example :
    (run memory (codes "r") (codes "t") 60 600 attempts used).0 * window + 0 * 600
    ≤ 100 * 60_000 + 2000 * 600
unfolding lookup
admissions_bounded_example =
    admissions_bounded memory (codes "r") (codes "t") 60 600 attempts
      (record { tokens = 100 * 60_000; ts = 0 }) used (omega arith) refl (omega arith)

retry_exact_example :
    let (refusal, s') = admit memory 1000 requests tokens used in
    (0 < refusal.retry_ms)
    × ((admit memory (1000 + 39_000) requests tokens s').0.allowed ≡ leb refusal.retry_ms 39_000)
unfolding admit lookup measure
retry_exact_example =
    retry_exact memory 1000 39_000 requests tokens used (omega arith) (omega arith) (omega arith)
      (omega arith) refl refl

abbrev caller : Principal
caller = record { key_id = codes "ab12"; name = []; rpm = 60; tpm = 600 }

admit_request-others_example :
    let s' = (admit_request memory (codes "rl") up 0 caller 500 []).1 in
    (lookup (requests_key (codes "rl") (codes "cd34")) s'
      ≡ lookup (requests_key (codes "rl") (codes "cd34")) [])
    × (lookup (tokens_key (codes "rl") (codes "cd34")) s'
        ≡ lookup (tokens_key (codes "rl") (codes "cd34")) [])
admit_request-others_example =
    admit_request-others memory (codes "rl") up 0 caller 500 [] (codes "cd34") refl refl refl
