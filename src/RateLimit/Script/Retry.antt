-- ===== src/RateLimit/Script/Retry.antt =====
-- The `Retry-After` of a refusal, and expiry.
use vortex_ai_gateway.Base.{
  ℕ, ◌+◌, ◌-◌, ◌*◌, ◌≤◌, ◌<◌, max, ◌≡◌, refl, text_eq, true, false, some, leb, arith, not, ◌||◌,
  text_eq_refl, mul-le-mul,
}
use vortex_ai_gateway.RateLimit.Redis.{Bucket, Server}
use vortex_ai_gateway.RateLimit.Bucket.{window, measure, measure_bounded, ceil_div_iff}
use vortex_ai_gateway.RateLimit.Script.{Demand, is_short, debit, level_of, admit, wait_for}
use vortex_ai_gateway.RateLimit.Script.Atomic.{read-admit}

-- After `r` milliseconds without traffic a bucket covers its cost exactly if `r` is at least the
-- wait that was reported for it.
is_short_after :
    (d : Demand) (level now r : ℕ)
    → 0 < d.capacity
    → d.cost ≤ d.capacity
    → level ≤ d.capacity * window
    → is_short d (measure (now + r) d.capacity (some (record { tokens = level; ts = now })))
      ≡ not (leb (wait_for d level) r)
unfolding measure wait_for
is_short_after d level now r h fits bound =
    let e : now + r - now ≡ r = omega arith in
    rw e (ground (arith, ceil_div_iff (d.cost * window - level) d.capacity r h))

-- The rounded waits of two buckets are over when their maximum is.
leb-max : (a b r : ℕ) → not (not (leb a r) || not (leb b r)) ≡ leb (max a b) r
leb-max a b r = ground arith

module _ (server : Server) where
  open server use {State, read, expire, read-expire}

  level_of-le : (now : ℕ) (d : Demand) (s : State) → level_of server now d s ≤ d.capacity * window
  unfolding level_of
  level_of-le now d s = ground (arith, measure_bounded now d.capacity (read d.key s))

  -- A configured bucket that was just stamped with its level.
  is_short_stamped :
      (d : Demand) (level now r : ℕ) (s : State)
      → 0 < d.capacity
      → d.cost ≤ d.capacity
      → level ≤ d.capacity * window
      → read d.key s ≡ some (record { tokens = level; ts = now })
      → is_short d (level_of server (now + r) d s) ≡ not (leb (wait_for d level) r)
  unfolding level_of
  is_short_stamped d level now r s h fits bound held =
      ground (arith, held, is_short_after d level now r h fits bound)

  -- What a refusal leaves: both levels as measured, with the time.
  refusal_leaves :
      (now : ℕ) (requests tokens : Demand) (s : State)
      → 0 < requests.capacity
      → 0 < tokens.capacity
      → text_eq tokens.key requests.key ≡ false
      → (admit server now requests tokens s).0.allowed ≡ false
      → let s' = (admit server now requests tokens s).1 in
        (read requests.key s' ≡ some (record { tokens = level_of server now requests s; ts = now }))
        × (read tokens.key s' ≡ some (record { tokens = level_of server now tokens s; ts = now }))
  unfolding admit debit
  refusal_leaves now requests tokens s ha hb apart refused = (
    ground (arith, read-admit server now requests tokens requests.key s, text_eq_refl requests.key),
    ground (arith, read-admit server now requests tokens tokens.key s, text_eq_refl tokens.key),
  )

  -- The reply of a script run that starts from given levels.
  admit_reply :
      (now : ℕ) (requests tokens : Demand) (s : State)
      → let a = level_of server now requests s in
        let b = level_of server now tokens s in
        let reply = (admit server now requests tokens s).0 in
        (reply.allowed ≡ not (is_short requests a || is_short tokens b))
        × (reply.retry_ms ≡ max (wait_for requests a) (wait_for tokens b))
  unfolding admit
  admit_reply now requests tokens s = (refl, refl)

  wait_positive :
      (d : Demand) (level : ℕ) → 0 < d.capacity → is_short d level ≡ true → 0 < wait_for d level
  unfolding wait_for
  wait_positive d level h short =
      ground (arith, ceil_div_iff (d.cost * window - level) d.capacity 0 h)

  -- The retry hint is exact. A refusal of a request that fits both allowances names a wait of more
  -- than nothing; if the caller's buckets see no other traffic, the same request after `r`
  -- milliseconds is admitted when `r` has reached that wait, and refused again before.
  pub retry_exact :
      (now r : ℕ) (requests tokens : Demand) (s : State)
      → 0 < requests.capacity
      → requests.cost ≤ requests.capacity
      → 0 < tokens.capacity
      → tokens.cost ≤ tokens.capacity
      → text_eq tokens.key requests.key ≡ false
      → (admit server now requests tokens s).0.allowed ≡ false
      → let (refusal, s') = admit server now requests tokens s in
        (0 < refusal.retry_ms)
        × ((admit server (now + r) requests tokens s').0.allowed ≡ leb refusal.retry_ms r)
  retry_exact now r requests tokens s ha fa hb fb apart refused =
      let a = level_of server now requests s in
      let b = level_of server now tokens s in
      let s' = (admit server now requests tokens s).1 in
      let (at_requests, at_tokens) = refusal_leaves now requests tokens s ha hb apart refused in
      (
        ground (
          arith,
          admit_reply now requests tokens s,
          wait_positive requests a ha,
          wait_positive tokens b hb,
        ),
        ground (
          arith,
          admit_reply now requests tokens s,
          admit_reply (now + r) requests tokens s',
          is_short_stamped requests a now r s' ha fa (level_of-le now requests s) at_requests,
          is_short_stamped tokens b now r s' hb fb (level_of-le now tokens s) at_tokens,
          leb-max (wait_for requests a) (wait_for tokens b) r,
        ),
      )

  -- Expiry is never seen: once a window has passed since a bucket was written, the script measures
  -- the same level, the full capacity, whether the bucket is still stored or has expired.
  pub expire_unseen :
      (now : ℕ) (d : Demand) (b : Bucket) (s : State)
      → read d.key s ≡ some b
      → b.ts + window ≤ now
      → (level_of server now d (expire d.key s) ≡ level_of server now d s)
        × (level_of server now d s ≡ d.capacity * window)
  unfolding level_of measure
  expire_unseen now d b s held late = ground (
    arith,
    read-expire d.key d.key s,
    text_eq_refl d.key,
    mul-le-mul window (now - b.ts) d.capacity,
  )
