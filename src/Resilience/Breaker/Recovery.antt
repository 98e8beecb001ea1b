-- ===== src/Resilience/Breaker/Recovery.antt =====
-- How a breaker opens, how a trial ends, and how long a breaker stays open.
use vortex_ai_gateway.Base.{
  ℕ, ◌+◌, ◌*◌, ◌/◌, ◌≤◌, ◌<◌, min, ◌≡◌, true, none, some, List, [], ◌∷◌, arith, ltb, ◌==◌, ap, ◌∙◌,
  if◌then◌else◌, length,
}
use vortex_ai_gateway.Resilience.Breaker.{
  closed, open_state, half_open, Permit, CircuitBreaker, allow, record_failure, release_trial,
}
use vortex_ai_gateway.Resilience.Breaker.Invariant.{IsValid, scale-le}
use vortex_ai_gateway.Resilience.Breaker.Trial.{allow_trial-holds}

-- A trial that fails reopens the breaker for the current window, and the next window is longer by
-- the multiplier up to the limit, never shorter; until the window has passed every caller is
-- refused, and then the next caller is the trial. The breaker is valid when the trial is out: its
-- multiplier is at least 1, and its window is within the limit.
pub failed_trial_reopens :
    (now later t : ℕ) (b : CircuitBreaker) {p : Permit} {b' : CircuitBreaker}
    → IsValid b'
    → allow now b ≡ (some p, b')
    → p.trial ≡ true
    → let b'' = record_failure later b' in
      (b''.state ≡ open_state)
      × (b''.opened_until ≡ some (later + b'.open_window))
      × (b''.open_window ≡ min (b'.open_window * b'.backoff_multiplier / 1000) b'.max_open)
      × (b'.open_window ≤ b''.open_window)
      × ((allow t b'').0 ≡ (
          if ltb t (later + b'.open_window)
          then none
          else some (record { identity = b'.next_identity; trial = true })))
unfolding record_failure allow
failed_trial_reopens now later t b {p} {b'} v e trial =
    let (s, held) = allow_trial-holds now b e trial in
    ground (arith, scale-le b'.open_window b'.backoff_multiplier v.multiplier)

-- While half open with the trial `p` out, releasing `p` frees the slot and nothing else, so that the
-- next caller is the trial, and releasing a permit of another identity changes nothing.
pub release_trial-slot :
    (p q : Permit) (now : ℕ) (b : CircuitBreaker)
    → b.state ≡ half_open
    → b.trial ≡ some p
    → ((allow now (release_trial p b)).0
        ≡ some (record { identity = b.next_identity; trial = true }))
      × (release_trial q b ≡ (if p.identity == q.identity then record b { trial = none } else b))
unfolding release_trial allow
release_trial-slot p q now b s held = ground arith

-- `record_failure` at each of the given clock readings.
unfoldable pub fail_all : List ℕ → CircuitBreaker → CircuitBreaker
fail_all [] b = b
fail_all (now ∷ later) b = fail_all later (record_failure now b)

fail_all_closed :
    (times : List ℕ) (b : CircuitBreaker)
    → b.state ≡ closed
    → b.consecutive_failures + length times < b.failure_threshold
    → fail_all times b ≡ record b { consecutive_failures = b.consecutive_failures + length times }
unfolding fail_all record_failure
fail_all_closed [] b s h = ap (λ n. record b { consecutive_failures = n }) (omega arith)
fail_all_closed (now ∷ later) b s h =
    let b' : CircuitBreaker = record b { consecutive_failures = b.consecutive_failures + 1 } in
    let e : record_failure now b ≡ b' = ground arith in
    rw e (
      fail_all_closed later b' s (omega arith)
      ∙ ap (λ n. record b { consecutive_failures = n }) (omega arith))

-- A closed breaker opens on exactly the failure that reaches its threshold: through all the failures
-- before it the breaker stays closed, and that one opens it for the current window.
pub opens_at_threshold :
    (times : List ℕ) (now : ℕ) (b : CircuitBreaker)
    → b.state ≡ closed
    → b.consecutive_failures + length times + 1 ≡ b.failure_threshold
    → let b' = fail_all times b in
      (b'.state ≡ closed)
      × ((record_failure now b').state ≡ open_state)
      × ((record_failure now b').opened_until ≡ some (now + b.open_window))
unfolding record_failure
opens_at_threshold times now b s h =
    let e = fail_all_closed times b s (omega arith) in ground (arith, e)
