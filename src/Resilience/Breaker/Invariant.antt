-- ===== src/Resilience/Breaker/Invariant.antt =====
-- What holds of a breaker after any calls.
use vortex_ai_gateway.Base.{
  ℕ, ◌+◌, ◌-◌, ◌*◌, ◌/◌, ◌≤◌, ◌<◌, ◌≡◌, ap, true, Option, none, some, List, [], ◌∷◌, arith,
}
use vortex_ai_gateway.Resilience.Breaker.{
  BreakerState, closed, open_state, half_open, level, Permit, CircuitBreaker, init, allow,
  record_success, record_failure, release_trial, Call, allow_call, failure_call, success_call,
  release_call, step, run,
}

-- The trial slot is taken only while half open, by a trial permit that was handed out.
abbrev pub SlotIsValid : BreakerState → Option Permit → ℕ → Type 0
SlotIsValid state none next = Unit
SlotIsValid half_open (some p) next = (p.trial ≡ true) × (0 < p.identity) × (p.identity < next)
SlotIsValid closed (some p) next = ⊥
SlotIsValid open_state (some p) next = ⊥

-- An open breaker knows when it next admits; a closed one is below its threshold.
abbrev pub StateIsValid : BreakerState → Option ℕ → ℕ → ℕ → Type 0
StateIsValid closed until failures threshold = failures < threshold
StateIsValid open_state none failures threshold = ⊥
StateIsValid open_state (some t) failures threshold = Unit
StateIsValid half_open until failures threshold = Unit

pub record IsValid (b : CircuitBreaker) : Type 0 where
  pub threshold : 0 < b.failure_threshold
  pub multiplier : 1000 ≤ b.backoff_multiplier
  pub limit : b.base_open ≤ b.max_open
  pub least : b.base_open ≤ b.open_window
  pub most : b.open_window ≤ b.max_open
  pub slot : SlotIsValid b.state b.trial b.next_identity
  pub fresh : 0 < b.next_identity
  pub counted : StateIsValid b.state b.opened_until b.consecutive_failures b.failure_threshold
  pub shown : b.gauge ≡ level b.state

pub init-IsValid :
    (threshold window multiplier limit : ℕ)
    → 0 < threshold
    → 1000 ≤ multiplier
    → window ≤ limit
    → IsValid (init threshold window multiplier limit)
unfolding init
init-IsValid threshold window multiplier limit h k l = ground arith

pub scale-le : (w m : ℕ) → 1000 ≤ m → w ≤ w * m / 1000
scale-le w m h =
    let e : m ≡ 1000 + (m - 1000) = omega arith in omega (arith, ap (λ (t : ℕ). w * t) e)

pub allow-IsValid : (now : ℕ) (b : CircuitBreaker) → IsValid b → IsValid (allow now b).1
unfolding allow
allow-IsValid now b v = ground arith

pub record_success-IsValid : (b : CircuitBreaker) → IsValid b → IsValid (record_success b)
unfolding record_success
record_success-IsValid b v = ground arith

pub release_trial-IsValid :
    (p : Permit) (b : CircuitBreaker) → IsValid b → IsValid (release_trial p b)
unfolding release_trial
release_trial-IsValid p b v = ground arith

pub record_failure-IsValid :
    (now : ℕ) (b : CircuitBreaker) → IsValid b → IsValid (record_failure now b)
unfolding record_failure
record_failure-IsValid now b v = ground (arith, scale-le b.open_window b.backoff_multiplier)

step-IsValid : (c : Call) (b : CircuitBreaker) → IsValid b → IsValid (step c b)
unfolding step
step-IsValid (allow_call now) b v = allow-IsValid now b v
step-IsValid (failure_call now) b v = record_failure-IsValid now b v
step-IsValid success_call b v = record_success-IsValid b v
step-IsValid (release_call p) b v = release_trial-IsValid p b v

-- Any calls, in any order, keep a breaker valid: the trial slot is taken only while half open and
-- only by a trial permit that was handed out, an open breaker has the time at which it admits next,
-- a closed one is below its threshold, the window stays between its base and its limit, and the
-- gauge shows the state.
pub run-IsValid : (calls : List Call) (b : CircuitBreaker) → IsValid b → IsValid (run calls b)
unfolding run
run-IsValid [] b v = v
run-IsValid (c ∷ calls) b v = run-IsValid calls (step c b) (step-IsValid c b v)
