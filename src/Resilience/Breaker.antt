-- ===== src/Resilience/Breaker.antt =====
-- `CircuitBreaker` of src/vortex_ai_gateway/resilience.py. Every method holds the lock throughout and
-- never awaits under it, so a method is one step. The multiplier is in thousandths. A `Permit` is
-- known by its identity, a number that each construction takes anew.
pub mod Invariant
pub mod Trial
pub mod Recovery
use vortex_ai_gateway.Base.{
  ℕ, ◌+◌, ◌-◌, ◌*◌, ◌/◌, min, Bool, true, false, Option, none, some, List, [], ◌∷◌, leb, ◌==◌,
  if◌then◌else◌,
}

pub data BreakerState : Type 0 where
  closed open_state half_open : BreakerState

-- `BreakerState.level`, what the gauge shows.
abbrev pub level : BreakerState → ℕ
level closed = 0
level half_open = 1
level open_state = 2

abbrev pub same_state : BreakerState → BreakerState → Bool
same_state closed closed = true
same_state open_state open_state = true
same_state half_open half_open = true
same_state _ _ = false

pub record Permit : Type 0 where
  pub identity : ℕ
  pub trial : Bool

-- `_ADMITTED`
abbrev pub admitted : Permit
admitted = record { identity = 0; trial = false }

-- `next_identity` is the identity of the next `Permit` constructed; `transitions` are the increments
-- of `BREAKER_TRANSITIONS`, last first, and `gauge` the value of `BREAKER_STATE`.
pub record CircuitBreaker : Type 0 where
  pub failure_threshold : ℕ
  pub backoff_multiplier : ℕ
  pub max_open : ℕ
  pub base_open : ℕ
  pub open_window : ℕ
  pub state : BreakerState
  pub consecutive_failures : ℕ
  pub opened_until : Option ℕ
  pub trial : Option Permit
  pub next_identity : ℕ
  pub transitions : List BreakerState
  pub gauge : ℕ

unfoldable pub init : ℕ → ℕ → ℕ → ℕ → CircuitBreaker
init failure_threshold open_window backoff_multiplier max_open = record {
  failure_threshold = failure_threshold;
  backoff_multiplier = backoff_multiplier;
  max_open = max_open;
  base_open = open_window;
  open_window = open_window;
  state = closed;
  consecutive_failures = 0;
  opened_until = none;
  trial = none;
  next_identity = 1;
  transitions = [];
  gauge = 0;
}

-- `_transition`
unfoldable pub transition : BreakerState → CircuitBreaker → CircuitBreaker
transition to b =
    if same_state b.state to
    then b
    else (record b { state = to; transitions = to ∷ b.transitions; gauge = level to })

-- The escalation at the end of `_open`.
unfoldable pub escalate : CircuitBreaker → CircuitBreaker
escalate b = record b {
  consecutive_failures = 0;
  open_window = min (b.open_window * b.backoff_multiplier / 1000) b.max_open;
}

-- `_open`
unfoldable pub open_breaker : ℕ → CircuitBreaker → CircuitBreaker
unfolding transition escalate
open_breaker now b =
    escalate (transition open_state (record b { opened_until = some (now + b.open_window) }))

-- `Permit(trial=True)`, put into the trial slot.
unfoldable pub reserve_trial : CircuitBreaker → Option Permit × CircuitBreaker
reserve_trial b =
    let permit : Permit = record { identity = b.next_identity; trial = true } in
    (some permit, record b { trial = some permit; next_identity = b.next_identity + 1 })

-- `now() >= self._opened_until`, false when there is no such time.
abbrev pub has_elapsed : ℕ → Option ℕ → Bool
has_elapsed now none = false
has_elapsed now (some until) = leb until now

allow_in : BreakerState → ℕ → CircuitBreaker → Option Permit × CircuitBreaker
unfolding reserve_trial transition
allow_in closed now b = (some admitted, b)
allow_in open_state now b =
    if has_elapsed now b.opened_until then reserve_trial (transition half_open b) else (none, b)
allow_in half_open now b = elim b.trial [ none ↦ reserve_trial b | some _ ↦ (none, b) ]

unfoldable pub allow : ℕ → CircuitBreaker → Option Permit × CircuitBreaker
unfolding allow_in
allow now b = allow_in b.state now b

unfoldable pub record_success : CircuitBreaker → CircuitBreaker
unfolding transition
record_success b = record (transition closed b) {
  consecutive_failures = 0;
  opened_until = none;
  open_window = b.base_open;
  trial = none;
}

fail_in : BreakerState → ℕ → CircuitBreaker → CircuitBreaker
unfolding open_breaker
fail_in half_open now b = open_breaker now (record b { trial = none })
fail_in closed now b =
    if leb b.failure_threshold b.consecutive_failures then open_breaker now b else b
fail_in open_state now b = b

unfoldable pub record_failure : ℕ → CircuitBreaker → CircuitBreaker
unfolding fail_in
record_failure now b =
    fail_in b.state now (record b { consecutive_failures = b.consecutive_failures + 1 })

-- `self._trial is permit`
abbrev pub holds_slot : Option Permit → Permit → Bool
holds_slot none permit = false
holds_slot (some holder) permit = holder.identity == permit.identity

unfoldable pub release_trial : Permit → CircuitBreaker → CircuitBreaker
release_trial permit b = if holds_slot b.trial permit then (record b { trial = none }) else b

-- Truncated subtraction is the source's `max(0.0, …)`.
abbrev wait_of : BreakerState → Option ℕ → ℕ → Option ℕ
wait_of open_state (some until) now = some (until - now)
wait_of _ _ now = none

unfoldable pub retry_after : ℕ → CircuitBreaker → Option ℕ
retry_after now b = wait_of b.state b.opened_until now

-- The calls that tasks make on one breaker, in the order in which they take its lock.
pub data Call : Type 0 where
  allow_call failure_call : ℕ → Call
  success_call : Call
  release_call : Permit → Call

unfoldable pub step : Call → CircuitBreaker → CircuitBreaker
unfolding allow record_success record_failure release_trial
step (allow_call now) b = (allow now b).1
step (failure_call now) b = record_failure now b
step success_call b = record_success b
step (release_call permit) b = release_trial permit b

unfoldable pub run : List Call → CircuitBreaker → CircuitBreaker
run [] b = b
run (c ∷ calls) b = run calls (step c b)
