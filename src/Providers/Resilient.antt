-- ===== src/Providers/Resilient.antt =====
-- `ResilientProvider` of src/vortex_ai_gateway/providers/resilience_wrapper.py. The loop is the same for
-- a completion and for opening a stream, so the value of an attempt is any type. The event loop may
-- run other tasks at the two awaits, the attempt and the backoff's sleep: what they do there to the
-- clock, the breaker and the budget is the environment's choice.
pub mod Valid
pub mod Slot
pub mod Count
pub mod Serve
pub mod Ends
use vortex_ai_gateway.Base.{
  ℕ, zero, suc, ◌+◌, ◌-◌, Text, Bool, true, false, not, ◌||◌, Option, none, some, List, [], ◌∷◌,
  ltb, leb, if◌then◌else◌, option_or,
}
use vortex_ai_gateway.Resilience.Budget.{RetryBudget, token, consume}
use vortex_ai_gateway.Resilience.Policy.{RetryPolicy, backoff_with_jitter}
use vortex_ai_gateway.Resilience.Breaker.{
  Permit, CircuitBreaker, Call, run, allow, record_success, record_failure, release_trial,
  retry_after,
}
use vortex_ai_gateway.Providers.Errors.{
  ProviderError, retryable, circuit_open_error, Raised, provider_error, cancelled, other_exception,
  Result, returned, raised,
}

pub data AttemptOutcome : Type 0 where
  outcome_ok outcome_error outcome_cancelled : AttemptOutcome

-- The reasons of `GAVE_UP_…`.
pub data GiveUp : Type 0 where
  exhausted budget_spent deadline_reached trial_failed : GiveUp

-- The shared state and the counters `PROVIDER_ATTEMPTS`, `PROVIDER_RETRIES`, `PROVIDER_GIVE_UPS`,
-- whose increments are listed last first.
pub record World : Type 0 where
  pub clock : ℕ
  pub breaker : CircuitBreaker
  pub budget : Option RetryBudget
  pub attempts : List AttemptOutcome
  pub retries : ℕ
  pub give_ups : List GiveUp

-- What passes while a task waits: the time, the other tasks' calls on the breaker, and the clock
-- readings of their calls on the budget.
pub record Interlude : Type 0 where
  pub elapsed : ℕ
  pub calls : List Call
  pub takes : List ℕ

consume_all : List ℕ → RetryBudget → RetryBudget
consume_all [] b = b
consume_all (now ∷ later) b = consume_all later (consume now token b).1

consume_others : List ℕ → Option RetryBudget → Option RetryBudget
unfolding consume_all
consume_others takes none = none
consume_others takes (some b) = some (consume_all takes b)

unfoldable pub pass : Interlude → World → World
unfolding consume_others
pass i w = record w {
  clock = w.clock + i.elapsed;
  breaker = run i.calls w.breaker;
  budget = consume_others i.takes w.budget;
}

-- How the environment answers: the result of each attempt with what passes while it runs, and for
-- each sleep what passes and whether the task was cancelled in it.
pub record Environment {ℓ} (A : Type ℓ) : Type ℓ where
  pub attempt : ℕ → Result A × Interlude
  pub sleep : ℕ → ℕ → Interlude × Bool
  pub uniform : ℕ → ℕ → ℕ

-- `self.policy.budget is not None and not await self.policy.budget.consume()`
pub take_retry : World → Bool × World
take_retry w = elim w.budget [
  | none ↦ (true, w)
  | some b ↦ let (granted, b') = consume w.clock token b in (granted, record w { budget = some b' })
]

-- `remaining <= 0 or sleep_for > remaining`
unfoldable pub misses_deadline : Option ℕ → ℕ → ℕ → Bool
misses_deadline none elapsed sleep_for = false
misses_deadline (some deadline) elapsed sleep_for =
    leb deadline elapsed || ltb (deadline - elapsed) sleep_for

-- How `_backoff_or_give_up` ends: it waited, it gives a reason, or the task was cancelled asleep.
pub data Backoff : Type 0 where
  waited : Backoff
  gave_up : GiveUp → Backoff
  sleep_cancelled : Backoff

-- One iteration of the loop ends the call, breaks out of the loop, or goes round again.
pub data Turn {ℓ} (A : Type ℓ) : Type ℓ where
  leave : Result A → Turn A
  break_with : ProviderError → GiveUp → Turn A
  again : ProviderError → Turn A

abbrev count_attempt : AttemptOutcome → World → World
count_attempt o w = record w { attempts = o ∷ w.attempts }

abbrev pub set_breaker : CircuitBreaker → World → World
set_breaker b w = record w { breaker = b }

-- `_report_give_up`
abbrev report_give_up : GiveUp → World → World
report_give_up reason w = record w { give_ups = reason ∷ w.give_ups }

module _ {ℓ} {A : Type ℓ} (name : Text) (policy : RetryPolicy) (env : Environment A) where
  pub sleep_for : ProviderError → ℕ → ℕ
  unfolding backoff_with_jitter
  sleep_for exc attempt = option_or exc.retry_after (backoff_with_jitter env.uniform policy attempt)

  go_to_sleep : ProviderError → ℕ → World → Backoff × World
  unfolding sleep_for pass
  go_to_sleep exc attempt w =
      let (i, interrupted) = env.sleep attempt (sleep_for exc attempt) in
      (
        if interrupted then sleep_cancelled else waited,
        pass i (record w { retries = w.retries + 1 }),
      )

  within_budget : ProviderError → ℕ → ℕ → Bool × World → Backoff × World
  unfolding go_to_sleep misses_deadline
  within_budget exc attempt started (false, w) = (gave_up budget_spent, w)
  within_budget exc attempt started (true, w) =
      if misses_deadline policy.deadline (w.clock - started) (sleep_for exc attempt)
      then (gave_up deadline_reached, w)
      else go_to_sleep exc attempt w

  -- `_backoff_or_give_up`
  unfoldable pub backoff_or_give_up : ProviderError → ℕ → ℕ → World → Backoff × World
  unfolding within_budget take_retry
  backoff_or_give_up exc attempt started w =
      if leb policy.max_attempts (attempt + 1)
      then (gave_up exhausted, w)
      else within_budget exc attempt started (take_retry w)

  pub after_backoff : ProviderError → Backoff × World → Turn A × World
  after_backoff exc (waited, w) = (again exc, w)
  after_backoff exc (gave_up reason, w) = (break_with exc reason, w)
  after_backoff exc (sleep_cancelled, w) = (leave (raised cancelled), w)

  pub on_retryable : ProviderError → Permit → ℕ → ℕ → World → Turn A × World
  unfolding after_backoff backoff_or_give_up
  on_retryable exc permit attempt started w =
      if permit.trial
      then (
        leave (raised (provider_error exc)),
        report_give_up trial_failed (set_breaker (record_failure w.clock w.breaker) w),
      )
      else after_backoff exc (backoff_or_give_up exc attempt started w)

  -- The `try` statement, its handlers and its `else`, before the `finally`.
  pub on_result : Result A → Permit → ℕ → ℕ → World → Turn A × World
  unfolding on_retryable
  on_result (returned a) permit attempt started w =
      (leave (returned a), set_breaker (record_success w.breaker) (count_attempt outcome_ok w))
  on_result (raised cancelled) permit attempt started w =
      (leave (raised cancelled), count_attempt outcome_cancelled w)
  on_result (raised (other_exception e)) permit attempt started w =
      (leave (raised (other_exception e)), w)
  on_result (raised (provider_error exc)) permit attempt started w =
      if retryable exc
      then on_retryable exc permit attempt started (count_attempt outcome_error w)
      else (leave (raised (provider_error exc)), count_attempt outcome_error w)

  -- The whole `try` with its `finally`, once the breaker has given its permit.
  unfoldable pub attempt_with : Permit → ℕ → ℕ → World → Turn A × World
  unfolding on_result pass
  attempt_with permit attempt started w =
      let (result, i) = env.attempt attempt in
      let (turn, w') = on_result result permit attempt started (pass i w) in
      (turn, set_breaker (release_trial permit w'.breaker) w')

  pub on_permit : Option Permit → ℕ → ℕ → World → Turn A × World
  unfolding attempt_with
  on_permit none attempt started w =
      (leave (raised (provider_error (circuit_open_error name (retry_after w.clock w.breaker)))), w)
  on_permit (some permit) attempt started w = attempt_with permit attempt started w

  -- One iteration of the loop of `_call`.
  unfoldable pub turn_of : ℕ → ℕ → World → Turn A × World
  unfolding on_permit
  turn_of attempt started w =
      let (permit, b) = allow w.clock w.breaker in
      on_permit permit attempt started (set_breaker b w)

  -- What follows a `break`: one recorded failure, one report, and the last error.
  unfoldable pub give_up_with : ProviderError → GiveUp → World → Result A × World
  give_up_with exc reason w = (
    raised (provider_error exc),
    report_give_up reason (set_breaker (record_failure w.clock w.breaker) w),
  )

  -- The loop, with the number of rounds left; it runs out without a `break` only if it has none.
  unfoldable pub loop : ℕ → ℕ → ℕ → World → Result A × World
  loop zero attempt started w = (
    raised (provider_error (circuit_open_error name none)),
    set_breaker (record_failure w.clock w.breaker) w,
  )
  loop (suc rest) attempt started w =
      let (turn, w') = turn_of attempt started w in
      elim turn [
        | leave r ↦ (r, w')
        | break_with exc reason ↦ give_up_with exc reason w'
        | again exc ↦ loop rest (attempt + 1) started w'
      ]

  -- `_call`
  unfoldable pub call : World → Result A × World
  unfolding loop
  call w = loop policy.max_attempts 0 w.clock w
