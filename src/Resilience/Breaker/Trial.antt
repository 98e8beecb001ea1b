-- ===== src/Resilience/Breaker/Trial.antt =====
-- Admission: when a breaker refuses, how many trials it admits, and how it opens and reopens.
use vortex_ai_gateway.Base.{
  ℕ, ◌≡◌, ◌≢◌, ◌↔◌, ◌⊎◌, refl, true, false, Option, none, some, List, [], ◌∷◌, arith, All, is_some,
}
use vortex_ai_gateway.Resilience.Breaker.{
  open_state, half_open, Permit, CircuitBreaker, has_elapsed, allow, release_trial, Call,
  allow_call, failure_call, success_call, release_call, step,
}

-- A caller is refused exactly while the breaker is open and its window has not passed, or while it
-- is half open and another caller holds the trial.
pub allow-none_iff :
    (now : ℕ) (b : CircuitBreaker)
    → ((allow now b).0 ≡ none) ↔ (
        (b.state ≡ open_state) × (has_elapsed now b.opened_until ≡ false)
        ⊎ (b.state ≡ half_open) × (is_some b.trial ≡ true))
unfolding allow
allow-none_iff now b = (λ h. ground arith, λ h. ground arith)

-- The permits that a run of calls hands out, in order.
collect : Option Permit → List Permit → List Permit
collect none ps = ps
collect (some p) ps = p ∷ ps

unfoldable pub granted : List Call → CircuitBreaker → List Permit
unfolding collect
granted [] b = []
granted (allow_call now ∷ calls) b = collect (allow now b).0 (granted calls (allow now b).1)
granted (failure_call now ∷ calls) b = granted calls (step (failure_call now) b)
granted (success_call ∷ calls) b = granted calls (step success_call b)
granted (release_call p ∷ calls) b = granted calls (step (release_call p) b)

-- A call that neither records a verdict nor hands back the permit.
abbrev pub LeavesTrial : Permit → Call → Type 0
LeavesTrial p (allow_call now) = Unit
LeavesTrial p (failure_call now) = ⊥
LeavesTrial p success_call = ⊥
LeavesTrial p (release_call q) = p.identity ≢ q.identity

granted_held :
    (p : Permit) (calls : List Call) (b : CircuitBreaker)
    → b.state ≡ half_open
    → b.trial ≡ some p
    → All (LeavesTrial p) calls
    → granted calls b ≡ []
unfolding granted step allow release_trial
granted_held p [] b s t quiet = refl
granted_held p (allow_call now ∷ calls) b s t quiet =
    ground (arith, granted_held p calls b s t quiet.1)
granted_held p (failure_call now ∷ calls) b s t quiet = absurd quiet.0
granted_held p (success_call ∷ calls) b s t quiet = absurd quiet.0
granted_held p (release_call q ∷ calls) b s t quiet =
    ground (arith, granted_held p calls b s t quiet.1)

pub allow_trial-holds :
    (now : ℕ) (b : CircuitBreaker) {p : Permit} {b' : CircuitBreaker}
    → allow now b ≡ (some p, b')
    → p.trial ≡ true
    → (b'.state ≡ half_open) × (b'.trial ≡ some p)
unfolding allow
allow_trial-holds now b e t = ground arith

-- From the moment a trial is admitted, nobody else is: whatever calls follow, no further permit is
-- handed out until a verdict is recorded or the trial's own permit is released.
pub single_trial :
    (now : ℕ) (b : CircuitBreaker) {p : Permit} {b' : CircuitBreaker} (calls : List Call)
    → allow now b ≡ (some p, b')
    → p.trial ≡ true
    → All (LeavesTrial p) calls
    → granted calls b' ≡ []
single_trial now b {p} {b'} calls e t quiet =
    let (s, held) = allow_trial-holds now b e t in granted_held p calls b' s held quiet
