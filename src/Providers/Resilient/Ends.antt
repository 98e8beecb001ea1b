-- ===== src/Providers/Resilient/Ends.antt =====
-- What ends the loop of `_call` in src/vortex_ai_gateway/providers/resilience_wrapper.py.
use vortex_ai_gateway.Base.{ℕ, zero, suc, ◌+◌, ◌≤◌, ◌<◌, ◌≡◌, refl, sym, ◌∙◌, Text, arith}
use Prim.{absurd}
use vortex_ai_gateway.Resilience.Policy.{RetryPolicy}
use vortex_ai_gateway.Providers.Errors.{ProviderError, Result}
use vortex_ai_gateway.Providers.Resilient.{
  World, Environment, Turn, leave, break_with, again, turn_of, loop, give_up_with, call,
}

module _ {ℓ} {A : Type ℓ} (name : Text) (policy : RetryPolicy) (env : Environment A) where
  -- Only an attempt before the last goes round again.
  turn_of-again :
      (attempt started : ℕ) (w : World) (e : ProviderError)
      → (turn_of name policy env attempt started w).0 ≡ again e
      → attempt + 1 < policy.max_attempts
  unfolding turn_of
  turn_of-again attempt started w e more = ground arith

  -- What a turn leaves to do, with a number of rounds left.
  rounds_after : ℕ → ℕ → ℕ → Turn A → World → Result A × World
  rounds_after rest attempt started (leave r) w = (r, w)
  rounds_after rest attempt started (break_with exc reason) w =
      give_up_with name policy env exc reason w
  rounds_after rest attempt started (again exc) w =
      loop name policy env rest (attempt + 1) started w

  rounds_after-same :
      (n m attempt started : ℕ) (t : Turn A) (w : World)
      → ((e : ProviderError)
          → t ≡ again e
          → loop name policy env n (attempt + 1) started w
            ≡ loop name policy env m (attempt + 1) started w)
      → rounds_after n attempt started t w ≡ rounds_after m attempt started t w
  unfolding rounds_after
  rounds_after-same n m attempt started (leave r) w same = refl
  rounds_after-same n m attempt started (break_with exc reason) w same = refl
  rounds_after-same n m attempt started (again exc) w same = same exc refl

  loop-rounds :
      (rest attempt started : ℕ) (w : World)
      → let (t, w') = turn_of name policy env attempt started w in
        loop name policy env (suc rest) attempt started w ≡ rounds_after rest attempt started t w'
  unfolding loop rounds_after
  loop-rounds rest attempt started w =
      let w' = (turn_of name policy env attempt started w).1 in
      elim (turn_of name policy env attempt started w).0
        as (λ t.
          (elim t as (λ x. Result A × World) [
            | leave r ↦ (r, w')
            | break_with exc reason ↦ give_up_with name policy env exc reason w'
            | again exc ↦ loop name policy env rest (attempt + 1) started w'
          ])
          ≡ rounds_after rest attempt started t w') [
            | leave r ↦ refl
            | break_with exc reason ↦ refl
            | again exc ↦ refl
          ]

  loop-same :
      (n m attempt started : ℕ) (w : World)
      → 0 < n
      → 0 < m
      → policy.max_attempts ≤ attempt + n
      → policy.max_attempts ≤ attempt + m
      → loop name policy env n attempt started w ≡ loop name policy env m attempt started w
  unfolding loop rounds_after
  loop-same zero m attempt started w hn hm en em = absurd (omega arith)
  loop-same n zero attempt started w hn hm en em = absurd (omega arith)
  loop-same (suc n) (suc m) attempt started w hn hm en em =
      let (t, w') = turn_of name policy env attempt started w in
      let rest : (e : ProviderError)
          → t ≡ again e
          → loop name policy env n (attempt + 1) started w'
            ≡ loop name policy env m (attempt + 1) started w' =
        λ e more.
          let early = turn_of-again attempt started w e more in
          loop-same n m (attempt + 1) started w' (omega arith) (omega arith) (omega arith)
            (omega arith) in
      loop-rounds n attempt started w
      ∙ rounds_after-same n m attempt started t w' rest
      ∙ sym (loop-rounds m attempt started w)

  -- The loop is always left before its bound ends it: with any number of rounds beyond
  -- `max_attempts`, if that is positive, a call comes to the same result and the same state.
  pub call-ends :
      (extra : ℕ) (w : World)
      → 0 < policy.max_attempts
      → loop name policy env (policy.max_attempts + extra) 0 w.clock w ≡ call name policy env w
  unfolding call
  call-ends extra w some_left =
      loop-same (policy.max_attempts + extra) policy.max_attempts 0 w.clock w (omega arith)
        some_left (omega arith) (omega arith)
