-- ===== src/Providers/Fallback.antt =====
-- `FallbackProvider` of src/vortex_ai_gateway/providers/resilience_wrapper.py. A member is its name and
-- what a call of it does to the state of the world; the loop is the same for a completion and for
-- opening a stream.
pub mod Chain
use vortex_ai_gateway.Base.{
  ℕ, Text, codes, Bool, true, false, ◌||◌, List, [], ◌∷◌, if◌then◌else◌, Option, none, some,
}
use vortex_ai_gateway.Providers.Errors.{
  ProviderError, retryable, is_circuit_open, Raised, provider_error, cancelled, other_exception,
  Result, returned, raised,
}

pub record Member {ℓ κ} (W : Type ℓ) (A : Type κ) : Type (ℓ ⊔ κ) where
  pub name : Text
  pub serve : W → Result A × W

-- `_is_hoppable`
abbrev pub is_hoppable : ProviderError → Bool
is_hoppable e = is_circuit_open e.kind || retryable e

-- One increment of `FALLBACKS`: from a provider to the next.
pub record Hop : Type 0 where
  pub from_provider : Text
  pub to_provider : Text

module _ {ℓ κ} {W : Type ℓ} {A : Type κ} where
  -- A failure of `p`, and what the members after it do: the failure stands if it may not be hopped
  -- or if there are no more members, and otherwise the hop is counted.
  unfoldable pub hop_or_raise :
      Member W A
      → List (Member W A)
      → Result A × W × List Hop
      → ProviderError
      → W
      → Result A × W × List Hop
  hop_or_raise p [] rest exc w = (raised (provider_error exc), w, [])
  hop_or_raise p (q ∷ qs) (r, w', hops) exc w =
      if is_hoppable exc
      then (r, w', record { from_provider = p.name; to_provider = q.name } ∷ hops)
      else (raised (provider_error exc), w, [])

  -- `_first_to_serve`, with the hops that it counts. A chain without members is refused when it is
  -- built.
  unfoldable pub first_to_serve : List (Member W A) → W → Result A × W × List Hop
  unfolding hop_or_raise
  first_to_serve [] w =
      (raised (other_exception (codes "a fallback chain needs at least one provider")), w, [])
  first_to_serve (p ∷ ps) w =
      let (r, w') = p.serve w in
      let rest = first_to_serve ps w' in
      elim r [
        | returned a ↦ (returned a, w', [])
        | raised e ↦ elim e [
          | provider_error exc ↦ hop_or_raise p ps rest exc w'
          | cancelled ↦ (raised cancelled, w', [])
          | other_exception t ↦ (raised (other_exception t), w', [])
        ]
      ]
