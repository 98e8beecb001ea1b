-- ===== src/Providers/Fallback/Chain.antt =====
-- Which member of a chain answers, and which are called at all.
use vortex_ai_gateway.Base.{◌≡◌, Bool, true, not, List, [], ◌∷◌, ◌++◌, length, arith}
use vortex_ai_gateway.Providers.Errors.{
  ProviderError, provider_error, cancelled, other_exception, Result, returned, raised,
}
use vortex_ai_gateway.Providers.Fallback.{Member, is_hoppable, first_to_serve}

-- A result that no other member gets a try at.
abbrev pub is_decisive {ℓ} : {A : Type ℓ} → Result A → Bool
is_decisive (returned a) = true
is_decisive (raised (provider_error e)) = not (is_hoppable e)
is_decisive (raised cancelled) = true
is_decisive (raised (other_exception t)) = true

-- Every one of these members, called in turn, fails in a way that may be hopped.
pub data Skips {ℓ κ} (W : Type ℓ) (A : Type κ) : List (Member W A) → W → W → Type (ℓ ⊔ κ) where
  none_left : {w : W} → Skips W A [] w w
  skip :
      {p : Member W A} {ps : List (Member W A)} {w w' w'' : W} (exc : ProviderError)
      → p.serve w ≡ (raised (provider_error exc), w')
      → is_hoppable exc ≡ true
      → Skips W A ps w' w''
      → Skips W A (p ∷ ps) w w''

module _ {ℓ κ} {W : Type ℓ} {A : Type κ} where
  first_to_serve_head :
      (after : List (Member W A)) (p : Member W A) (w w' : W) (r : Result A)
      → p.serve w ≡ (r, w')
      → is_decisive r ≡ true
      → first_to_serve (p ∷ after) w ≡ (r, w', [])
  unfolding first_to_serve
  first_to_serve_head [] p w w' r e d = ground arith
  first_to_serve_head (q ∷ qs) p w w' r e d = ground arith

  first_to_serve_hop :
      (p : Member W A) (q : Member W A) (qs : List (Member W A)) (w w' : W) (exc : ProviderError)
      → p.serve w ≡ (raised (provider_error exc), w')
      → is_hoppable exc ≡ true
      → first_to_serve (p ∷ q ∷ qs) w ≡ (
          let (r, v, hops) = first_to_serve (q ∷ qs) w' in
          (r, v, record { from_provider = p.name; to_provider = q.name } ∷ hops))
  unfolding first_to_serve
  first_to_serve_hop p q qs w w' exc e h = ground arith

  -- A chain answers with the first decisive result. If the members before `p` all fail in a way that
  -- may be hopped, and `p` then gives a result that is a value or a failure that may not, that is
  -- the chain's result, the members after `p` are never called, and one hop is counted for each
  -- member that was skipped.
  pub first_to_serve-decisive :
      (before after : List (Member W A)) (p : Member W A) (w w' w'' : W) (r : Result A)
      → Skips W A before w w'
      → p.serve w' ≡ (r, w'')
      → is_decisive r ≡ true
      → let (r', v, hops) = first_to_serve (before ++ p ∷ after) w in
        (r' ≡ r) × (v ≡ w'') × (length hops ≡ length before)
  first_to_serve-decisive [] after p w w' w'' r none_left e d =
      ground (arith, first_to_serve_head after p w w'' r e d)
  first_to_serve-decisive (m ∷ []) after p w w' w'' r (skip exc f h none_left) e d = ground (
    arith,
    first_to_serve_hop m p after w w' exc f h,
    first_to_serve-decisive [] after p w' w' w'' r none_left e d,
  )
  first_to_serve-decisive (m ∷ (q ∷ qs)) after p w w' w'' r (skip {w' = v} exc f h rest) e d =
      ground (
        arith,
        first_to_serve_hop m q (qs ++ p ∷ after) w v exc f h,
        first_to_serve-decisive (q ∷ qs) after p v w' w'' r rest e d,
      )

  -- When every member fails in a way that may be hopped, the chain raises the last member's failure.
  pub first_to_serve_exhausted :
      (before : List (Member W A)) (p : Member W A) (w w' w'' : W) (exc : ProviderError)
      → Skips W A before w w'
      → p.serve w' ≡ (raised (provider_error exc), w'')
      → let (r, v, hops) = first_to_serve (before ++ p ∷ []) w in
        (r ≡ raised (provider_error exc)) × (v ≡ w'') × (length hops ≡ length before)
  unfolding first_to_serve
  first_to_serve_exhausted [] p w w' w'' exc none_left e = ground arith
  first_to_serve_exhausted (m ∷ []) p w w' w'' exc (skip fault f h none_left) e = ground (
    arith,
    first_to_serve_hop m p [] w w' fault f h,
    first_to_serve_exhausted [] p w' w' w'' exc none_left e,
  )
  first_to_serve_exhausted (m ∷ (q ∷ qs)) p w w' w'' exc (skip {w' = v} fault f h rest) e = ground (
    arith,
    first_to_serve_hop m q (qs ++ p ∷ []) w v fault f h,
    first_to_serve_exhausted (q ∷ qs) p v w' w'' exc rest e,
  )
