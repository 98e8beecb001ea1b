-- ===== src/Base/Maps.antt =====
-- A Python dict keyed by texts, in insertion order.
use mathlib.Core.Path.{◌≡◌, refl}
use mathlib.Core.Bool.{Bool, true, false}
use mathlib.Core.Option.{Option, none, some}
use mathlib.Core.List.{List, [], ◌∷◌, map}
use native.Mathlib.Omega.{arith}
use vortex_ai_gateway.Base.Tests.{if◌then◌else◌, is_some}
use vortex_ai_gateway.Base.Strings.{Text, text_eq, text_eq_iff}

abbrev pub Dict {ℓ} : Type ℓ → Type ℓ
Dict V = List (Text × V)

module _ {ℓ} {V : Type ℓ} where
  -- `d.get(k)`
  unfoldable pub lookup : Text → Dict V → Option V
  lookup k [] = none
  lookup k ((j, v) ∷ d) = if text_eq j k then some v else lookup k d

  -- `d[k] = v`
  unfoldable pub insert : Text → V → Dict V → Dict V
  insert k v [] = (k, v) ∷ []
  insert k v ((j, w) ∷ d) = if text_eq j k then (j, v) ∷ d else (j, w) ∷ insert k v d

  -- `del d[k]`, or a key that expired
  unfoldable pub erase : Text → Dict V → Dict V
  erase k [] = []
  erase k ((j, w) ∷ d) = if text_eq j k then erase k d else (j, w) ∷ erase k d

  -- `k in d`
  abbrev pub contains : Text → Dict V → Bool
  contains k d = is_some (lookup k d)

  abbrev pub keys : Dict V → List Text
  keys = map (λ e. e.0)

  pub lookup-insert :
      (j k : Text) (v : V) (d : Dict V)
      → lookup j (insert k v d) ≡ (if text_eq k j then some v else lookup j d)
  unfolding lookup insert
  lookup-insert j k v [] = refl
  lookup-insert j k v ((i, w) ∷ d) =
      ground (arith, text_eq_iff i k, text_eq_iff i j, text_eq_iff k j, lookup-insert j k v d)

-- `k in xs` for a list or a set of texts.
abbrev pub mem_text : Text → List Text → Bool
mem_text k [] = false
mem_text k (x ∷ xs) = if text_eq x k then true else mem_text k xs

pub lookup-erase {ℓ} :
    {V : Type ℓ} (j k : Text) (d : Dict V)
    → lookup j (erase k d) ≡ (if text_eq k j then none else lookup j d)
unfolding lookup erase
lookup-erase j k [] = ground arith
lookup-erase j k ((i, w) ∷ d) =
    ground (arith, text_eq_iff i k, text_eq_iff i j, text_eq_iff k j, lookup-erase j k d)
