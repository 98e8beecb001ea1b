-- ===== src/Semantic/Nearest.antt =====
-- What `VectorIndex` of src/vortex_ai_gateway/semantic.py stands for: the stored entries, oldest first, and
-- the search for the nearest one. A similarity is a natural number, the cosine shifted and scaled:
-- only its order is used.
use vortex_ai_gateway.Base.{ℕ, Option, none, some, List, [], ◌∷◌, ◌++◌, ◌==◌, ltb, if◌then◌else◌}

module _ {ℓ κ} {V : Type ℓ} {A : Type κ} (similarity : V → V → ℕ) where
  -- `np.argmax` with the score that it finds: the first entry of the highest score.
  unfoldable pub best_from : V → ℕ × A → List (V × A) → ℕ × A
  best_from v best [] = best
  best_from v best ((w, a) ∷ rest) =
      best_from v (if ltb best.0 (similarity w v) then (similarity w v, a) else best) rest

  unfoldable pub best_of : V → List (V × A) → Option (ℕ × A)
  unfolding best_from
  best_of v [] = none
  best_of v ((w, a) ∷ rest) = some (best_from v (similarity w v, a) rest)

-- The abstract index: the entries, and the dimension once there is one.
pub record Entries {ℓ κ} (V : Type ℓ) (A : Type κ) : Type (ℓ ⊔ κ) where
  pub width : Option ℕ
  pub entries : List (V × A)

-- `None`, `Match`, the `ValueError` of a vector of another dimension, or an index out of range.
pub data Search {ℓ} (A : Type ℓ) : Type ℓ where
  no_match : Search A
  match_at : ℕ → A → Search A
  wrong_dimension : Search A
  index_error : Search A

abbrev pub found {ℓ} : {A : Type ℓ} → Option (ℕ × A) → Search A
found none = no_match
found (some (score, a)) = match_at score a

-- What a client asks of an index, and what it sees.
pub data Operation {ℓ κ} (V : Type ℓ) (A : Type κ) : Type (ℓ ⊔ κ) where
  store : V → A → Operation V A
  search : V → Operation V A

pub data Reply {ℓ} (A : Type ℓ) : Type ℓ where
  stored refused : Reply A
  answer : Search A → Reply A

module _ {ℓ κ} {V : Type ℓ} {A : Type κ} (dimension : V → ℕ) (similarity : V → V → ℕ) where
  unfoldable pub keep_entry : V → A → Entries V A → Option (Entries V A)
  keep_entry v a e = elim e.width [
    | none ↦ some (record { width = some (dimension v); entries = e.entries ++ ((v, a) ∷ []) })
    | some w ↦
        if dimension v == w then some (record e { entries = e.entries ++ ((v, a) ∷ []) }) else none
  ]

  unfoldable pub find : V → Entries V A → Search A
  unfolding best_of
  find v e = elim e.width [
    | none ↦ no_match
    | some w ↦ if dimension v == w then found (best_of similarity v e.entries) else wrong_dimension
  ]

  unfoldable pub replies : Entries V A → List (Operation V A) → List (Reply A)
  replies e [] = []
  replies e (store v a ∷ ops) = elim (keep_entry v a e) [
    | some e' ↦ stored ∷ replies e' ops
    | none ↦ refused ∷ replies e ops
  ]
  replies e (search v ∷ ops) = answer (find v e) ∷ replies e ops
