-- ===== src/Semantic/Index.antt =====
-- `VectorIndex` of src/vortex_ai_gateway/semantic.py: a block of rows that doubles when it is full. The
-- rows past the size hold what `np.empty` left there, any vector.
pub mod Valid
pub mod Refine
use vortex_ai_gateway.Base.{
  ℕ, zero, suc, ◌+◌, ◌*◌, ◌==◌, Bool, true, false, not, ◌||◌, Option, none, some, List, [], ◌∷◌,
  ◌++◌, length, get_elem?, ltb, if◌then◌else◌,
}
use vortex_ai_gateway.Semantic.Nearest.{
  Operation, store, search, Reply, stored, refused, answer, Search, no_match, match_at,
  wrong_dimension, index_error,
}

module _ {ℓ} {A : Type ℓ} where
  unfoldable pub take : ℕ → List A → List A
  take zero xs = []
  take (suc n) [] = []
  take (suc n) (x ∷ xs) = x ∷ take n xs

  unfoldable pub replicate : ℕ → A → List A
  replicate zero x = []
  replicate (suc n) x = x ∷ replicate n x

  -- `rows[i] = x`
  unfoldable pub set : List A → ℕ → A → List A
  set [] i x = []
  set (y ∷ ys) zero x = x ∷ ys
  set (y ∷ ys) (suc i) x = y ∷ set ys i x

-- The matrix: its rows and their dimension.
pub record Block {ℓ} (V : Type ℓ) : Type ℓ where
  pub rows : List V
  pub width : ℕ

pub record VectorIndex {ℓ κ} (V : Type ℓ) (A : Type κ) : Type (ℓ ⊔ κ) where
  pub block : Option (Block V)
  pub size : ℕ
  pub responses : List A

module _ {ℓ} {V : Type ℓ} (junk : V) where
  -- The block that `add` writes to: one of twice the size when it is full.
  unfoldable pub grown : ℕ → Block V → Block V
  unfolding take replicate
  grown size b =
      if size == length b.rows
      then record b { rows = take size b.rows ++ replicate size junk }
      else b

module _ {ℓ} {V : Type ℓ} (similarity : V → V → ℕ) where
  -- `scores` and `np.argmax`, from a row with the index and the score of the best row before it.
  unfoldable pub argmax_from : V → ℕ → ℕ → ℕ → List V → ℕ × ℕ
  argmax_from v i best score [] = (best, score)
  argmax_from v i best score (w ∷ ws) =
      let better = ltb score (similarity w v) in
      argmax_from v (i + 1) (if better then i else best) (if better then similarity w v else score)
        ws

  unfoldable pub argmax : V → List V → Option (ℕ × ℕ)
  unfolding argmax_from
  argmax v [] = none
  argmax v (w ∷ ws) = some (argmax_from v 1 0 (similarity w v) ws)

-- `Match(score, self._responses[best])`
unfoldable pub response_at {ℓ} : {A : Type ℓ} → List A → Option (ℕ × ℕ) → Search A
response_at responses none = no_match
response_at responses (some (best, score)) = elim (get_elem? responses best) [
  | none ↦ index_error
  | some a ↦ match_at score a
]

module _ {ℓ κ} {V : Type ℓ} {A : Type κ} where
  unfoldable pub empty : VectorIndex V A
  empty = record { block = none; size = 0; responses = [] }

  -- The end of `add`, once the block is there.
  unfoldable pub put : V → V → A → VectorIndex V A → Block V → VectorIndex V A
  unfolding grown set
  put junk v a x b = record {
    block = some (record { rows = set (grown junk x.size b).rows x.size v; width = b.width });
    size = x.size + 1;
    responses = x.responses ++ (a ∷ []);
  }

module _ {ℓ κ} {V : Type ℓ} {A : Type κ} (dimension : V → ℕ) (similarity : V → V → ℕ)
    (junk : V) where
  -- `add`, `none` for its `ValueError`
  unfoldable pub add : V → A → VectorIndex V A → Option (VectorIndex V A)
  unfolding put replicate
  add v a x = elim x.block [
    | none ↦ some (put junk v a x (record { rows = replicate 16 junk; width = dimension v }))
    | some b ↦ if dimension v == b.width then some (put junk v a x b) else none
  ]

  -- `nearest`
  unfoldable pub nearest : V → VectorIndex V A → Search A
  unfolding argmax response_at take
  nearest v x = elim x.block [
    | none ↦ no_match
    | some b ↦
        if x.size == 0
        then no_match
        else if dimension v == b.width
        then response_at x.responses (argmax similarity v (take x.size b.rows))
        else wrong_dimension
  ]

  -- A client's calls in order, with what each answers.
  unfoldable pub run : VectorIndex V A → List (Operation V A) → List (Reply A)
  unfolding add nearest
  run x [] = []
  run x (store v a ∷ ops) = elim (add v a x) [
    | some x' ↦ stored ∷ run x' ops
    | none ↦ refused ∷ run x ops
  ]
  run x (search v ∷ ops) = answer (nearest v x) ∷ run x ops
