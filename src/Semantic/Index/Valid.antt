-- ===== src/Semantic/Index/Valid.antt =====
-- The rows of `VectorIndex` of src/vortex_ai_gateway/semantic.py: blocks, and what writing to them does.
use vortex_ai_gateway.Base.{
  ℕ, zero, suc, ◌+◌, ◌≤◌, ◌<◌, ◌≡◌, refl, List, [], ◌∷◌, ◌++◌, length, length-append, arith, none,
  some,
}
use Prim.{absurd}
use vortex_ai_gateway.Semantic.Index.{take, replicate, set, Block, grown, VectorIndex, empty}

module _ {ℓ} {A : Type ℓ} where
  pub length-replicate : (n : ℕ) (x : A) → length (replicate n x) ≡ n
  unfolding replicate
  length-replicate zero x = refl
  length-replicate (suc n) x = omega (arith, length-replicate n x)

  pub length-take : (n : ℕ) (xs : List A) → n ≤ length xs → length (take n xs) ≡ n
  unfolding take
  length-take zero xs h = refl
  length-take (suc n) [] h = absurd (omega arith)
  length-take (suc n) (x ∷ xs) h = omega (arith, length-take n xs (omega arith))

  pub length-set : (xs : List A) (i : ℕ) (x : A) → length (set xs i x) ≡ length xs
  unfolding set
  length-set [] i x = refl
  length-set (y ∷ ys) zero x = refl
  length-set (y ∷ ys) (suc i) x = omega (arith, length-set ys i x)

  -- Writing just past a prefix extends it.
  pub take-set :
      (n : ℕ) (xs : List A) (x : A)
      → n < length xs
      → take (n + 1) (set xs n x) ≡ take n xs ++ (x ∷ [])
  unfolding take set
  take-set zero [] x h = absurd (omega arith)
  take-set zero (y ∷ ys) x h = ground arith
  take-set (suc n) [] x h = absurd (omega arith)
  take-set (suc n) (y ∷ ys) x h = ground (arith, take-set n ys x (omega arith))

  pub take-append : (n : ℕ) (xs ys : List A) → n ≤ length xs → take n (xs ++ ys) ≡ take n xs
  unfolding take
  take-append zero xs ys h = refl
  take-append (suc n) [] ys h = absurd (omega arith)
  take-append (suc n) (x ∷ xs) ys h = ground (arith, take-append n xs ys (omega arith))

  pub take-take : (n : ℕ) (xs : List A) → take n (take n xs) ≡ take n xs
  unfolding take
  take-take zero xs = refl
  take-take (suc n) [] = refl
  take-take (suc n) (x ∷ xs) = ground (arith, take-take n xs)

-- The live rows fit into the block, which is made for the first of them, and each has its response.
pub record IsValid {ℓ κ} {V : Type ℓ} {A : Type κ} (x : VectorIndex V A) : Type (ℓ ⊔ κ) where
  pub paired : length x.responses ≡ x.size
  pub unused : x.block ≡ none → x.size ≡ 0
  pub fits : (b : Block V) → x.block ≡ some b → (x.size ≤ length b.rows) × (0 < x.size)

module _ {ℓ κ} {V : Type ℓ} {A : Type κ} where
  pub empty-IsValid : IsValid (empty {V = V} {A = A})
  unfolding empty
  empty-IsValid = ground arith

module _ {ℓ} {V : Type ℓ} where
  -- A block that can take the next row, with the live rows in it.
  pub grown-room :
      (junk : V) (size : ℕ) (b : Block V)
      → size ≤ length b.rows
      → 0 < length b.rows
      → (size < length (grown junk size b).rows)
        × (take size (grown junk size b).rows ≡ take size b.rows)
        × ((grown junk size b).width ≡ b.width)
  unfolding grown
  grown-room junk size b h pos = ground (
    arith,
    length-append (take size b.rows) (replicate size junk),
    length-take size b.rows h,
    length-replicate size junk,
    take-append size (take size b.rows) (replicate size junk),
    take-take size b.rows,
  )
