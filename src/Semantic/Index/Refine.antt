-- ===== src/Semantic/Index/Refine.antt =====
-- `VectorIndex` of src/vortex_ai_gateway/semantic.py behaves rs the list of its entries.
use vortex_ai_gateway.Base.{
  ℕ, zero, suc, ◌+◌, ◌≤◌, ◌<◌, ◌≡◌, ◌⊎◌, refl, ap, sym, ◌∙◌, List, [], ◌∷◌, ◌++◌, length,
  length-append, get_elem?, arith, ◌==◌, ltb, none, some, Option-cases, Bool-cases, inl, inr,
}
use Prim.{absurd}
use vortex_ai_gateway.Semantic.Nearest.{
  best_from, best_of, Entries, found, Operation, store, search, keep_entry, find, replies,
}
use vortex_ai_gateway.Semantic.Index.{
  take, replicate, Block, grown, argmax_from, argmax, response_at, VectorIndex, put, add, nearest,
  run,
}
use vortex_ai_gateway.Semantic.Index.Valid.{
  IsValid, length-replicate, length-set, length-take, take-set, grown-room,
}

module _ {ℓ κ} {V : Type ℓ} {A : Type κ} where
  unfoldable pub zip : List V → List A → List (V × A)
  zip [] rs = []
  zip (v ∷ vs) [] = []
  zip (v ∷ vs) (a ∷ rs) = (v, a) ∷ zip vs rs

  zip-append :
      (vs : List V) (rs : List A) (v : V) (a : A)
      → length vs ≡ length rs
      → zip (vs ++ (v ∷ [])) (rs ++ (a ∷ [])) ≡ zip vs rs ++ ((v, a) ∷ [])
  unfolding zip
  zip-append [] [] v a h = refl
  zip-append [] (b ∷ rs) v a h = absurd (omega arith)
  zip-append (w ∷ vs) [] v a h = absurd (omega arith)
  zip-append (w ∷ vs) (b ∷ rs) v a h = ap (λ xs. (w, b) ∷ xs) (zip-append vs rs v a (omega arith))

zip-take-zero {ℓ κ} :
    {V : Type ℓ} {A : Type κ} (n : ℕ) (vs : List V) (rs : List A) → n ≡ 0 → zip (take n vs) rs ≡ []
unfolding zip take
zip-take-zero zero vs rs e = refl
zip-take-zero (suc n) vs rs e = absurd (omega arith)

get_elem?-append {ℓ} :
    {A : Type ℓ} (before : List A) (a : A) (after : List A)
    → get_elem? (before ++ (a ∷ after)) (length before) ≡ some a
get_elem?-append [] a after = refl
get_elem?-append (b ∷ before) a after = get_elem?-append before a after

-- The block rs a list of entries.
unfoldable pub contents {ℓ κ} : {V : Type ℓ} {A : Type κ} → VectorIndex V A → Entries V A
unfolding zip
contents x = elim x.block [
  | none ↦ record { width = none; entries = [] }
  | some b ↦ record { width = some b.width; entries = zip (take x.size b.rows) x.responses }
]

append-snoc {ℓ} :
    {A : Type ℓ} (before : List A) (a : A) (after : List A)
    → (before ++ (a ∷ [])) ++ after ≡ before ++ (a ∷ after)
append-snoc [] a after = refl
append-snoc (b ∷ before) a after = ap (λ xs. b ∷ xs) (append-snoc before a after)

module _ {ℓ κ} {V : Type ℓ} {A : Type κ} (similarity : V → V → ℕ) where
  -- The row of the highest score, and so its response, is the best entry's.
  argmax_from-best :
      (v : V) (ws : List V) (rs before responses : List A) (i best score : ℕ) (a : A)
      → responses ≡ before ++ rs
      → i ≡ length before
      → length ws ≡ length rs
      → get_elem? responses best ≡ some a
      → response_at responses (some (argmax_from similarity v i best score ws))
        ≡ found (some (best_from similarity v (score, a) (zip ws rs)))
  unfolding response_at argmax_from best_from zip
  argmax_from-best v [] rs before responses i best score a split e h held = ground arith
  argmax_from-best v (w ∷ ws) [] before responses i best score a split e h held =
      absurd (omega arith)
  argmax_from-best v (w ∷ ws) (b ∷ rs) before responses i best score a split e h held =
      let snoc = before ++ (b ∷ []) in
      let split' : responses ≡ snoc ++ rs = split ∙ sym (append-snoc before b rs) in
      let longer : i + 1 ≡ length snoc = omega (arith, e, length-append before (b ∷ [])) in
      let here : get_elem? responses i ≡ some b = rw (split, e) (get_elem?-append before b rs) in
      elim (Bool-cases (ltb score (similarity w v))) [
        | inl better ↦ ground (
          arith,
          better,
          argmax_from-best v ws rs snoc responses (i + 1) i (similarity w v) b split' longer
              (omega (arith, h)) here,
        )
        | inr worse ↦ ground (
          arith,
          worse,
          argmax_from-best v ws rs snoc responses (i + 1) best score a split' longer
              (omega (arith, h)) held,
        )
      ]

  argmax-best :
      (v : V) (ws : List V) (rs : List A)
      → length ws ≡ length rs
      → response_at rs (argmax similarity v ws) ≡ found (best_of similarity v (zip ws rs))
  unfolding argmax best_of zip response_at
  argmax-best v [] [] h = refl
  argmax-best v [] (b ∷ rs) h = absurd (omega arith)
  argmax-best v (w ∷ ws) [] h = absurd (omega arith)
  argmax-best v (w ∷ ws) (b ∷ rs) h =
      argmax_from-best v ws rs (b ∷ []) (b ∷ rs) 1 0 (similarity w v) b refl refl (omega (arith, h))
        refl

module _ {ℓ κ} {V : Type ℓ} {A : Type κ} (junk : V) where
  -- What `put` leaves in a block with room or without.
  put-contents :
      (v : V) (a : A) (x : VectorIndex V A) (b : Block V)
      → length x.responses ≡ x.size
      → x.size ≤ length b.rows
      → 0 < length b.rows
      → (contents (put junk v a x b) ≡ record {
        width = some b.width;
        entries = zip (take x.size b.rows) x.responses ++ ((v, a) ∷ []);
      })
        × IsValid (put junk v a x b)
  unfolding contents put
  put-contents v a x b paired fits pos =
      let (room, same, wide) = grown-room junk x.size b fits pos in
      ground (
        arith,
        room,
        same,
        wide,
        take-set x.size (grown junk x.size b).rows v,
        length-set (grown junk x.size b).rows x.size v,
        length-take x.size b.rows fits,
        length-append x.responses (a ∷ []),
        zip-append (take x.size b.rows) x.responses v a,
      )

module _ {ℓ κ} {V : Type ℓ} {A : Type κ} (dimension : V → ℕ) (similarity : V → V → ℕ)
    (junk : V) where
  -- `add` appends an entry, or refuses a vector of another dimension; the index stays valid.
  add_refines :
      (v : V) (a : A) (x : VectorIndex V A)
      → IsValid x
      → ((x' : VectorIndex V A) × (add dimension similarity junk v a x ≡ some x')
          × IsValid x'
          × (keep_entry dimension similarity v a (contents x) ≡ some (contents x')))
        ⊎ ((add dimension similarity junk v a x ≡ none)
            × (keep_entry dimension similarity v a (contents x) ≡ none))
  unfolding add keep_entry contents
  add_refines v a x valid = elim (Option-cases x.block) [
    | inl bare ↦
        let b : Block V = record { rows = replicate 16 junk; width = dimension v } in
        let none_yet = valid.unused bare in
        let room : length b.rows ≡ 16 = length-replicate 16 junk in
        let (kept, good) = put-contents junk v a x b valid.paired (omega arith) (omega arith) in
        let blank : zip (take x.size b.rows) x.responses ≡ [] =
          zip-take-zero x.size b.rows x.responses none_yet in
        inl (put junk v a x b, ground (arith, bare), good, ground (arith, bare, kept, blank))
    | inr (b, there) ↦
        let (fits, live) = valid.fits b there in
        let (kept, good) = put-contents junk v a x b valid.paired fits (omega arith) in
        elim (Bool-cases (dimension v == b.width)) [
          | inl same ↦ inl (
            put junk v a x b,
            ground (arith, there, same),
            good,
            ground (arith, there, same, kept),
          )
          | inr other ↦ inr (ground (arith, there, other), ground (arith, there, other))
        ]
  ]

  nearest_refines :
      (v : V) (x : VectorIndex V A)
      → IsValid x
      → nearest dimension similarity junk v x ≡ find dimension similarity v (contents x)
  unfolding nearest find contents
  nearest_refines v x valid = elim (Option-cases x.block) [
    | inl bare ↦ ground (arith, bare)
    | inr (b, there) ↦
        let (fits, live) = valid.fits b there in
        ground (
          arith,
          there,
          live,
          valid.paired,
          argmax-best similarity v (take x.size b.rows) x.responses,
          length-take x.size b.rows fits,
        )
  ]

  -- No sequence of calls tells a valid index, with its blocks of rows that double, from the plain
  -- list of its entries: each call answers what the list answers, refusals included.
  pub run_refines :
      (ops : List (Operation V A)) (x : VectorIndex V A)
      → IsValid x
      → run dimension similarity junk x ops ≡ replies dimension similarity (contents x) ops
  unfolding run replies
  run_refines [] x valid = refl
  run_refines (store v a ∷ ops) x valid = elim (add_refines v a x valid) [
    | inl (x', added, good, kept) ↦ ground (arith, added, kept, run_refines ops x' good)
    | inr (bad, bad') ↦ ground (arith, bad, bad', run_refines ops x valid)
  ]
  run_refines (search v ∷ ops) x valid =
      ground (arith, nearest_refines v x valid, run_refines ops x valid)
