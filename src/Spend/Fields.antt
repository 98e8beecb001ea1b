-- ===== src/Spend/Fields.antt =====
-- The fields of a day's hash in src/vortex_ai_gateway/spend.py, written and read back.
use vortex_ai_gateway.Base.{
  ℕ, ◌≡◌, refl, sym, ap, subst, ◌∙◌, Text, true, false, ◌&&◌, none, [], ◌∷◌, ◌++◌, Dict, lookup,
  insert, lookup-insert, option_or, is_empty, text_eq, text_eq_iff, eq_of_text_eq, text_eq_refl,
  contains_code, ◌==◌, if◌then◌else◌, Bool-cases, inl, inr, arith,
}
use mathlib.Core.Path.{ap₂}
use vortex_ai_gateway.Spend.{
  Distinct, rpartition, Quantity, requests, unmetered, prompt, completion, name_of, ModelTotals,
  quantity_in, plus, field_of, totals_at, totals_from,
}

rpartition_absent :
    (sep : ℕ) (s : Text) → contains_code sep s ≡ false → rpartition sep s ≡ ([], false, s)
unfolding rpartition
rpartition_absent sep [] h = refl
rpartition_absent sep (c ∷ s) h = ground (arith, h, rpartition_absent sep s)

rpartition-append :
    (sep : ℕ) (m q : Text)
    → contains_code sep q ≡ false
    → rpartition sep (m ++ (sep ∷ q)) ≡ (m, true, q)
unfolding rpartition
rpartition-append sep [] q h = ground (arith, rpartition_absent sep q h)
rpartition-append sep (c ∷ m) q h = ground (arith, rpartition-append sep m q h)

rpartition_join :
    (sep : ℕ) (s : Text)
    → let (before, found, after) = rpartition sep s in found ≡ true → s ≡ before ++ (sep ∷ after)
unfolding rpartition
rpartition_join sep [] e = ground arith
rpartition_join sep (c ∷ s) e = elim (Bool-cases (rpartition sep s).1) [
  | inl later ↦ ground (arith, e, later, rpartition_join sep s later)
  | inr last ↦ elim (Bool-cases (c == sep)) [
    | inl here ↦ ground (arith, last, here)
    | inr elsewhere ↦ ground (arith, e, last, elsewhere)
  ]
]

name_of-plain : (q : Quantity) → contains_code b'|' (name_of q) ≡ false
name_of-plain requests = refl
name_of-plain unmetered = refl
name_of-plain prompt = refl
name_of-plain completion = refl

pub rpartition-field_of :
    (f m : Text) (q : Quantity)
    → f ≡ field_of m (name_of q)
    → rpartition b'|' f ≡ (m, true, name_of q)
rpartition-field_of f m q e =
    ap (rpartition b'|') e ∙ rpartition-append b'|' m (name_of q) (name_of-plain q)

field_of-parts :
    (f m : Text) (q : Quantity)
    → (rpartition b'|' f).1 ≡ true
    → (rpartition b'|' f).0 ≡ m
    → (rpartition b'|' f).2 ≡ name_of q
    → text_eq f (field_of m (name_of q)) ≡ true
field_of-parts f m q found model quantity =
    (text_eq_iff f (field_of m (name_of q))).1
      (rpartition_join b'|' f found ∙ ap₂ (λ x y. x ++ (b'|' ∷ y)) model quantity)

-- The field of a model and a quantity is the one that is split into them.
pub text_eq-field_of :
    (f m : Text) (q : Quantity)
    → let (model, found, quantity) = rpartition b'|' f in
      text_eq f (field_of m (name_of q))
      ≡ (found && (text_eq model m && text_eq quantity (name_of q)))
text_eq-field_of f m q = elim (Bool-cases (text_eq f (field_of m (name_of q)))) [
  | inl same ↦
      let parts = rpartition-field_of f m q (eq_of_text_eq f (field_of m (name_of q)) same) in
      same ∙ rw (parts, text_eq_refl m, text_eq_refl (name_of q)) refl
  | inr differ ↦
      let (model, found, quantity) = rpartition b'|' f in
      elim (Bool-cases (found && (text_eq model m && text_eq quantity (name_of q)))) [
        | inl all_same ↦ ground (
          arith,
          all_same,
          field_of-parts f m q,
          eq_of_text_eq model m,
          eq_of_text_eq quantity (name_of q),
        )
        | inr none_same ↦ differ ∙ sym none_same
      ]
]

quantity_in-plus :
    (q : Quantity) (t : Text) (n : ℕ) (totals : ModelTotals)
    → quantity_in q (plus t n totals) ≡ (if text_eq t (name_of q) then n else quantity_in q totals)
unfolding plus
quantity_in-plus requests t n totals = refl
quantity_in-plus unmetered t n totals = refl
quantity_in-plus prompt t n totals = refl
quantity_in-plus completion t n totals = refl

text_eq-empty : (a m : Text) → is_empty a ≡ true → is_empty m ≡ false → text_eq a m ≡ false
text_eq-empty [] [] bare named = ground arith
text_eq-empty [] (c ∷ m) bare named = refl
text_eq-empty (d ∷ a) m bare named = ground arith

rpartition-unfound :
    (sep : ℕ) (s : Text) → (rpartition sep s).1 ≡ false → is_empty (rpartition sep s).0 ≡ true
unfolding rpartition
rpartition-unfound sep [] h = refl
rpartition-unfound sep (c ∷ s) h = ground (arith, h)

-- One field more, of the model `model` and the quantity `t`.
quantity_in-insert :
    (model t m : Text) (q : Quantity) (n : ℕ) (totals : Dict ModelTotals)
    → quantity_in q (totals_at m (insert model (plus t n (totals_at model totals)) totals))
      ≡ (if text_eq model m && text_eq t (name_of q) then n else quantity_in q (totals_at m totals))
quantity_in-insert model t m q n totals =
    let found = lookup-insert m model (plus t n (totals_at model totals)) totals in
    elim (Bool-cases (text_eq model m)) [
      | inl same ↦
          rw (found, same)
            (quantity_in-plus q t n (totals_at model totals)
              ∙ ap (λ k. if text_eq t (name_of q) then n else quantity_in q (totals_at k totals))
                  (eq_of_text_eq model m same))
      | inr other ↦ rw (found, other) refl
    ]

-- What the loop over the fields makes of one quantity of one model: the field that is there, or what was
-- there before.
pub totals_from-quantity_in :
    (fs : Dict ℕ) (totals : Dict ModelTotals) (m : Text) (q : Quantity)
    → Distinct fs
    → is_empty m ≡ false
    → quantity_in q (totals_at m (totals_from fs totals))
      ≡ option_or (lookup (field_of m (name_of q)) fs) (quantity_in q (totals_at m totals))
unfolding Distinct totals_from lookup
totals_from-quantity_in [] totals m q distinct named = refl
totals_from-quantity_in ((f, n) ∷ fs) totals m q (new, distinct) named =
    let (model, found, t) = rpartition b'|' f in
    let parts = text_eq-field_of f m q in
    elim (Bool-cases (is_empty model)) [
      | inl bare ↦
          let differ : text_eq f (field_of m (name_of q)) ≡ false =
            ground (arith, parts, text_eq-empty model m bare named) in
          rw (bare, differ) (totals_from-quantity_in fs totals m q distinct named)
      | inr worded ↦
          let totals' = insert model (plus t n (totals_at model totals)) totals in
          let rest = totals_from-quantity_in fs totals' m q distinct named in
          let split : text_eq f (field_of m (name_of q))
              ≡ (text_eq model m && text_eq t (name_of q)) =
            ground (arith, parts, worded, rpartition-unfound b'|' f) in
          let one = quantity_in-insert model t m q n totals in
          elim (Bool-cases (text_eq f (field_of m (name_of q)))) [
            | inl same ↦
                let gone : lookup (field_of m (name_of q)) fs ≡ none =
                  subst (λ k. lookup k fs ≡ none) (eq_of_text_eq f (field_of m (name_of q)) same)
                    new in
                rw (worded, same) (rest ∙ rw (gone, one) (ground (arith, split, same)))
            | inr differ ↦
                rw (worded, differ)
                  (rest
                    ∙ ap (option_or (lookup (field_of m (name_of q)) fs))
                        (one ∙ ground (arith, split, differ)))
          ]
    ]
