-- ===== src/Metrics/Labels.antt =====
-- The labels that a `LabelBudget` of src/vortex_ai_gateway/metrics.py gives.
use vortex_ai_gateway.Base.{
  ◌≡◌, ◌≤◌, ◌⊎◌, refl, ap, ◌∙◌, Text, Option, true, false, List, [], ◌∷◌, map, is_empty, mem_text,
  length, ltb, option_or, if◌then◌else◌, Bool-cases, inl, inr, arith, text_eq_refl,
}
use mathlib.Core.Path.{ap₂}
use vortex_ai_gateway.Metrics.{unknown, LabelBudget, label_of, label_all}

-- What a label is once the values are chosen.
unfoldable pub label_in : LabelBudget → List Text → Option Text → Text
label_in b chosen value =
    if is_empty (option_or value [])
    then unknown
    else if mem_text (option_or value []) chosen
    then option_or value []
    else b.overflow

label_of-grows :
    (b : LabelBudget) (value : Option Text) (seen : List Text) (v : Text)
    → mem_text v seen ≡ true
    → mem_text v (label_of b value seen).1 ≡ true
unfolding label_of
label_of-grows b value seen v h = ground arith

label_all-grows :
    (b : LabelBudget) (values : List (Option Text)) (seen : List Text) (v : Text)
    → mem_text v seen ≡ true
    → mem_text v (label_all b values seen).1 ≡ true
unfolding label_all
label_all-grows b [] seen v h = h
label_all-grows b (x ∷ values) seen v h =
    label_all-grows b values (label_of b x seen).1 v (label_of-grows b x seen v h)

label_of-full :
    (b : LabelBudget) (value : Option Text) (seen : List Text)
    → b.limit ≤ length seen
    → (label_of b value seen).1 ≡ seen
unfolding label_of
label_of-full b value seen full = ground arith

label_all-full :
    (b : LabelBudget) (values : List (Option Text)) (seen : List Text)
    → b.limit ≤ length seen
    → (label_all b values seen).1 ≡ seen
unfolding label_all
label_all-full b [] seen full = refl
label_all-full b (x ∷ values) seen full =
    let same = label_of-full b x seen full in
    ap (λ s. (label_all b values s).1) same ∙ label_all-full b values seen full

label_of-bounded :
    (b : LabelBudget) (value : Option Text) (seen : List Text)
    → length seen ≤ b.limit
    → length (label_of b value seen).1 ≤ b.limit
unfolding label_of
label_of-bounded b value seen h = ground arith

label_all-bounded :
    (b : LabelBudget) (values : List (Option Text)) (seen : List Text)
    → length seen ≤ b.limit
    → length (label_all b values seen).1 ≤ b.limit
unfolding label_all
label_all-bounded b [] seen h = h
label_all-bounded b (x ∷ values) seen h =
    label_all-bounded b values (label_of b x seen).1 (label_of-bounded b x seen h)

-- A value that gets its own name is chosen; one that does not meets a full budget.
label_of-cases :
    (b : LabelBudget) (value : Option Text) (seen : List Text)
    → let (label, seen') = label_of b value seen in
      let v = option_or value [] in
      ((is_empty v ≡ true) × (label ≡ unknown))
      ⊎ (((is_empty v ≡ false) × (label ≡ v) × (mem_text v seen' ≡ true))
          ⊎ ((is_empty v ≡ false)
              × (label ≡ b.overflow)
              × (mem_text v seen' ≡ false)
              × (b.limit ≤ length seen')))
unfolding label_of
label_of-cases b value seen =
    let v : Text = option_or value [] in
    elim (Bool-cases (is_empty v)) [
      | inl bare ↦ inl (bare, ground arith)
      | inr named ↦ elim (Bool-cases (mem_text v seen)) [
        | inl known ↦ inr (inl (named, ground arith, ground arith))
        | inr new ↦ elim (Bool-cases (ltb (length seen) b.limit)) [
          | inl room ↦ inr (inl (named, ground arith, ground (arith, text_eq_refl v)))
          | inr full ↦ inr (inr (named, ground arith, ground arith, ground arith))
        ]
      ]
    ]

label_of-label_in :
    (b : LabelBudget) (value : Option Text) (values : List (Option Text)) (seen : List Text)
    → let (label, seen') = label_of b value seen in
      label ≡ label_in b (label_all b values seen').1 value
unfolding label_in
label_of-label_in b value values seen =
    let v : Text = option_or value [] in
    let (label, seen') = label_of b value seen in
    elim (label_of-cases b value seen) [
      | inl (bare, e) ↦ e ∙ rw bare refl
      | inr (inl (named, e, known)) ↦ e ∙ rw (named, label_all-grows b values seen' v known) refl
      | inr (inr (named, e, new, full)) ↦
          e ∙ rw (named, label_all-full b values seen' full, new) refl
    ]

label_all-label_in :
    (b : LabelBudget) (values : List (Option Text)) (seen : List Text)
    → (label_all b values seen).0 ≡ map (label_in b (label_all b values seen).1) values
unfolding label_all
label_all-label_in b [] seen = refl
label_all-label_in b (x ∷ values) seen =
    ap₂ (λ l ls. l ∷ ls) (label_of-label_in b x values seen)
      (label_all-label_in b values (label_of b x seen).1)

-- From an empty budget, at most `limit` values are ever chosen, and every label that was given is what
-- the chosen values say: `unknown` for an empty value, its own name for a chosen one, and the
-- overflow for any other.
pub label_all-label_in_bounded :
    (b : LabelBudget) (values : List (Option Text))
    → let (labels, chosen) = label_all b values [] in
      (length chosen ≤ b.limit)
      × (labels
          ≡ map
              (λ value.
                if is_empty (option_or value [])
                then unknown
                else if mem_text (option_or value []) chosen
                then option_or value []
                else b.overflow)
              values)
unfolding label_in
label_all-label_in_bounded b values =
    (label_all-bounded b values [] (omega arith), label_all-label_in b values [])
