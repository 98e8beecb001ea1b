-- ===== src/Metrics/Tests.antt =====
-- The theorem on a budget of two labels.
use vortex_ai_gateway.Base.{
  ◌≡◌, ◌≤◌, refl, Text, codes, Option, none, some, List, [], ◌∷◌, map, is_empty, mem_text, length,
  option_or, if◌then◌else◌,
}
use vortex_ai_gateway.Metrics.{unknown, LabelBudget, label_all}
use vortex_ai_gateway.Metrics.Labels.{label_all-label_in_bounded}

abbrev budget : LabelBudget
budget = record { limit = 2; overflow = codes "other" }

abbrev models : List (Option Text)
models = some (codes "a") ∷ none ∷ some (codes "b") ∷ some (codes "c") ∷ some (codes "a") ∷ []

models_run : label_all budget models [] ≡ (
  codes "a" ∷ codes "unknown" ∷ codes "b" ∷ codes "other" ∷ codes "a" ∷ [],
  codes "b" ∷ codes "a" ∷ [],
)
unfolding label_all
models_run = refl

label_all-label_in_bounded_example :
    let (labels, chosen) = label_all budget models [] in
    (length chosen ≤ 2)
    × (labels
        ≡ map
            (λ value.
              if is_empty (option_or value [])
              then unknown
              else if mem_text (option_or value []) chosen
              then option_or value []
              else codes "other")
            models)
label_all-label_in_bounded_example = label_all-label_in_bounded budget models
