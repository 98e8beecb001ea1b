-- ===== src/Pricing/Tests.antt =====
-- Prices at a concrete table.
use vortex_ai_gateway.Base.{fnmatchcase, ◌≡◌, refl, codes, none, some, [], ◌∷◌}
use vortex_ai_gateway.Pricing.{ModelPrice, PriceTable, cost}

abbrev mini : ModelPrice
mini = record { prompt = 15; completion = 60 }

abbrev dear : ModelPrice
dear = record { prompt = 250; completion = 1000 }

abbrev builtin : PriceTable
builtin = (codes "gpt-4o-mini*", mini) ∷ (codes "gpt-4o*", dear) ∷ []

-- The first rule that matches sets the price; a model without a rule has none.
cost_run : cost builtin (codes "gpt-4o-mini-2024") 2 3 ≡ some 210
unfolding cost fnmatchcase
cost_run = refl

no_cost_run : cost builtin (codes "llama3") 2 3 ≡ none
unfolding cost fnmatchcase
no_cost_run = refl
