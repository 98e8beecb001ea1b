-- ===== src/Pricing/Rules.antt =====
-- The order of the rules of src/vortex_ai_gateway/pricing.py.
use vortex_ai_gateway.Base.{◌≡◌, refl, Text, none, some, [], ◌∷◌, arith}
use vortex_ai_gateway.Pricing.{PriceTable, price_of, layered}

-- A rule of the operator's file wins over the built-in ones, which price whatever it leaves out.
pub price_of-layered :
    (overrides builtin : PriceTable) (model : Text)
    → price_of (layered overrides builtin) model
      ≡ (elim (price_of overrides model) [ some p ↦ some p | none ↦ price_of builtin model ])
unfolding layered price_of
price_of-layered [] builtin model = refl
price_of-layered ((pattern, price) ∷ rules) builtin model =
    ground (arith, price_of-layered rules builtin model)
