-- ===== src/Pricing.antt =====
-- The price table of src/vortex_ai_gateway/pricing.py. An amount of money is a whole number of the table's
-- smallest units, so that a cost per million tokens is exact: a cost is kept before the division by
-- `TOKENS_PER_UNIT`, in millionths of such a unit.
pub mod Rules
mod Tests
use vortex_ai_gateway.Base.{
  ℕ, ◌+◌, ◌*◌, Text, Bool, Option, none, some, List, [], ◌∷◌, ◌++◌, fnmatchcase, if◌then◌else◌,
}

pub record ModelPrice : Type 0 where
  pub prompt : ℕ
  pub completion : ℕ

-- `ModelPrice.cost`, times `TOKENS_PER_UNIT`
unfoldable pub price_cost : ModelPrice → ℕ → ℕ → ℕ
price_cost p prompt_tokens completion_tokens =
    p.prompt * prompt_tokens + p.completion * completion_tokens

-- `PriceTable`: its rules in order.
abbrev pub PriceTable : Type 0
PriceTable = List (Text × ModelPrice)

-- `PriceTable.price_of`
unfoldable pub price_of : PriceTable → Text → Option ModelPrice
price_of [] model = none
price_of ((pattern, price) ∷ rules) model =
    let rest = price_of rules model in if fnmatchcase model pattern then some price else rest

-- `PriceTable.cost`
unfoldable pub cost : PriceTable → Text → ℕ → ℕ → Option ℕ
unfolding price_of price_cost
cost prices model prompt_tokens completion_tokens = elim (price_of prices model) [
  | none ↦ none
  | some p ↦ some (price_cost p prompt_tokens completion_tokens)
]

-- `PriceTable.from_settings`, given the rules of the file: they stand before the built-in ones.
unfoldable pub layered : PriceTable → PriceTable → PriceTable
layered overrides builtin = overrides ++ builtin
