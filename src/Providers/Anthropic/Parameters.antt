-- ===== src/Providers/Anthropic/Parameters.antt =====
-- `_reject_unsupported` and `_translate_tool_choice` of src/vortex_ai_gateway/providers/anthropic.py: what a
-- request asks for besides its messages.
use vortex_ai_gateway.Base.{
  ℕ, ◌≡◌, ◌↔◌, Text, codes, Bool, true, false, not, Option, none, some, List, [], ◌∷◌, ◌==◌, ◌≢◌,
  ◌⊎◌, ℤ, pos, is_zero, is_some, option_or, if◌then◌else◌, arith,
}
use vortex_ai_gateway.Providers.Errors.{ProviderError, unsupported_parameter}

-- `response_format.type`
pub data ResponseFormat : Type 0 where
  text_format json_object json_schema : ResponseFormat

-- `service_tier`
pub data ServiceTier : Type 0 where
  auto_tier default_tier flex scale : ServiceTier

-- The parameters of a request that Anthropic may not honour. A penalty, and a bias by its token, is a
-- whole number of a unit as small as it takes; a predicted output is its text.
pub record Parameters : Type 0 where
  pub n : ℕ
  pub seed : Option ℤ
  pub logprobs : Bool
  pub top_logprobs : Option ℕ
  pub logit_bias : Option (List (Text × ℤ))
  pub frequency_penalty : ℤ
  pub presence_penalty : ℤ
  pub prediction : Option Text
  pub service_tier : Option ServiceTier
  pub store : Option Bool
  pub response_format : Option ResponseFormat

-- The table `unsupported`.
unfoldable pub unsupported : Parameters → List (Text × Bool)
unsupported p =
    (codes "n", not (p.n == 1))
    ∷ (codes "seed", is_some p.seed)
    ∷ (codes "logprobs", p.logprobs)
    ∷ (codes "top_logprobs", is_some p.top_logprobs)
    ∷ (codes "logit_bias", is_some p.logit_bias)
    ∷ (codes "frequency_penalty", not (is_zero p.frequency_penalty))
    ∷ (codes "presence_penalty", not (is_zero p.presence_penalty))
    ∷ (codes "prediction", is_some p.prediction)
    ∷ (codes "service_tier", is_some p.service_tier)
    ∷ (codes "store", option_or p.store false)
    ∷ []

unfoldable pub first_offending : List (Text × Bool) → Option Text
first_offending [] = none
first_offending ((name, offending) ∷ later) =
    let rest = first_offending later in if offending then some name else rest

-- `response_format is not None and response_format.type != "text"`
unfoldable pub wants_structure : Option ResponseFormat → Bool
wants_structure none = false
wants_structure (some text_format) = false
wants_structure (some json_object) = true
wants_structure (some json_schema) = true

-- The parameter that is refused, if any.
unfoldable pub refused_parameter : Parameters → Option Text
unfolding first_offending unsupported wants_structure
refused_parameter p = elim (first_offending (unsupported p)) [
  | some name ↦ some name
  | none ↦ if wants_structure p.response_format then some (codes "response_format") else none
]

-- `_reject_unsupported`
unfoldable pub reject_unsupported : Text → Parameters → Option ProviderError
unfolding refused_parameter
reject_unsupported name p = elim (refused_parameter p) [
  | none ↦ none
  | some parameter ↦ some (record {
    kind = unsupported_parameter;
    provider = name;
    status_code = none;
    code = some (codes "unsupported_parameter");
    parameter = some parameter;
    retry_after = none;
  })
]

-- `tool_choice`, if it is given.
pub data ToolChoice : Type 0 where
  auto_choice required_choice none_choice : ToolChoice
  named_choice : Text → ToolChoice

-- The type of the selection and the name of the tool, and `disable_parallel_tool_use`.
pub data Selection : Type 0 where
  use_auto use_any : Bool → Selection
  use_none : Selection
  use_tool : Text → Selection

-- `_translate_tool_choice`
unfoldable pub translate_tool_choice : Option ToolChoice → Bool → Option Selection
translate_tool_choice (some (named_choice tool)) parallel = some (use_tool tool)
translate_tool_choice (some required_choice) parallel = some (use_any (not parallel))
translate_tool_choice (some none_choice) parallel = some use_none
translate_tool_choice (some auto_choice) parallel = some (use_auto (not parallel))
translate_tool_choice none parallel = if parallel then none else some (use_auto true)

-- `_reject_unsupported` lets a request through exactly if each parameter of its table has the value that
-- asks for nothing, and no response format is asked for but text.
pub reject_unsupported-none_iff :
    (name : Text) (p : Parameters)
    → (reject_unsupported name p ≡ none) ↔ (
        (p.n ≡ 1)
        × (p.seed ≡ none)
        × (p.logprobs ≡ false)
        × (p.top_logprobs ≡ none)
        × (p.logit_bias ≡ none)
        × (p.frequency_penalty ≡ pos 0)
        × (p.presence_penalty ≡ pos 0)
        × (p.prediction ≡ none)
        × (p.service_tier ≡ none)
        × (p.store ≢ some true)
        × ((p.response_format ≡ none) ⊎ (p.response_format ≡ some text_format)))
unfolding reject_unsupported first_offending unsupported refused_parameter wants_structure
reject_unsupported-none_iff name p = ground arith
