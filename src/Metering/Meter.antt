-- ===== src/Metering/Meter.antt =====
-- The operations of `Meter` of src/vortex_ai_gateway/metering.py. The limiter is there or not, as is the
-- ledger; the entries of the ledger are listed last first, and so are the counts of
-- Prometheus.
use vortex_ai_gateway.Base.{
  ℕ, Text, Bool, true, false, not, ◌&&◌, Option, none, some, List, ◌∷◌, ltb, if◌then◌else◌,
}
use vortex_ai_gateway.Config.{Settings}
use vortex_ai_gateway.Auth.Identity.{Principal, metered}
use vortex_ai_gateway.Contracts.Chat.{ChatCompletionRequest, TokenUsage}
use vortex_ai_gateway.RateLimit.Redis.{Server}
use vortex_ai_gateway.RateLimit.Limiter.{Link, Decision, unlimited, admit_request, reconcile}
use vortex_ai_gateway.RateLimit.Estimate.{estimate_tokens}
use vortex_ai_gateway.Pricing.{PriceTable, cost}

pub record Reservation : Type 0 where
  pub principal : Principal
  pub decision : Decision
  pub model : Text

-- What `admit` returns or raises: `RequestTooLargeError` with the estimate, or `RateLimitedError` with
-- the decision that its headers come from.
pub data Admission : Type 0 where
  reserved : Reservation → Admission
  too_large : ℕ → Admission
  rate_limited : Decision → Admission

-- One call of `SpendLedger.record`.
pub record Entry : Type 0 where
  pub key_id : Text
  pub model : Text
  pub prompt_tokens : ℕ
  pub completion_tokens : ℕ
  pub metered : Bool

-- One increment of `TOKENS` for the prompt and one for the completion, and the increment of `COST`. The model
-- is the one that `model_label` makes the label of.
pub record Count : Type 0 where
  pub model : Text
  pub prompt : ℕ
  pub completion : ℕ
  pub cost : Option ℕ

-- Whether the limiter and the ledger are configured, and the table of prices.
pub record Wiring : Type 0 where
  pub limiter : Bool
  pub ledger : Bool
  pub prices : Option PriceTable

module _ (server : Server) (prefix : Text) (wiring : Wiring) (settings : Settings) where
  open server use {State}

  answer : Principal → Text → Decision × State → Admission × State
  answer p model (decision, s) = (
    if decision.allowed
        then reserved (record { principal = p; decision = decision; model = model })
        else rate_limited decision,
    s,
  )

  -- `0 < principal.tpm < estimate` for a metered caller
  unfoldable pub never_fits : Principal → ℕ → Bool
  never_fits p estimate = metered p && ltb 0 p.tpm && ltb p.tpm estimate

  -- `admit`, at the time `now`
  unfoldable pub admit_metered :
      Link → ℕ → Principal → ChatCompletionRequest → State → Admission × State
  unfolding answer never_fits
  admit_metered link now p r s =
      if not wiring.limiter
      then (reserved (record { principal = p; decision = unlimited; model = r.model }), s)
      else if never_fits p (estimate_tokens r settings)
      then (too_large (estimate_tokens r settings), s)
      else answer p r.model (admit_request server prefix link now p (estimate_tokens r settings) s)

  -- `discard`
  unfoldable pub discard : Link → ℕ → Reservation → State → State
  discard link now v s =
      if wiring.limiter
      then reconcile server prefix link now v.principal v.decision.reserved_tokens 0 s
      else s

  abbrev pub cost_of : Text → TokenUsage → Option ℕ
  cost_of model u = elim wiring.prices [
    | none ↦ none
    | some prices ↦ cost prices model u.prompt_tokens u.completion_tokens
  ]

  -- `_count`
  count : Text → Option TokenUsage → List Count → List Count
  count model none counts = counts
  count model (some u) counts =
      record {
        model = model;
        prompt = u.prompt_tokens;
        completion = u.completion_tokens;
        cost = cost_of model u;
      }
      ∷ counts

  release : Link → ℕ → Reservation → Option TokenUsage → State → State
  release link now v none s = s
  release link now v (some u) s =
      if wiring.limiter
      then reconcile server prefix link now v.principal v.decision.reserved_tokens u.total_tokens s
      else s

  entry_for : Reservation → Option TokenUsage → Entry
  entry_for v none = record {
    key_id = v.principal.key_id;
    model = v.model;
    prompt_tokens = 0;
    completion_tokens = 0;
    metered = false;
  }
  entry_for v (some u) = record {
    key_id = v.principal.key_id;
    model = v.model;
    prompt_tokens = u.prompt_tokens;
    completion_tokens = u.completion_tokens;
    metered = true;
  }

  -- `settle`
  unfoldable pub settle_usage :
      Link
      → ℕ
      → Reservation
      → Option TokenUsage
      → State × List Entry × List Count
      → State × List Entry × List Count
  unfolding release entry_for count
  settle_usage link now v usage (s, entries, counts) = (
    release link now v usage s,
    if wiring.ledger then entry_for v usage ∷ entries else entries,
    count v.model usage counts,
  )
