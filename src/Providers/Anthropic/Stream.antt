-- ===== src/Providers/Anthropic/Stream.antt =====
-- The events of `stream` of src/vortex_ai_gateway/providers/anthropic.py: Anthropic's events as chunks. An event comes as
-- what `json.loads` makes of its payload, and `str` of a JSON value is a parameter.
use vortex_ai_gateway.Base.{
  ℕ, ℤ, pos, pos_part, ◌+ℤ◌, eq_ℤ, is_natural, Text, codes, ◌&&◌, ◌||◌, Option, none, some, List,
  [], ◌∷◌, Dict, option_or, is_empty, if◌then◌else◌,
}
use vortex_ai_gateway.Contracts.Chat.{TokenUsage}
use vortex_ai_gateway.Contracts.Json.{
  Json, null, number, object, Fields, get, text_or_none, mapping_or_empty,
}
use vortex_ai_gateway.Providers.Errors.{Kind, bad_request, auth, rate_limited, unavailable, Raised}

-- `_int`
abbrev pub int_of : Json → ℤ
int_of (number n) = n
int_of _ = pos 0

-- `_usage`; the completion is given or read. There is none where `TokenUsage` or `PromptTokensDetails` raises a
-- `ValidationError`, which they do on a negative count.
unfoldable pub usage_of : Json → Option ℤ → Option TokenUsage
unfolding get
usage_of raw output =
    let fields = mapping_or_empty raw in
    let cached = int_of (get (codes "cache_read_input_tokens") fields) in
    let prompt =
      int_of (get (codes "input_tokens") fields)
      +ℤ cached
      +ℤ int_of (get (codes "cache_creation_input_tokens") fields) in
    let completion = option_or output (int_of (get (codes "output_tokens") fields)) in
    let total = prompt +ℤ completion in
    if is_natural prompt && is_natural completion && is_natural total && is_natural cached
    then some (record {
      prompt_tokens = pos_part prompt;
      completion_tokens = pos_part completion;
      total_tokens = pos_part total;
    })
    else none

-- `STOP_REASONS`
abbrev pub stop_reasons : Dict Text
stop_reasons =
    (codes "end_turn", codes "stop")
    ∷ (codes "stop_sequence", codes "stop")
    ∷ (codes "pause_turn", codes "stop")
    ∷ (codes "max_tokens", codes "length")
    ∷ (codes "tool_use", codes "tool_calls")
    ∷ (codes "refusal", codes "content_filter")
    ∷ []

-- `STREAM_ERRORS`
abbrev pub stream_errors : Dict Kind
stream_errors =
    (codes "invalid_request_error", bad_request)
    ∷ (codes "authentication_error", auth)
    ∷ (codes "permission_error", auth)
    ∷ (codes "rate_limit_error", rate_limited)
    ∷ (codes "overloaded_error", unavailable)
    ∷ (codes "api_error", unavailable)
    ∷ []

-- `ChoiceDelta`, with its tool call by ordinal.
pub data Delta : Type 0 where
  role_delta : Delta
  content_delta : Text → Delta
  tool_start : ℕ → Text → Text → Delta
  tool_arguments : ℕ → Text → Delta
  no_delta : Delta

-- A chunk: its ID, the model upstream, what its choice says, and at the end why it stopped and the usage.
pub record Chunk : Type 0 where
  pub id : Text
  pub upstream_model : Text
  pub delta : Option Delta
  pub finish_reason : Option Text
  pub usage : Option TokenUsage

-- The local variables of the loop.
pub record StreamState : Type 0 where
  pub completion_id : Text
  pub upstream_model : Text
  pub prompt_usage : Json
  pub output_tokens : ℤ
  pub stop_reason : Json
  pub tool_ordinals : List (ℤ × ℕ)

-- One round: chunks and the variables after it, a `break` after the last chunks, or an
-- error after the last chunks.
pub data Round : Type 0 where
  goes_on : List Chunk → StreamState → Round
  ends_with : List Chunk → Round
  fails_with : List Chunk → Raised → Round

-- `tool_ordinals.get(k)`, and `tool_ordinals[k] = n`
unfoldable pub ordinal_of : ℤ → List (ℤ × ℕ) → Option ℕ
ordinal_of k [] = none
ordinal_of k ((j, n) ∷ os) = if eq_ℤ j k then some n else ordinal_of k os

unfoldable pub set_ordinal : ℤ → ℕ → List (ℤ × ℕ) → List (ℤ × ℕ)
set_ordinal k n [] = (k, n) ∷ []
set_ordinal k n ((j, m) ∷ os) = if eq_ℤ j k then (j, n) ∷ os else (j, m) ∷ set_ordinal k n os

-- `_decode_tool_use`: the ID and the name, or a protocol error.
unfoldable pub decode_tool_use : Fields → Option (Text × Text)
unfolding get
decode_tool_use block = elim (text_or_none (get (codes "id") block)) [
  | none ↦ none
  | some id ↦ elim (text_or_none (get (codes "name") block)) [
    | none ↦ none
    | some tool ↦ if is_empty id || is_empty tool then none else some (id, tool)
  ]
]

-- `_require_mapping`: a mapping, or a protocol error.
abbrev pub mapping_of : Json → Option Fields
mapping_of (object fs) = some fs
mapping_of _ = none

-- The variables before the first event.
unfoldable pub started : Text → StreamState
started model = record {
  completion_id = [];
  upstream_model = model;
  prompt_usage = null;
  output_tokens = pos 0;
  stop_reason = null;
  tool_ordinals = [];
}
