-- ===== src/Providers/Anthropic/Rounds.antt =====
-- `stream` of src/vortex_ai_gateway/providers/anthropic.py: Anthropic's events as chunks. An event comes as
-- what `json.loads` makes of its payload, and `str` of a JSON value is a parameter.
use vortex_ai_gateway.Base.{
  ℤ, Text, codes, Bool, Option, none, some, List, [], ◌∷◌, ◌++◌, length, lookup, option_or,
  is_empty, text_eq, if◌then◌else◌,
}
use vortex_ai_gateway.Contracts.Chat.{TokenUsage}
use vortex_ai_gateway.Contracts.Json.{
  Json, object, Fields, get_field, get, truthy, text_or_none, mapping_or_empty,
}
use vortex_ai_gateway.Providers.Errors.{
  unavailable, protocol, Raised, provider_error, other_exception,
}
use vortex_ai_gateway.Providers.Http.{failure}
use vortex_ai_gateway.Providers.Anthropic.Stream.{
  int_of, usage_of, stop_reasons, stream_errors, Delta, role_delta, content_delta, tool_start,
  tool_arguments, no_delta, Chunk, StreamState, Round, goes_on, ends_with, fails_with, ordinal_of,
  set_ordinal, decode_tool_use, mapping_of,
}

module _ (name : Text) (str : Json → Text) (wants_usage : Bool) where
  -- A step that needs what was read, or a protocol error.
  unfoldable pub with_read {ℓ} : {A : Type ℓ} → (A → Round) → Option A → Round
  with_read f (some a) = f a
  with_read f none = fails_with [] (provider_error (failure name protocol none none none))

  unfoldable pub chunk_of : StreamState → Option Delta → Option Text → Option TokenUsage → Chunk
  chunk_of s d reason usage = record {
    id = if is_empty s.completion_id then codes "chatcmpl-" ++ name else s.completion_id;
    upstream_model = s.upstream_model;
    delta = d;
    finish_reason = reason;
    usage = usage;
  }

  unfoldable pub says : Delta → StreamState → Round
  unfolding chunk_of
  says d s = goes_on (chunk_of s (some d) none none ∷ []) s

  -- `message_start`
  unfoldable pub on_message_start : StreamState → Fields → Round
  unfolding says get truthy
  on_message_start s message = says role_delta (record s {
    completion_id =
        if truthy (get (codes "id") message) then str (get (codes "id") message) else [];
    upstream_model = option_or (text_or_none (get (codes "model") message)) s.upstream_model;
    prompt_usage = get (codes "usage") message;
  })

  unfoldable pub start_tool : StreamState → ℤ → Text × Text → Round
  unfolding says set_ordinal
  start_tool s k (id, tool) =
      let n = length s.tool_ordinals in
      says (tool_start n id tool) (record s { tool_ordinals = set_ordinal k n s.tool_ordinals })

  -- `content_block_start`
  unfoldable pub on_block_start : StreamState → Fields → Fields → Round
  unfolding says start_tool with_read decode_tool_use get truthy
  on_block_start s event block =
      if text_eq (option_or (text_or_none (get (codes "type") block)) []) (codes "tool_use")
      then with_read (start_tool s (int_of (get (codes "index") event))) (decode_tool_use block)
      else if truthy (get (codes "text") block)
      then says (content_delta (str (get (codes "text") block))) s
      else goes_on [] s

  -- `str(body.get(key, ""))`
  unfoldable pub str_field : Text → Fields → Text
  unfolding get_field
  str_field k body = elim (get_field k body) [ none ↦ [] | some v ↦ str v ]

  -- `content_block_delta`
  unfoldable pub on_block_delta : StreamState → Fields → Fields → Round
  unfolding says str_field get ordinal_of
  on_block_delta s event body =
      let kind : Text = option_or (text_or_none (get (codes "type") body)) [] in
      if text_eq kind (codes "text_delta")
      then says (content_delta (str_field (codes "text") body)) s
      else if text_eq kind (codes "input_json_delta")
      then says
          (tool_arguments
            (option_or (ordinal_of (int_of (get (codes "index") event)) s.tool_ordinals) 0)
            (str_field (codes "partial_json") body))
          s
      else goes_on [] s

  unfoldable pub count_output : Json → StreamState → StreamState
  unfolding get
  count_output (object usage) s = record s {
    output_tokens = int_of (get (codes "output_tokens") usage);
  }
  count_output _ s = s

  -- `message_delta`
  unfoldable pub on_message_delta : StreamState → Fields → Fields → Round
  unfolding count_output get get_field
  on_message_delta s event body = goes_on [] (
      count_output (get (codes "usage") event)
        (record s { stop_reason = option_or (get_field (codes "stop_reason") body) s.stop_reason }))

  -- `error`, with the code of `_describe_stream_error`
  unfoldable pub on_error : Json → Round
  unfolding get lookup
  on_error error =
      let code = text_or_none (get (codes "type") (mapping_or_empty error)) in
      fails_with [] (
        provider_error (
          failure name (option_or (lookup (option_or code []) stream_errors) unavailable) none code
            none))

  -- `message_stop`, with `_finish_reason`; what `_usage` raises comes after the chunk that says why the
  -- model stopped.
  unfoldable pub on_message_stop : StreamState → Round
  unfolding chunk_of usage_of lookup
  on_message_stop s =
      let reason = option_or (lookup (str s.stop_reason) stop_reasons) (codes "stop") in
      let last = chunk_of s (some no_delta) (some reason) none in
      if wants_usage
      then elim (usage_of s.prompt_usage (some s.output_tokens)) [
        | none ↦ fails_with (last ∷ []) (other_exception (codes "ValidationError"))
        | some usage ↦ ends_with (last ∷ chunk_of s none none (some usage) ∷ [])
      ]
      else ends_with (last ∷ [])

  -- The `if` on the type of an event.
  unfoldable pub on_event : StreamState → Fields → Round
  unfolding on_message_start on_block_start on_block_delta on_message_delta on_error on_message_stop
      with_read get
  on_event s event =
      let kind : Text = option_or (text_or_none (get (codes "type") event)) [] in
      if text_eq kind (codes "message_start")
      then with_read (on_message_start s) (mapping_of (get (codes "message") event))
      else if text_eq kind (codes "content_block_start")
      then with_read (on_block_start s event) (mapping_of (get (codes "content_block") event))
      else if text_eq kind (codes "content_block_delta")
      then with_read (on_block_delta s event) (mapping_of (get (codes "delta") event))
      else if text_eq kind (codes "message_delta")
      then with_read (on_message_delta s event) (mapping_of (get (codes "delta") event))
      else if text_eq kind (codes "error")
      then on_error (get (codes "error") event)
      else if text_eq kind (codes "message_stop")
      then on_message_stop s
      else goes_on [] s

  unfoldable pub read_event : Option Json → Option Fields
  read_event none = none
  read_event (some j) = mapping_of j

  unfoldable pub round : StreamState → Option Json → Round
  unfolding on_event with_read read_event
  round s payload = with_read (on_event s) (read_event payload)

  -- The loop: the chunks that are sent, and the error that ends them if there is one.
  unfoldable pub stream_from : StreamState → List (Option Json) → List Chunk × Option Raised
  unfolding round
  stream_from s [] = ([], none)
  stream_from s (payload ∷ later) = elim (round s payload) [
    | goes_on chunks s' ↦ let (rest, e) = stream_from s' later in (chunks ++ rest, e)
    | ends_with chunks ↦ (chunks, none)
    | fails_with chunks e ↦ (chunks, some e)
  ]
