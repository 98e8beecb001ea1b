-- ===== src/Streaming/Record.antt =====
-- `StreamRecord`, `metered` and `wants_usage` of src/vortex_ai_gateway/streaming.py.
use vortex_ai_gateway.Base.{
  ℕ, ◌+◌, Text, Bool, true, false, Option, none, some, List, [], ◌∷◌, if◌then◌else◌,
}
use vortex_ai_gateway.Contracts.Chat.{
  ChatCompletionRequest, TokenUsage, GatewayMetadata, ChunkChoice, ChatCompletionChunk,
}

-- `wants_usage`
unfoldable pub wants_usage : ChatCompletionRequest → Bool
wants_usage r = elim r.stream_options [ none ↦ false | some o ↦ o.include_usage ]

-- `metered`
unfoldable pub metered_request : ChatCompletionRequest → ChatCompletionRequest
unfolding wants_usage
metered_request r =
    if wants_usage r
    then r
    else record r { stream_options = some (record { include_usage = true }) }

pub data StreamOutcome : Type 0 where
  completed failed abandoned : StreamOutcome

-- `StreamRecord`, without the time it started at.
pub record StreamRecord : Type 0 where
  pub provider : Text
  pub model : Text
  pub outcome : StreamOutcome
  pub chunks : ℕ
  pub usage : Option TokenUsage
  pub finish_reason : Option Text
  pub upstream_model : Option Text

note_provider : Option GatewayMetadata → StreamRecord → StreamRecord
note_provider none b = b
note_provider (some v) b = record b {
  provider = v.provider;
  upstream_model = some v.upstream_model;
}

-- The loop over the choices: the last reason that is given stands.
last_reason : List ChunkChoice → Option Text → Option Text
last_reason [] reason = reason
last_reason (c ∷ cs) reason =
    last_reason cs (elim c.finish_reason [ none ↦ reason | some f ↦ some f ])

-- A chunk without its usage, if anything is left of it.
withhold : ChatCompletionChunk → Option ChatCompletionChunk
withhold chunk = elim chunk.choices [ [] ↦ none | c ∷ cs ↦ some (record chunk { usage = none }) ]

pass_on : Bool → ChatCompletionChunk → StreamRecord → Option ChatCompletionChunk × StreamRecord
unfolding withhold
pass_on forward_usage chunk b = elim chunk.usage [
  | none ↦ (some chunk, b)
  | some u ↦ (if forward_usage then some chunk else withhold chunk, record b { usage = some u })
]

-- `observe`
unfoldable pub observe :
    Bool → ChatCompletionChunk → StreamRecord → Option ChatCompletionChunk × StreamRecord
unfolding pass_on note_provider last_reason
observe forward_usage chunk b =
    let b' = note_provider chunk.vortex (record b { chunks = b.chunks + 1 }) in
    pass_on forward_usage chunk
      (record b' { finish_reason = last_reason chunk.choices b'.finish_reason })

keep_chunk : Option ChatCompletionChunk → List ChatCompletionChunk → List ChatCompletionChunk
keep_chunk none sent = sent
keep_chunk (some c) sent = c ∷ sent

-- A relay of chunks by way of `observe`: what the caller is sent, and the record at the end.
unfoldable pub relay :
    Bool → List ChatCompletionChunk → StreamRecord → List ChatCompletionChunk × StreamRecord
unfolding observe keep_chunk
relay forward_usage [] b = ([], b)
relay forward_usage (chunk ∷ later) b =
    let (sent, b') = observe forward_usage chunk b in
    let (rest, b'') = relay forward_usage later b' in (keep_chunk sent rest, b'')
