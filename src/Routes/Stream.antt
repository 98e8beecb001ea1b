-- ===== src/Routes/Stream.antt =====
-- `_stream_events` of src/vortex_ai_gateway/routes.py: the events of a stream and the record of it.
use vortex_ai_gateway.Base.{Option, none, some, List, [], ◌∷◌, ◌++◌, map}
use vortex_ai_gateway.Contracts.Chat.{ChatCompletionRequest, ChatCompletionChunk}
use vortex_ai_gateway.Providers.Errors.{Raised}
use vortex_ai_gateway.Streaming.Record.{StreamRecord, failed, abandoned, wants_usage, relay}
use vortex_ai_gateway.Routes
use vortex_ai_gateway.Routes.{Failure}

-- What is taken from a provider's stream: its chunks, and what it leaves or is left by: it runs out,
-- it raises, or a cancellation, also of a caller who hangs up, ends it.
pub record Chunks : Type 0 where
  pub chunks : List ChatCompletionChunk
  pub ending : Option Raised

-- One `data:` line: a chunk, the envelope of a failure, or the sentinel.
pub data Event : Type 0 where
  chunk_event : ChatCompletionChunk → Event
  error_event : Failure → Event
  done : Event

-- The last events of a stream that raised: `none` for a cancellation.
last_events : Option Failure → StreamRecord → List Event × StreamRecord
last_events none b = ([], record b { outcome = abandoned })
last_events (some f) b = (error_event f ∷ done ∷ [], record b { outcome = failed })

-- From the last chunk on.
unfoldable pub end_stream : Option Raised → StreamRecord → List Event × StreamRecord
unfolding last_events
end_stream none b = (done ∷ [], b)
end_stream (some e) b = last_events (Routes.failed e) b

-- `_stream_events`: what is sent, and the record that is logged and settled.
unfoldable pub stream_events :
    ChatCompletionRequest → Chunks → StreamRecord → List Event × StreamRecord
unfolding end_stream wants_usage relay
stream_events r taken b =
    let (sent, b') = relay (wants_usage r) taken.chunks b in
    let (ending, b'') = end_stream taken.ending b' in (map chunk_event sent ++ ending, b'')
