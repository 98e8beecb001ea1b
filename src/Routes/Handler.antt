-- ===== src/Routes/Handler.antt =====
-- `create_chat_completion` of src/vortex_ai_gateway/routes.py as a whole, on the stages of Routes.Flow.
pub mod Bill
pub mod Kept
pub mod Repeat
pub mod Streamed
mod Tests
use vortex_ai_gateway.Base.{Text, Option, none, some, List, [], ◌∷◌, if◌then◌else◌}
use vortex_ai_gateway.Contracts.Chat.{ChatCompletionRequest, ChatCompletionResponse}
use vortex_ai_gateway.Cache.Store.{Found}
use vortex_ai_gateway.Semantic.Cache.{Nearby}
use vortex_ai_gateway.Metering.Meter.{
  Reservation, Admission, reserved, too_large, rate_limited, admit_metered,
}
use vortex_ai_gateway.Streaming.Record.{
  StreamRecord, StreamOutcome, completed, failed, abandoned, metered_request,
}
use vortex_ai_gateway.Providers.Errors.{Raised}
use vortex_ai_gateway.Routes
use vortex_ai_gateway.Routes.{Failure}
use vortex_ai_gateway.Routes.Stream.{Chunks, stream_events}
use vortex_ai_gateway.Routes.Flow.{
  Gateway, World, Weather, Headers, Reply, answered, streamed, failed_with, turned_away, escaped,
  Ask, settled, discarded, looked_up, looked_near, headers_of, cached_of, from_cache, complete_with,
}

-- `StreamRecord(provider=provider.name, model=request.model)`
abbrev pub new_record : Text → ChatCompletionRequest → StreamRecord
new_record name r = record {
  provider = name;
  model = r.model;
  outcome = completed;
  chunks = 0;
  usage = none;
  finish_reason = none;
  upstream_model = none;
}

module _ (g : Gateway) where
  unfoldable pub log : StreamRecord → World g → World g
  log b w = record w { logs = b ∷ w.logs }

  -- A stream that fails before its first chunk: a status, or a cancellation that is let through.
  unfoldable pub unopened :
      Weather → Headers → Reservation → StreamRecord → Option Failure → World g → Reply × World g
  unfolding settled discarded log
  unopened weather headers v b none w =
      (escaped, settled g weather v b.usage (log (record b { outcome = abandoned }) w))
  unopened weather headers v b (some f) w =
      (failed_with headers f, discarded g weather v (log (record b { outcome = failed }) w))

  -- `_stream_events` with its `finally`
  unfoldable pub opened :
      Ask → Headers → Reservation → StreamRecord → Chunks → World g → Reply × World g
  unfolding settled log stream_events
  opened ask headers v b taken w =
      let (events, b') = stream_events ask.request taken b in
      (streamed headers events, settled g ask.weather v b'.usage (log b' w))

  -- From the stream in hand on: whether it raises before its first chunk.
  unfoldable pub stream_with :
      Ask → Headers → Reservation → StreamRecord → Chunks → World g → Reply × World g
  unfolding unopened opened
  stream_with ask headers v b taken w = elim taken.chunks [
    | [] ↦ elim taken.ending [
      | none ↦ opened ask headers v b taken w
      | some e ↦ unopened ask.weather headers v b (Routes.failed e) w
    ]
    | c ∷ cs ↦ opened ask headers v b taken w
  ]

  -- The provider, asked for a stream or a whole answer.
  unfoldable pub asked : Ask → Found → Nearby g.Vector → Reservation → World g → Reply × World g
  unfolding stream_with complete_with metered_request
  asked ask found near v w =
      if ask.request.stream
      then (let (taken, upstream) = g.open_stream (metered_request ask.request) w.upstream in
          stream_with ask (headers_of g v found near) v (new_record g.provider ask.request) taken
            (record w { upstream = upstream }))
      else (let (result, upstream) = g.complete ask.request w.upstream in
          complete_with g ask.weather found near v result (record w { upstream = upstream }))

  -- From the two lookups on.
  unfoldable pub answer_or_ask :
      Ask
      → Found
      → Nearby g.Vector
      → Option ChatCompletionResponse
      → Reservation
      → World g
      → Reply × World g
  unfolding asked from_cache
  answer_or_ask ask found near (some a) v w =
      (answered (headers_of g v found near) a, from_cache g ask.weather found v a w)
  answer_or_ask ask found near none v w = asked ask found near v w

  -- From the first lookup on.
  unfoldable pub on_found : Ask → Reservation → Found × World g → Reply × World g
  unfolding answer_or_ask looked_near
  on_found ask v (found, w) =
      let (near, w') = looked_near g ask found w in
      answer_or_ask ask found near (cached_of g found near) v w'

  -- From the reservation on.
  unfoldable pub on_admission : Ask → Admission → World g → Reply × World g
  unfolding on_found looked_up
  on_admission ask (reserved v) w = on_found ask v (looked_up g ask w)
  on_admission ask (too_large n) w = (turned_away (too_large n), w)
  on_admission ask (rate_limited d) w = (turned_away (rate_limited d), w)

  -- `create_chat_completion`
  unfoldable pub create_chat_completion : Ask → World g → Reply × World g
  unfolding on_admission admit_metered
  create_chat_completion ask w =
      let (admission, buckets) =
        admit_metered g.limits g.prefix g.wiring g.settings ask.weather.admit_link
          ask.weather.admit_at ask.principal ask.request w.buckets in
      on_admission ask admission (record w { buckets = buckets })
