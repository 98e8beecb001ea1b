-- ===== src/Streaming/Tests.antt =====
-- The theorems on streams at a concrete stream.
use vortex_ai_gateway.Base.{◌≡◌, ◌+◌, codes, false, none, some, [], ◌∷◌, List, length}
use vortex_ai_gateway.Contracts.Chat.{TokenUsage, ChunkChoice, ChatCompletionChunk}
use vortex_ai_gateway.Streaming.Record.{completed, StreamRecord, relay}
use vortex_ai_gateway.Streaming.Relay.{content_of, last_usage, relay_complete}

abbrev used : TokenUsage
used = record { prompt_tokens = 3; completion_tokens = 4; total_tokens = 7 }

abbrev word : ChunkChoice
word = record { delta = codes "hi"; finish_reason = some (codes "stop") }

-- A chunk with a word and usage, and one with usage only.
abbrev chunks : List ChatCompletionChunk
chunks =
    record { choices = word ∷ []; usage = some used; vortex = none }
    ∷ record { choices = []; usage = some used; vortex = none }
    ∷ []

abbrev opening : StreamRecord
opening = record {
  provider = codes "router";
  model = codes "m";
  outcome = completed;
  chunks = 0;
  usage = none;
  finish_reason = none;
  upstream_model = none;
}

relay_complete_example :
    (content_of (relay false chunks opening).0 ≡ content_of chunks)
    × ((relay false chunks opening).1.chunks ≡ 0 + length chunks)
    × ((relay false chunks opening).1.usage ≡ last_usage chunks none)
relay_complete_example = relay_complete false chunks opening
