-- ===== src/Streaming/Relay.antt =====
-- What a relayed stream of src/vortex_ai_gateway/streaming.py sends and bills.
use vortex_ai_gateway.Base.{
  ◌≡◌, ◌+◌, refl, Bool, true, false, Option, none, some, is_some, List, [], ◌∷◌, ◌++◌, length, all,
  arith, not,
}
use vortex_ai_gateway.Contracts.Chat.{TokenUsage, ChunkChoice, ChatCompletionChunk}
use vortex_ai_gateway.Streaming.Record.{StreamRecord, observe, relay}

-- All the choices of a list of chunks, in order: what the caller reads.
unfoldable pub content_of : List ChatCompletionChunk → List ChunkChoice
content_of [] = []
content_of (c ∷ cs) = c.choices ++ content_of cs

-- The usage that the last chunk to carry one reports.
unfoldable pub last_usage : List ChatCompletionChunk → Option TokenUsage → Option TokenUsage
last_usage [] usage = usage
last_usage (c ∷ cs) usage = last_usage cs (elim c.usage [ none ↦ usage | some u ↦ some u ])

-- Whether or not its caller asked for usage, a stream delivers every choice in order, and its record
-- counts every chunk and ends with the usage that was reported last.
pub relay_complete :
    (forward : Bool) (chunks : List ChatCompletionChunk) (b : StreamRecord)
    → (content_of (relay forward chunks b).0 ≡ content_of chunks)
      × ((relay forward chunks b).1.chunks ≡ b.chunks + length chunks)
      × ((relay forward chunks b).1.usage ≡ last_usage chunks b.usage)
unfolding relay observe content_of last_usage
relay_complete forward [] b = (refl, omega arith, refl)
relay_complete forward (chunk ∷ later) b =
    let rest = relay_complete forward later (observe forward chunk b).1 in ground (arith, rest)

-- A caller who did not ask for usage is sent none; a caller who did is sent every chunk as it came.
pub relay-usage :
    (chunks : List ChatCompletionChunk) (b : StreamRecord)
    → (all (λ c. not (is_some c.usage)) (relay false chunks b).0 ≡ true)
      × ((relay true chunks b).0 ≡ chunks)
unfolding relay observe
relay-usage [] b = (refl, refl)
relay-usage (chunk ∷ later) b = (
  ground (arith, (relay-usage later (observe false chunk b).1).0),
  ground (arith, (relay-usage later (observe true chunk b).1).1),
)
