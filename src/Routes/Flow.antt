-- ===== src/Routes/Flow.antt =====
-- `create_chat_completion` of src/vortex_ai_gateway/routes.py: a request through the meter, the two
-- caches and the provider. Spans and metric labels are left out.
use vortex_ai_gateway.Base.{
  ℕ, Text, Bool, true, false, not, ◌&&◌, Option, none, some, List, is_some, Dict, if◌then◌else◌,
}
use vortex_ai_gateway.Config.{Settings}
use vortex_ai_gateway.Auth.Identity.{Principal}
use vortex_ai_gateway.Contracts.Chat.{ChatCompletionRequest, ChatCompletionResponse, TokenUsage}
use vortex_ai_gateway.RateLimit.Redis.{Server as LimitServer}
use vortex_ai_gateway.RateLimit.Limiter.{Link, Decision}
use vortex_ai_gateway.Metering.Meter.{
  Reservation, Admission, Entry, Count, Wiring, discard, settle_usage,
}
use vortex_ai_gateway.Cache.Store.{Server as CacheServer}
use vortex_ai_gateway.Cache.Store.{
  Payload, Found, CacheStats, CacheOutcome, bypass, ResponseCache, find_response, store_response,
}
use vortex_ai_gateway.Semantic.Cache.{
  Nearby, SemanticState, SemanticCache, find_nearby, skip_nearby, store_nearby,
}
use vortex_ai_gateway.Streaming.Record.{StreamRecord}
use vortex_ai_gateway.Providers.Errors.{Result, returned, raised}
use vortex_ai_gateway.Routes.{Failure, failed}
use vortex_ai_gateway.Routes.Stream.{Chunks, Event}

-- What `create_chat_router` is given: the meter with its server, the response cache with its own, the
-- semantic cache, and the provider, which keeps a state.
pub record Gateway : Type 1 where
  pub limits : LimitServer
  pub prefix : Text
  pub wiring : Wiring
  pub settings : Settings
  pub store : CacheServer
  pub dumps : Payload → Text
  pub sha256 : Text → Text
  pub print : ChatCompletionResponse → Text
  pub parse : Text → Option ChatCompletionResponse
  pub cache : ResponseCache
  pub Vector : Type 0
  pub semantic : SemanticCache Vector
  pub provider : Text
  pub Upstream : Type 0
  pub complete : ChatCompletionRequest → Upstream → Result ChatCompletionResponse × Upstream
  pub open_stream : ChatCompletionRequest → Upstream → Chunks × Upstream

-- What the handler reads and writes; the logs are those of streams, last first.
pub record World (g : Gateway) : Type 0 where
  pub buckets : g.limits.State
  pub entries : List Entry
  pub counts : List Count
  pub kept : g.store.State
  pub cache_stats : CacheStats
  pub near : SemanticState g.Vector
  pub upstream : g.Upstream
  pub logs : List StreamRecord

-- When, and whether, Redis answers the request's calls of it.
pub record Weather : Type 0 where
  pub admit_link : Link
  pub admit_at : ℕ
  pub settle_link : Link
  pub settle_at : ℕ
  pub get_up : Bool
  pub set_up : Bool

-- `headers`: what the reservation and the two lookups put on the answer.
pub record Headers : Type 0 where
  pub decision : Decision
  pub exact : Option CacheOutcome
  pub semantic : Option CacheOutcome
  pub score : Option ℕ

-- What the handler answers or raises: `escaped` for what it lets through.
pub data Reply : Type 0 where
  answered : Headers → ChatCompletionResponse → Reply
  streamed : Headers → List Event → Reply
  failed_with : Headers → Failure → Reply
  turned_away : Admission → Reply
  escaped : Reply

-- `CACHED_USAGE`
abbrev pub cached_usage : TokenUsage
cached_usage = record { prompt_tokens = 0; completion_tokens = 0; total_tokens = 0 }

-- A request with its caller, route and headers, and the calls of Redis.
pub record Ask : Type 0 where
  pub principal : Principal
  pub request : ChatCompletionRequest
  pub path : Text
  pub headers : Dict Text
  pub weather : Weather

module _ (g : Gateway) where
  -- `meter.settle`
  unfoldable pub settled : Weather → Reservation → Option TokenUsage → World g → World g
  unfolding settle_usage
  settled weather v usage w =
      let (buckets, entries, counts) =
        settle_usage g.limits g.prefix g.wiring g.settings weather.settle_link weather.settle_at v
          usage (w.buckets, w.entries, w.counts) in
      record w { buckets = buckets; entries = entries; counts = counts }

  -- `meter.discard`
  unfoldable pub discarded : Weather → Reservation → World g → World g
  unfolding discard
  discarded weather v w = record w {
    buckets =
        discard g.limits g.prefix g.wiring g.settings weather.settle_link weather.settle_at v
          w.buckets;
  }

  -- `cache.lookup`
  unfoldable pub looked_up : Ask → World g → Found × World g
  unfolding find_response
  looked_up ask w =
      let (found, stats) =
        find_response g.store g.dumps g.sha256 g.print g.parse g.cache ask.weather.get_up
          ask.principal ask.request ask.path ask.headers w.kept w.cache_stats in
      (found, record w { cache_stats = stats })

  -- `cache.store`
  unfoldable pub stored : Weather → Found → ChatCompletionResponse → World g → World g
  unfolding store_response
  stored weather found a w =
      let (kept, stats) =
        store_response g.store g.dumps g.sha256 g.print g.parse g.cache weather.set_up found a
          w.kept w.cache_stats in
      record w { kept = kept; cache_stats = stats }

  unfoldable pub is_bypass : Option CacheOutcome → Bool
  is_bypass none = false
  is_bypass (some bypass) = true
  is_bypass (some _) = false

  -- The semantic tier, unless the exact tier has the answer or declined to look.
  unfoldable pub looked_near : Ask → Found → World g → Nearby g.Vector × World g
  unfolding is_bypass find_nearby skip_nearby
  looked_near ask found w =
      let (near, state) =
        if not (is_some found.response) && not (is_bypass found.outcome)
        then find_nearby g.semantic ask.principal ask.request ask.path ask.headers w.near
        else skip_nearby g.semantic w.near in
      (near, record w { near = state })

  abbrev pub headers_of : Reservation → Found → Nearby g.Vector → Headers
  headers_of v found near = record {
    decision = v.decision;
    exact = found.outcome;
    semantic = near.outcome;
    score = near.score;
  }

  -- `lookup.response if lookup.response is not None else semantic.response`
  abbrev pub cached_of : Found → Nearby g.Vector → Option ChatCompletionResponse
  cached_of found near = elim found.response [ some a ↦ some a | none ↦ near.response ]

  -- An answer that the semantic tier found is kept in the exact tier.
  unfoldable pub from_cache :
      Weather → Found → Reservation → ChatCompletionResponse → World g → World g
  unfolding settled stored
  from_cache weather found v a w =
      let w' = settled weather v (some cached_usage) w in
      if is_some found.response then w' else stored weather found a w'

  unfoldable pub keep_near : Reply → World g → Option (SemanticState g.Vector) → Reply × World g
  keep_near reply w none = (escaped, w)
  keep_near reply w (some near) = (reply, record w { near = near })

  -- From the provider's result on; a cancellation is no `Exception`.
  unfoldable pub complete_with :
      Weather
      → Found
      → Nearby g.Vector
      → Reservation
      → Result ChatCompletionResponse
      → World g
      → Reply × World g
  unfolding settled stored discarded store_nearby keep_near failed
  complete_with weather found near v (returned a) w =
      let w' = stored weather found a (settled weather v a.usage w) in
      keep_near (answered (headers_of v found near) a) w' (store_nearby g.semantic near a w'.near)
  complete_with weather found near v (raised e) w = elim (failed e) [
    | none ↦ (escaped, w)
    | some f ↦ (failed_with (headers_of v found near) f, discarded weather v w)
  ]
