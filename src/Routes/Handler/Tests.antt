-- ===== src/Routes/Handler/Tests.antt =====
-- The theorems on the flow of a request, at a gateway whose provider counts its calls.
use vortex_ai_gateway.Base.{
  pos, ℕ, ◌+◌, ◌-◌, ◌*◌, ◌≡◌, ◌≢◌, ◌⊎◌, ◌↔◌, refl, codes, true, false, none, some, [], ◌∷◌, length,
  Dict, lookup, arith,
}
use vortex_ai_gateway.Config.{key}
use vortex_ai_gateway.Contracts.Chat.{ChatCompletionResponse, TokenUsage}
use vortex_ai_gateway.Samples.{buckets, texts, desk, caller, route, ask, zero_stats}
use vortex_ai_gateway.RateLimit.Redis.{Bucket}
use vortex_ai_gateway.RateLimit.Bucket.{window, measure}
use vortex_ai_gateway.RateLimit.Estimate.{estimate_tokens}
use vortex_ai_gateway.RateLimit.Limiter.{up, tokens_key, admit_request, reconcile}
use vortex_ai_gateway.Metering.Meter.{Reservation, reserved, admit_metered}
use vortex_ai_gateway.Cache.Store.{ResponseCache, skips, nothing, hit, miss}
use vortex_ai_gateway.Semantic.Cache.{SemanticCache, unconfigured}
use vortex_ai_gateway.Providers.Errors.{returned, cancelled}
use vortex_ai_gateway.Streaming.Record.{StreamRecord, completed, failed, abandoned}
use vortex_ai_gateway.Streaming.Relay.{last_usage}
use vortex_ai_gateway.Routes.Stream.{Chunks}
use vortex_ai_gateway.Routes.Flow.{
  Gateway, World, Weather, Ask, Headers, answered, settled, discarded, looked_up, looked_near,
}
use vortex_ai_gateway.Routes.Handler.{create_chat_completion, asked, log}
use vortex_ai_gateway.Routes.Handler.Bill.{create_chat_completion-bill, generated}
use vortex_ai_gateway.Routes.Handler.Repeat.{create_chat_completion-repeat}
use vortex_ai_gateway.Routes.Handler.Streamed.{asked-streamed}

abbrev used : TokenUsage
used = record { prompt_tokens = 3; completion_tokens = 4; total_tokens = 7 }

abbrev yes : ChatCompletionResponse
yes = record { model = codes "m"; body = codes "yes"; usage = some used; vortex = none }

abbrev cache : ResponseCache
cache = record {
  enabled = true;
  default_ttl = pos 300;
  ttls = [];
  scope = key;
  prefix = codes "vx";
}

abbrev unembedded : SemanticCache ℕ
unembedded = record {
  configured = false;
  threshold = 1;
  scope = key;
  embed = λ t. none;
  dimension = λ v. 1;
  similarity = λ v w. 0;
  junk = 0;
  dumps = λ shape. shape.model;
  sha256 = λ t. t;
}

-- A caller hangs up after one chunk, which reports a usage.
abbrev cut_short : Chunks
cut_short = record {
  chunks = record { choices = []; usage = some used; vortex = none } ∷ [];
  ending = some cancelled;
}

abbrev gateway : Gateway
gateway = record {
  limits = buckets;
  prefix = codes "rl";
  wiring = record { limiter = true; ledger = true; prices = none };
  settings = desk;
  store = texts;
  dumps = λ payload. payload.model;
  sha256 = λ t. t;
  print = λ a. a.body;
  parse = λ raw. some (record { model = codes "m"; body = raw; usage = some used; vortex = none });
  cache = cache;
  Vector = ℕ;
  semantic = unembedded;
  provider = codes "mock";
  Upstream = ℕ;
  complete = λ r n. (returned yes, n + 1);
  open_stream = λ r n. (cut_short, n + 1);
}

abbrev fresh : World gateway
fresh = record {
  buckets = [];
  entries = [];
  counts = [];
  kept = [];
  cache_stats = zero_stats;
  near = record { stats = zero_stats; indexes = [] };
  upstream = 0;
  logs = [];
}

abbrev calm : Weather
calm = record {
  admit_link = up;
  admit_at = 0;
  settle_link = up;
  settle_at = 0;
  get_up = true;
  set_up = true;
}

abbrev first : Ask
first = record {
  principal = caller [];
  request = ask (codes "so?");
  path = route;
  headers = [];
  weather = calm;
}

abbrev held : Reservation
held = record {
  principal = caller [];
  decision =
      (admit_request buckets (codes "rl") up 0 (caller [])
        (estimate_tokens (ask (codes "so?")) desk) []).0;
  model = codes "m";
}

abbrev admitted_first : Dict Bucket
admitted_first =
    (admit_request buckets (codes "rl") up 0 (caller []) (estimate_tokens (ask (codes "so?")) desk)
      []).1

abbrev after_first : World gateway
after_first = (create_chat_completion gateway first fresh).1

abbrev missed_headers : Headers
missed_headers = record {
  decision = held.decision;
  exact = some miss;
  semantic = none;
  score = none;
}

first_admitted :
    admit_metered buckets (codes "rl") gateway.wiring desk up 0 (caller []) (ask (codes "so?")) []
    ≡ (reserved held, admitted_first)
unfolding admit_metered estimate_tokens admit_request vortex_ai_gateway.RateLimit.Script.admit
    measure lookup
first_admitted = refl

first_answered : (create_chat_completion gateway first fresh).0 ≡ answered missed_headers yes
unfolding create_chat_completion estimate_tokens admit_request
    vortex_ai_gateway.RateLimit.Script.admit measure lookup
first_answered = refl

-- Seven tokens are charged, of the six hundred.
create_chat_completion-bill_example :
    (lookup (tokens_key (codes "rl") (codes "k")) after_first.buckets
      ≡ some (record { tokens = measure 0 600 none - 7 * window; ts = 0 }))
    × (after_first.upstream ≡ 1)
unfolding generated looked_up looked_near
create_chat_completion-bill_example =
    create_chat_completion-bill gateway first fresh held admitted_first 7 refl (omega arith) refl
      refl refl refl first_admitted refl

abbrev held_again : Reservation
held_again = record {
  principal = caller [];
  decision =
      (admit_request buckets (codes "rl") up 0 (caller [])
        (estimate_tokens (ask (codes "so?")) desk) after_first.buckets).0;
  model = codes "m";
}

abbrev admitted_again : Dict Bucket
admitted_again =
    (admit_request buckets (codes "rl") up 0 (caller []) (estimate_tokens (ask (codes "so?")) desk)
      after_first.buckets).1

again_admitted :
    admit_metered buckets
      (codes "rl")
      gateway.wiring
      desk
      up
      0
      (caller [])
      (ask (codes "so?"))
      after_first.buckets
    ≡ (reserved held_again, admitted_again)
unfolding admit_metered create_chat_completion estimate_tokens admit_request
    vortex_ai_gateway.RateLimit.Script.admit measure lookup reconcile
    vortex_ai_gateway.RateLimit.Script.settle
again_admitted = refl

create_chat_completion-repeat_example :
    let out = create_chat_completion gateway first after_first in
    (out.0
      ≡ answered
          (record {
            decision = held_again.decision;
            exact = some hit;
            semantic = none;
            score = none;
          })
          yes)
    × (out.1.upstream ≡ after_first.upstream)
unfolding skips
create_chat_completion-repeat_example =
    create_chat_completion-repeat gateway first (ask (codes "so?")) [] calm fresh held held_again
      admitted_first admitted_again yes missed_headers refl refl refl refl refl refl refl refl
      first_admitted first_answered again_admitted

-- The caller hangs up after a chunk.
abbrev streaming : Ask
streaming = record first { request = record (ask (codes "so?")) { stream = true } }

asked-streamed_example :
    let w' : World gateway = record fresh { upstream = 1 } in
    let out = asked gateway streaming nothing (unconfigured unembedded) held fresh in
    (b : StreamRecord) × ((b.usage ≡ last_usage cut_short.chunks none)
      × (b.chunks ≡ length cut_short.chunks)
      × ((b.outcome ≡ abandoned) ↔ (cut_short.ending ≡ some cancelled))
      × ((b.outcome ≡ completed) ↔ (cut_short.ending ≡ none)))
    × (((b.outcome ≡ failed)
          × (cut_short.chunks ≡ [])
          × (out.1 ≡ discarded gateway calm held (log gateway b w')))
        ⊎ (((b.outcome ≢ failed) ⊎ (cut_short.chunks ≢ []))
            × (out.1 ≡ settled gateway calm held b.usage (log gateway b w'))))
asked-streamed_example =
    asked-streamed gateway streaming nothing (unconfigured unembedded) held fresh refl
