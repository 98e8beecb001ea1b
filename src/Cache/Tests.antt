-- ===== src/Cache/Tests.antt =====
-- The theorems on the cache, over a dictionary, with a response printed as its body.
use vortex_ai_gateway.Base.{
  pos, ◌≡◌, ◌↔◌, ◌⊎◌, ◌+◌, ◌||◌, refl, Text, codes, Bool, true, false, Option, none, some, [], ◌∷◌,
  ◌++◌, Dict, lookup, insert, lookup-insert, leb,
}
use vortex_ai_gateway.Config.{key}
use vortex_ai_gateway.Auth.Identity.{Principal}
use vortex_ai_gateway.Contracts.Chat.{ChatCompletionRequest, ChatCompletionResponse}
use vortex_ai_gateway.Cache.Ttls.{ttls, invalid, negative, parse_cache_ttls}
use vortex_ai_gateway.Cache.Store.{
  Server, Payload, Found, CacheStats, hit, bypass, ResponseCache, canonical_payload, ttl_for,
  key_for, skips, bypass_requested, find_response, store_response,
}
use vortex_ai_gateway.Cache.Keys.{find_response-others}
use vortex_ai_gateway.Cache.Hits.{store_response-hit, find_response-bypass_iff}

ttls_run :
    parse_cache_ttls (codes "/v1/chat/completions = 6_00,, /v1/models=0")
    ≡ ttls ((codes "/v1/chat/completions", 600) ∷ (codes "/v1/models", 0) ∷ [])
unfolding parse_cache_ttls
ttls_run = refl

negative_run : parse_cache_ttls (codes "/x=-1") ≡ invalid (negative (codes "/x=-1"))
unfolding parse_cache_ttls
negative_run = refl

abbrev memory : Server
memory = record {
  State = Dict Text;
  get = lookup;
  set = λ k v ttl s. insert k v s;
  get-set = λ j k v ttl s positive. lookup-insert j k v s;
}

-- A model name stands for a request's JSON, and for a response's.
abbrev dumps : Payload → Text
dumps payload = payload.model

abbrev digest : Text → Text
digest t = t

abbrev stop : ChatCompletionResponse
stop = record { model = codes "m"; body = codes "hi"; usage = none; vortex = none }

abbrev print : ChatCompletionResponse → Text
print a = a.body

abbrev parse : Text → Option ChatCompletionResponse
parse raw = some (record { model = codes "m"; body = raw; usage = none; vortex = none })

abbrev cache : ResponseCache
cache = record {
  enabled = true;
  default_ttl = pos 300;
  ttls = [];
  scope = key;
  prefix = codes "vx";
}

abbrev zero_stats : CacheStats
zero_stats = record { hits = 0; misses = 0; bypasses = 0; stores = 0; errors = 0 }

abbrev ask : Option Text → Bool → ChatCompletionRequest
ask user stream = record {
  model = codes "m";
  messages = [];
  n = 1;
  max_completion_tokens = none;
  max_tokens = none;
  stream = stream;
  stream_options = none;
  user = user;
  metadata = none;
  sampling = [];
}

abbrev caller : Text → Principal
caller id = record { key_id = codes "k" ++ id; name = []; rpm = 0; tpm = 0 }

abbrev route : Text
route = codes "/v1/chat/completions"

abbrev find_first : Found
find_first =
    (find_response memory dumps digest print parse cache true (caller []) (ask none false) route []
      [] zero_stats).0

store_response-hit_example :
    let s' =
      (store_response memory dumps digest print parse cache true find_first stop [] zero_stats).0 in
    find_response memory dumps digest print parse cache true
      (caller [])
      (ask (some (codes "u")) false)
      route
      []
      s'
      zero_stats
    ≡ (
      record {
        outcome = some hit;
        response = some stop;
        key =
            some (key_for memory dumps digest print parse cache (caller []) (ask none false) route);
        ttl = ttl_for cache route;
      },
      record zero_stats { hits = 0 + 1 },
    )
unfolding skips canonical_payload
store_response-hit_example =
    store_response-hit memory dumps digest print parse cache (caller []) (ask none false)
      (ask (some (codes "u")) false) route [] [] stop true [] zero_stats zero_stats refl refl refl
      refl refl

find_response-others_example :
    let s' =
      (store_response memory dumps digest print parse cache true find_first stop [] zero_stats).0 in
    find_response memory dumps digest print parse cache true
      (caller (codes "2"))
      (ask none false)
      route
      []
      s'
      zero_stats
    ≡ find_response memory dumps digest print parse cache true
        (caller (codes "2"))
        (ask none false)
        route
        []
        []
        zero_stats
find_response-others_example =
    find_response-others memory dumps digest print parse cache (caller []) (caller (codes "2"))
      (ask none false) (ask none false) route route [] [] stop true true true [] zero_stats
      zero_stats refl refl refl refl

find_response-bypass_iff_example :
    let found =
      (find_response memory dumps digest print parse cache true
        (caller [])
        (ask none true)
        route
        []
        []
        zero_stats).0 in
    ((found.outcome ≡ some bypass)
      ↔ ((true || leb (ttl_for cache route) 0 || bypass_requested []) ≡ true))
    × (((true || leb (ttl_for cache route) 0 || bypass_requested []) ≡ false)
        ⊎ (store_response memory dumps digest print parse cache true found stop [] zero_stats
            ≡ ([], zero_stats)))
find_response-bypass_iff_example =
    find_response-bypass_iff memory dumps digest print parse cache (caller []) (ask none true) route
      [] stop true true [] zero_stats zero_stats refl
