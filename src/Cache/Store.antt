-- ===== src/Cache/Store.antt =====
-- `ResponseCache` of src/vortex_ai_gateway/cache.py. Redis, SHA-256, the JSON of a request and the JSON
-- of a response are parameters.
use vortex_ai_gateway.Base.{
  ℤ, pos_part, ℕ, ◌+◌, ◌<◌, ◌≡◌, Text, codes, Bool, true, false, not, ◌||◌, Option, none, some,
  List, [], ◌∷◌, ◌++◌, strip, lower, mem_text, text_eq, Dict, lookup, option_or, leb, if◌then◌else◌,
}
use vortex_ai_gateway.Config.{CacheScope, key, global}
use vortex_ai_gateway.Auth.Identity.{Principal}
use vortex_ai_gateway.Contracts.Chat.{Message, ChatCompletionRequest, ChatCompletionResponse}

-- The server: GET, and SET with an expiry in seconds, which Redis wants to be positive. The law is of
-- a read before anything expires.
pub record Server : Type 1 where
  pub State : Type 0
  pub get : Text → State → Option Text
  pub set : Text → Text → ℕ → State → State
  pub get-set :
      (j k v : Text) (ttl : ℕ) (s : State)
      → 0 < ttl
      → get j (set k v ttl s) ≡ (if text_eq k j then some v else get j s)

-- The part of a request that is left without `NON_SEMANTIC_FIELDS`.
pub record Payload : Type 0 where
  pub model : Text
  pub messages : List Message
  pub n : ℕ
  pub max_completion_tokens : Option ℕ
  pub max_tokens : Option ℕ
  pub sampling : Text

-- `canonical_payload`
unfoldable pub canonical_payload : ChatCompletionRequest → Payload
canonical_payload r = record {
  model = r.model;
  messages = r.messages;
  n = r.n;
  max_completion_tokens = r.max_completion_tokens;
  max_tokens = r.max_tokens;
  sampling = r.sampling;
}

-- `bypass_requested`
unfoldable pub bypass_requested : Dict Text → Bool
unfolding lookup strip lower
bypass_requested headers =
    mem_text (lower (strip (option_or (lookup (codes "x-vortex-cache-bypass") headers) [])))
      (codes "1" ∷ codes "true" ∷ codes "yes" ∷ codes "on" ∷ [])

pub data CacheOutcome : Type 0 where
  hit miss bypass : CacheOutcome

pub record CacheStats : Type 0 where
  pub hits : ℕ
  pub misses : ℕ
  pub bypasses : ℕ
  pub stores : ℕ
  pub errors : ℕ

-- `Lookup`
pub record Found : Type 0 where
  pub outcome : Option CacheOutcome
  pub response : Option ChatCompletionResponse
  pub key : Option Text
  pub ttl : ℕ

-- `Lookup()`, and `Lookup(outcome="BYPASS")`
abbrev pub nothing : Found
nothing = record { outcome = none; response = none; key = none; ttl = 0 }

abbrev pub skipped : Found
skipped = record { outcome = some bypass; response = none; key = none; ttl = 0 }

abbrev pub missed : Text → ℕ → Found
missed k ttl = record { outcome = some miss; response = none; key = some k; ttl = ttl }

-- The settings of a cache; `enabled` is whether it was given a Redis.
pub record ResponseCache : Type 0 where
  pub enabled : Bool
  pub default_ttl : ℤ
  pub ttls : Dict ℕ
  pub scope : CacheScope
  pub prefix : Text

-- `ttl_for`; of a default that is not positive the source only tests that it is not, so it is zero here.
unfoldable pub ttl_for : ResponseCache → Text → ℕ
unfolding lookup
ttl_for c path = option_or (lookup path c.ttls) (pos_part c.default_ttl)

abbrev pub namespace_of : CacheScope → Principal → Text
namespace_of key p = p.key_id
namespace_of global p = codes "global"

module _ (server : Server) (dumps : Payload → Text) (sha256 : Text → Text)
    (print : ChatCompletionResponse → Text) (parse : Text → Option ChatCompletionResponse)
    (c : ResponseCache) where
  open server use {State, get, set}

  -- `request_digest`
  unfoldable pub request_digest : ChatCompletionRequest → Text
  unfolding canonical_payload
  request_digest r = sha256 (dumps (canonical_payload r))

  -- `key_for`
  unfoldable pub key_for : Principal → ChatCompletionRequest → Text → Text
  unfolding request_digest
  key_for p r path =
      c.prefix ++ (b':' ∷ (namespace_of c.scope p ++ (b':' ∷ (path ++ (b':' ∷ request_digest r)))))

  -- What the lookup does with the reply to its GET.
  unfoldable pub on_reply : Option Text → Text → ℕ → CacheStats → Found × CacheStats
  on_reply none k ttl stats = (missed k ttl, record stats { misses = stats.misses + 1 })
  on_reply (some raw) k ttl stats = elim (parse raw) [
    | none ↦ (missed k ttl, record stats { misses = stats.misses + 1 })
    | some r ↦ (
      record { outcome = some hit; response = some r; key = some k; ttl = ttl },
      record stats { hits = stats.hits + 1 },
    )
  ]

  -- `request.stream or ttl <= 0 or bypass_requested(headers)`
  unfoldable pub skips : ChatCompletionRequest → Text → Dict Text → Bool
  unfolding ttl_for bypass_requested
  skips r path headers = r.stream || leb (ttl_for c path) 0 || bypass_requested headers

  -- `lookup`; `up` is whether the GET succeeds. Redis is read and not written.
  unfoldable pub find_response :
      Bool
      → Principal
      → ChatCompletionRequest
      → Text
      → Dict Text
      → State
      → CacheStats
      → Found × CacheStats
  unfolding on_reply skips key_for
  find_response up p r path headers s stats =
      if not c.enabled
      then (nothing, stats)
      else if skips r path headers
      then (skipped, record stats { bypasses = stats.bypasses + 1 })
      else if up
      then on_reply (get (key_for p r path) s) (key_for p r path) (ttl_for c path) stats
      else (missed (key_for p r path) (ttl_for c path), record stats { errors = stats.errors + 1 })

  keep_under : Bool → Text → ℕ → ChatCompletionResponse → State → CacheStats → State × CacheStats
  keep_under true k ttl r s stats =
      (set k (print r) ttl s, record stats { stores = stats.stores + 1 })
  keep_under false k ttl r s stats = (s, record stats { errors = stats.errors + 1 })

  -- `store`; `up` is whether the SET succeeds.
  unfoldable pub store_response :
      Bool → Found → ChatCompletionResponse → State → CacheStats → State × CacheStats
  unfolding keep_under
  store_response up found r s stats =
      if not c.enabled
      then (s, stats)
      else elim found.key [ none ↦ (s, stats) | some k ↦ keep_under up k found.ttl r s stats ]
