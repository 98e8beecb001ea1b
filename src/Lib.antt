-- ===== src/Lib.antt =====
-- Vortex AI gateway: a model of the gateway's core in Python, and what makes it correct. Paths
-- are from the repository's root.
--
-- A request passes through these parts, in this order. Auth finds the caller (the `Principal`)
-- from the bearer token. Metering asks RateLimit to admit the request's estimated tokens. Cache
-- looks for a stored answer, and Semantic for the answer to a prompt near enough. If there is
-- none, Routing picks the provider for the model: an adapter in a retry loop with a circuit
-- breaker (Providers.Resilient, on Resilience), or a chain of those (Providers.Fallback).
-- Streaming observes the chunks of a streamed answer and keeps its bill. Metering settles what
-- was reserved once the usage is known, priced by Pricing. Routes puts these together, and says
-- what a caller is told of a failure.
--
-- Which file models which code (of src/vortex_ai_gateway/):
-- - Contracts.Chat: contracts/chat.py, messages.py, options.py, usage.py; the fields that are
--   read.
-- - Config: the fields of config.py `Settings` that are read, and `allowed_api_keys`.
-- - Auth.Identity, Auth.Access: auth.py; `extract_bearer_token`, `ensure_key_source`,
--   `require_api_key`. Auth.Keys: keys.py; the SQLite table is the list of its rows, and
--   `create`, `revoke`, `verify` take it and return it.
-- - Cache.Ttls, Cache.Store: cache.py; `parse_cache_ttls`, `ttl_for`, `key_for`,
--   `bypass_requested`; `find_response` is `ResponseCache.lookup` and `store_response` is
--   `ResponseCache.store`.
-- - Pricing: pricing.py. Metering.Meter: metering.py; `admit_metered`, `discard`, `settle_usage`.
-- - RateLimit.Bucket, RateLimit.Script: the two Lua scripts of ratelimit.py, each one step on the
--   server's state. RateLimit.Limiter: `RateLimiter.admit` and `reconcile` around them, and the
--   headers. RateLimit.Estimate: `estimate_tokens`.
-- - Resilience.Budget, Resilience.Policy, Resilience.Breaker: resilience.py.
-- - Providers.Errors: providers/errors.py. Providers.Resilient, Providers.Fallback:
--   providers/resilience_wrapper.py.
-- - Routing.Table, Routing.Router, Routing.Build: routing.py; `fnmatch.fnmatchcase` is in
--   Base.Glob.
-- - Streaming.Record: streaming.py. Routes: `_failure` and `_failed` of routes.py; Routes.Stream:
--   `_stream_events`; Routes.Flow, Routes.Handler: `create_chat_completion`, whose collaborators
--   are the fields of `Gateway`, in the source's order: `on_admission`, `on_found`,
--   `answer_or_ask`, `asked`.
-- - Providers.Http: http.py. Providers.Anthropic.Turns: `_translate_messages` of anthropic.py;
--   Providers.Anthropic.Parameters: `_reject_unsupported` and `_translate_tool_choice`;
--   Providers.Anthropic.Stream, Providers.Anthropic.Rounds: its `stream`, a round of the loop for
--   each event. Contracts.Messages: messages.py by role; Contracts.Json: what `json.loads`
--   returns.
-- - Spend: `SpendLedger.record` and the totals of `_day_report` of spend.py.
-- - Metrics: `LabelBudget` of metrics.py.
-- - Semantic.Index: `VectorIndex` of semantic.py; Semantic.Nearest says what an index promises.
--   Semantic.Cache: `prompt_text`, `shape_digest`, `SemanticCache`; `find_nearby` is its
--   `lookup`, `store_nearby` its `store` and `skip_nearby` its `skipped`.
-- - Base: texts as lists of code points with the methods of `str` that are used, dictionaries,
--   integers, Boolean tests.
-- A child module with another name holds proofs about its parent, and each Tests the witnesses
-- and test runs, on values that Samples shares.
--
-- State is passed explicitly. Python's exceptions are values (`Result`, `Answer`, `Parsed`,
-- `Admission`). Logging and gauges are left out.
--
-- Numbers are exact where the source has floats. A time is a whole number of milliseconds. The
-- tokens of a retry budget are in millionths, those of a rate-limit bucket in sixty-thousandths,
-- so that a refill per millisecond is whole. The breaker's backoff multiplier is in thousandths.
-- A price is a whole number of units, and a cost is kept before its division by a million. What
-- floating-point rounding, and Lua's printing of a level into Redis, may change is not modelled.
--
-- The loop of `ResilientProvider._call` is a recursion on the number of attempts that are left,
-- which the policy bounds. All other loops are over lists. What other tasks do while a call
-- awaits its attempt or its backoff is an argument, the environment: any sequence of calls on the
-- breaker and on the budget.
--
-- Redis, SHA-256, the JSON encodings, the draws of random jitter, the embedder with the scaling
-- of its vectors, and their similarity are parameters; in Routes so is the provider, with a
-- state. Of Redis the model uses that a read after a write or an expiry sees it; SQLite keeps one
-- row per key ID.
--
-- Not modelled: the usage route and the error bodies (error_handling.py), the prices and the days
-- of a usage report (spend.py), the embedding services (embedding.py), the collectors of
-- metrics.py, the adapters openai.py, ollama.py and mock.py, what anthropic.py does with the
-- other parameters of a request and with whole answers, the connections of http.py, the
-- middleware, tracing, the command line, and the wiring of gateway.py, which is mostly set-up of
-- third-party libraries.
pub mod Base
pub mod Contracts
pub mod Config
pub mod Auth
pub mod Resilience
pub mod RateLimit
pub mod Providers
pub mod Routing
pub mod Cache
pub mod Pricing
pub mod Metering
pub mod Streaming
pub mod Routes
pub mod Semantic
pub mod Metrics
pub mod Spend
pub mod Samples
