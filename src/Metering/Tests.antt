-- ===== src/Metering/Tests.antt =====
-- The theorems on metering at a concrete caller, over a dictionary of buckets.
use vortex_ai_gateway.Base.{
  pos, ◌≡◌, ◌↔◌, ◌⊎◌, ◌<◌, ◌-◌, ◌*◌, refl, Text, codes, true, false, none, some, [], ◌∷◌, Dict,
  lookup, insert, erase, lookup-insert, lookup-erase, arith,
}
use vortex_ai_gateway.Config.{local, key, Settings}
use vortex_ai_gateway.Auth.Identity.{Principal}
use vortex_ai_gateway.Contracts.Chat.{plain, ChatCompletionRequest, TokenUsage}
use vortex_ai_gateway.RateLimit.Redis.{Bucket, Server}
use vortex_ai_gateway.RateLimit.Bucket.{window, measure}
use vortex_ai_gateway.RateLimit.Script.{admit}
use vortex_ai_gateway.RateLimit.Estimate.{estimate_tokens}
use vortex_ai_gateway.RateLimit.Limiter.{up, down, Decision, tokens_key, admit_request}
use vortex_ai_gateway.Metering.Meter.{
  Reservation, too_large, Wiring, never_fits, admit_metered, discard, settle_usage,
}
use vortex_ai_gateway.Metering.Settle.{admit_metered-too_large_iff, settle_usage-admit_metered}

abbrev memory : Server
memory = record {
  State = Dict Bucket;
  read = lookup;
  write = insert;
  expire = erase;
  read-write = lookup-insert;
  read-expire = lookup-erase;
}

abbrev desk : Settings
desk = record {
  environment = local;
  api_keys = [];
  key_db_path = [];
  model_routes = [];
  default_provider = [];
  fallback_chains = [];
  openai_api_key = [];
  anthropic_api_key = [];
  cache_enabled = false;
  cache_ttl_seconds = pos 0;
  cache_ttls = [];
  cache_scope = key;
  rate_limit_default_rpm = pos 0;
  rate_limit_default_tpm = pos 0;
  rate_limit_assumed_completion_tokens = pos 512;
}

abbrev caller : Principal
caller = record { key_id = codes "ab"; name = []; rpm = 60; tpm = 600 }

abbrev question : ChatCompletionRequest
question = record {
  model = codes "m";
  messages = record { role = codes "user"; content = plain (codes "how are you") } ∷ [];
  n = 1;
  max_completion_tokens = some 100;
  max_tokens = none;
  stream = false;
  stream_options = none;
  user = none;
  metadata = none;
  sampling = [];
}

abbrev wired : Wiring
wired = record { limiter = true; ledger = true; prices = none }

abbrev rl : Text
rl = codes "rl"

abbrev decision : Decision
decision = (admit_request memory rl up 0 caller (estimate_tokens question desk) []).0

abbrev held : Reservation
held = record { principal = caller; decision = decision; model = codes "m" }

abbrev used : TokenUsage
used = record { prompt_tokens = 3; completion_tokens = 4; total_tokens = 7 }

admit_metered-too_large_iff_example :
    let estimate = estimate_tokens question desk in
    (((admit_metered memory rl wired desk down 0 caller question []).0 ≡ too_large estimate)
      ↔ ((true ≡ true) × (0 < 600) × (600 < estimate)))
    × ((never_fits memory rl wired desk caller estimate ≡ false)
        ⊎ ((admit_metered memory rl wired desk down 0 caller question []).1 ≡ []))
admit_metered-too_large_iff_example =
    admit_metered-too_large_iff memory rl wired desk down 0 caller question []

settle_usage-admit_metered_example :
    let s' = (admit_metered memory rl wired desk up 0 caller question []).1 in
    let level = measure 0 600 (lookup (tokens_key rl (codes "ab")) []) in
    (lookup
        (tokens_key rl (codes "ab"))
        (settle_usage memory rl wired desk up 0 held (some used) (s', [], [])).0
      ≡ some (record { tokens = level - 7 * window; ts = 0 }))
    × (lookup (tokens_key rl (codes "ab")) (discard memory rl wired desk up 0 held s')
        ≡ some (record { tokens = level; ts = 0 }))
unfolding admit_metered admit_request admit lookup measure estimate_tokens
settle_usage-admit_metered_example =
    settle_usage-admit_metered memory rl wired desk 0 caller question []
      (admit_metered memory rl wired desk up 0 caller question []).1 held used [] [] refl
      (omega arith) refl
