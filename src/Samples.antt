-- ===== src/Samples.antt =====
-- Servers, settings and requests that the tests share: a dictionary stands for Redis.
use vortex_ai_gateway.Base.{
  pos, Text, codes, true, false, none, [], ◌∷◌, ◌++◌, Dict, lookup, insert, erase, lookup-insert,
  lookup-erase,
}
use vortex_ai_gateway.Config.{local, key, Settings}
use vortex_ai_gateway.Auth.Identity.{Principal}
use vortex_ai_gateway.Contracts.Chat.{plain, ChatCompletionRequest}
use vortex_ai_gateway.RateLimit.Redis.{Bucket, Server as LimitServer}
use vortex_ai_gateway.Cache.Store.{CacheStats, Server as CacheServer}

abbrev pub buckets : LimitServer
buckets = record {
  State = Dict Bucket;
  read = lookup;
  write = insert;
  expire = erase;
  read-write = lookup-insert;
  read-expire = lookup-erase;
}

abbrev pub texts : CacheServer
texts = record {
  State = Dict Text;
  get = lookup;
  set = λ k v ttl s. insert k v s;
  get-set = λ j k v ttl s positive. lookup-insert j k v s;
}

abbrev pub desk : Settings
desk = record {
  environment = local;
  api_keys = [];
  key_db_path = [];
  model_routes = [];
  default_provider = [];
  fallback_chains = [];
  openai_api_key = [];
  anthropic_api_key = [];
  cache_enabled = true;
  cache_ttl_seconds = pos 300;
  cache_ttls = [];
  cache_scope = key;
  rate_limit_default_rpm = pos 60;
  rate_limit_default_tpm = pos 600;
  rate_limit_assumed_completion_tokens = pos 20;
}

abbrev pub caller : Text → Principal
caller id = record { key_id = codes "k" ++ id; name = []; rpm = 60; tpm = 600 }

abbrev pub route : Text
route = codes "/v1/chat/completions"

abbrev pub ask : Text → ChatCompletionRequest
ask text = record {
  model = codes "m";
  messages = record { role = codes "user"; content = plain text } ∷ [];
  n = 1;
  max_completion_tokens = none;
  max_tokens = none;
  stream = false;
  stream_options = none;
  user = none;
  metadata = none;
  sampling = [];
}

abbrev pub zero_stats : CacheStats
zero_stats = record { hits = 0; misses = 0; bypasses = 0; stores = 0; errors = 0 }
