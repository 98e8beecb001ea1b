-- ===== src/Config.antt =====
-- `Settings` of src/vortex_ai_gateway/config.py: the fields that the modelled code reads. Durations
-- are whole milliseconds where the source has seconds as floats. No bound is put on the four integers.
use vortex_ai_gateway.Base.{
  ℤ, Bool, Text, List, [], ◌∷◌, is_empty, strip, split_on, map, if◌then◌else◌,
}

pub data Environment : Type 0 where
  local dev staging prod : Environment

pub data CacheScope : Type 0 where
  key global : CacheScope

pub record Settings : Type 0 where
  pub environment : Environment
  pub api_keys : Text
  pub key_db_path : Text
  pub model_routes : Text
  pub default_provider : Text
  pub fallback_chains : Text
  pub openai_api_key : Text
  pub anthropic_api_key : Text
  pub cache_enabled : Bool
  pub cache_ttl_seconds : ℤ
  pub cache_ttls : Text
  pub cache_scope : CacheScope
  pub rate_limit_default_rpm : ℤ
  pub rate_limit_default_tpm : ℤ
  pub rate_limit_assumed_completion_tokens : ℤ

-- `[part for part in parts if part]`
unfoldable pub non_empty : List Text → List Text
non_empty [] = []
non_empty (p ∷ ps) = if is_empty p then non_empty ps else p ∷ non_empty ps

-- `allowed_api_keys`
unfoldable pub allowed_api_keys : Settings → List Text
unfolding non_empty split_on strip
allowed_api_keys s = non_empty (map strip (split_on b',' s.api_keys))
