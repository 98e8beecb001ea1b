-- ===== src/Auth/Tests.antt =====
-- The theorems on keys and on access at concrete tables and settings, with a digest that is the
-- identity.
use vortex_ai_gateway.Base.{
  pos, ◌≡◌, ◌⊎◌, refl, Text, codes, true, false, Option, none, some, List, [], ◌∷◌, mem_text,
}
use vortex_ai_gateway.Config.{staging, key, Settings, allowed_api_keys}
use vortex_ai_gateway.Auth.Identity.{Principal}
use vortex_ai_gateway.Auth.Keys.{
  ApiKeyRecord, Row, MintedKey, parse_key_id, token_of, select, new_entry, revoke, create, verify,
  creation, revocation, change_all,
}
use vortex_ai_gateway.Auth.Keys.Lookup.{verify-create}
use vortex_ai_gateway.Auth.Keys.Revocation.{retired_at, revoked_for_good}
use vortex_ai_gateway.Auth.Access.{
  accepted, ensure_key_source, extract_bearer_token, require_api_key, from_record, from_token,
}
use vortex_ai_gateway.Auth.Access.Guarded.{guarded_gateway}

abbrev digest : Text → Text
digest t = t

abbrev token : Text
token = token_of (codes "a1") (codes "s_3cret")

abbrev stored : Row
stored = record { token_hash = token; entry = new_entry (codes "a1") (codes "ops") 5 60 0 }

verify-create_example :
    (m : MintedKey) × (rows' : List Row) × (create digest
        (codes "b2")
        (codes "x_y")
        []
        7
        0
        0
        (stored ∷ [])
      ≡ some (m, rows'))
    × (verify digest m.token rows' ≡ some m.entry)
unfolding select
verify-create_example =
    verify-create digest (codes "b2") (codes "x_y") [] 7 0 0 (stored ∷ []) refl refl refl refl

revoked_for_good_example :
    let rows' =
      change_all digest
        (creation (codes "a1") (codes "again") [] 20 0 0 ∷ revocation 30 (codes "a1") ∷ [])
        (revoke 10 (codes "a1") (stored ∷ [])).1 in
    (verify digest token rows' ≡ none) × (retired_at (select (codes "a1") rows') ≡ some 10)
unfolding select parse_key_id
revoked_for_good_example =
    revoked_for_good digest 10 (codes "a1") token (stored ∷ []) stored
      (creation (codes "a1") (codes "again") [] 20 0 0 ∷ revocation 30 (codes "a1") ∷ []) refl refl
      refl

abbrev shop : Settings
shop = record {
  environment = staging;
  api_keys = codes " k1 ,k2,";
  key_db_path = [];
  model_routes = [];
  default_provider = [];
  fallback_chains = [];
  openai_api_key = [];
  anthropic_api_key = [];
  cache_enabled = false;
  cache_ttl_seconds = pos 0;
  cache_ttls = [];
  cache_scope = key;
  rate_limit_default_rpm = pos 100;
  rate_limit_default_tpm = pos 0;
  rate_limit_assumed_completion_tokens = pos 1024;
}

abbrev k2_caller : Principal
k2_caller = record { key_id = codes "k2"; name = []; rpm = 100; tpm = 0 }

guarded_gateway_example :
    (token : Text) × (extract_bearer_token (some (codes "Bearer k2 ")) ≡ accepted token)
    × (((rows : List Row) × (r : ApiKeyRecord) × (none ≡ some rows)
          × (verify digest token rows ≡ some r)
          × (k2_caller ≡ from_record r shop))
        ⊎ ((mem_text token (allowed_api_keys shop) ≡ true)
            × (k2_caller ≡ from_token digest digest token shop)))
unfolding require_api_key ensure_key_source allowed_api_keys
guarded_gateway_example =
    guarded_gateway digest digest none shop (some (codes "Bearer k2 ")) k2_caller refl refl refl
      refl

abbrev ops_caller : Principal
ops_caller = record { key_id = codes "a1"; name = codes "ops"; rpm = 60; tpm = 0 }

abbrev ops_header : Option Text
ops_header = some (codes "Bearer vtx_a1_s_3cret")

ops_run : require_api_key digest digest (some (stored ∷ [])) shop ops_header ≡ accepted ops_caller
unfolding require_api_key
ops_run = refl
