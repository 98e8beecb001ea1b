-- ===== src/Auth/Access.antt =====
-- src/vortex_ai_gateway/auth.py: the bearer token, the three sources of keys, and the limits of a caller.
-- A store is its table; the digests are parameters.
pub mod Guarded
use vortex_ai_gateway.Base.{
  pos_part, ℕ, zero, suc, ◌==◌, Text, codes, Bool, true, false, not, ◌&&◌, ◌||◌, Option, none, some,
  List, [], ◌∷◌, is_empty, strip, mem_text, if◌then◌else◌,
}
use vortex_ai_gateway.Config.{Environment, local, dev, staging, prod, Settings, allowed_api_keys}
use vortex_ai_gateway.Auth.Identity.{Principal}
use vortex_ai_gateway.Auth.Keys.{ApiKeyRecord, Row, verify}

-- The codes of `AuthenticationError`.
pub data Refusal : Type 0 where
  missing_api_key invalid_authorization_header invalid_api_key : Refusal

pub data Answer {ℓ} (A : Type ℓ) : Type ℓ where
  accepted : A → Answer A
  refused : Refusal → Answer A

-- `header.startswith(prefix)` with `header.removeprefix(prefix)`
unfoldable pub remove_prefix : Text → Text → Option Text
remove_prefix [] s = some s
remove_prefix (c ∷ p) [] = none
remove_prefix (c ∷ p) (d ∷ s) = let rest = remove_prefix p s in if c == d then rest else none

non_empty_token : Text → Answer Text
non_empty_token token = if is_empty token then refused missing_api_key else accepted token

-- `_extract_bearer_token`
unfoldable pub extract_bearer_token : Option Text → Answer Text
unfolding remove_prefix non_empty_token strip
extract_bearer_token none = refused missing_api_key
extract_bearer_token (some header) =
    if is_empty (strip header)
    then refused missing_api_key
    else elim (remove_prefix (codes "Bearer ") header) [
      | none ↦ refused invalid_authorization_header
      | some token ↦ non_empty_token (strip token)
    ]

-- `settings.environment in GUARDED_ENVIRONMENTS`
abbrev pub is_guarded : Environment → Bool
is_guarded local = false
is_guarded dev = false
is_guarded staging = true
is_guarded prod = true

-- `not xs`, for a list.
abbrev pub is_nil {ℓ} : {A : Type ℓ} → List A → Bool
is_nil [] = true
is_nil (x ∷ xs) = false

-- `ensure_key_source`: false when it raises `OpenGatewayError`.
unfoldable pub ensure_key_source : Settings → Bool
ensure_key_source s =
    not (is_guarded s.environment)
    || not (is_empty s.key_db_path)
    || not (is_nil (allowed_api_keys s))

-- `x or y` for numbers.
abbrev pub or_default : ℕ → ℕ → ℕ
or_default zero default = default
or_default (suc n) default = suc n

-- `_from_record`. A limit that is not positive is none, here and in the script: `Principal.metered`, `admit`
-- and `reconcile` only test whether it is positive, so a negative default is zero here.
unfoldable pub from_record : ApiKeyRecord → Settings → Principal
from_record r s = record {
  key_id = r.key_id;
  name = r.name;
  rpm = or_default r.rpm (pos_part s.rate_limit_default_rpm);
  tpm = or_default r.tpm (pos_part s.rate_limit_default_tpm);
}

module _ (sha256 fingerprint : Text → Text) where
  -- `_from_token`
  unfoldable pub from_token : Text → Settings → Principal
  from_token token s = record {
    key_id = fingerprint token;
    name = [];
    rpm = pos_part s.rate_limit_default_rpm;
    tpm = pos_part s.rate_limit_default_tpm;
  }

  -- The principal of a token: by the store if there is one, by the list of keys otherwise, and
  -- anyone's if that is empty.
  pub identify : Option (List Row) → Settings → Text → Answer Principal
  unfolding from_record from_token verify
  identify (some rows) s token = elim (verify sha256 token rows) [
    | none ↦ refused invalid_api_key
    | some r ↦ accepted (from_record r s)
  ]
  identify none s token =
      let allowed = allowed_api_keys s in
      if not (is_nil allowed) && not (mem_text token allowed)
      then refused invalid_api_key
      else accepted (from_token token s)

  -- `require_api_key`, given the `Authorization` header
  unfoldable pub require_api_key : Option (List Row) → Settings → Option Text → Answer Principal
  unfolding identify extract_bearer_token
  require_api_key store s header = elim (extract_bearer_token header) [
    | refused why ↦ refused why
    | accepted token ↦ identify store s token
  ]
