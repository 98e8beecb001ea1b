-- ===== src/Providers/Http.antt =====
-- The base of the adapters, src/vortex_ai_gateway/providers/http.py: how a failure is classified and how a
-- stream of events is read. A body comes as what `json.loads` makes of it, `none` where that raises.
pub mod Classify
pub mod Events
mod Tests
use vortex_ai_gateway.Base.{
  ℕ, Text, codes, Bool, true, false, Option, none, some, List, [], ◌∷◌, Dict, lookup, option_or,
  is_empty, partition, lstrip, text_eq, leb, ◌==◌, if◌then◌else◌,
}
use vortex_ai_gateway.Contracts.Json.{
  Json, null, bool, number, other_number, text, array, object, Fields, get_field, get, truthy,
  text_or_none,
}
use vortex_ai_gateway.Providers.Errors.{
  Kind, bad_request, auth, rate_limited, timeout, unavailable, protocol, ProviderError, Result,
  returned, raised, provider_error,
}

-- `upstream_model`
unfoldable pub upstream_model : Dict Text → Text → Text
unfolding lookup
upstream_model models model = option_or (lookup model models) model

-- `_sse_payloads`
unfoldable pub sse_payloads : List Text → List Text
unfolding partition lstrip
sse_payloads [] = []
sse_payloads (line ∷ lines) =
    let rest = sse_payloads lines in
    let (name, found, value) = partition b':' line in
    if text_eq name (codes "data") then lstrip value ∷ rest else rest

-- The failures of a vendor carry its name, perhaps a status, a code, and a wait.
abbrev pub failure : Text → Kind → Option ℕ → Option Text → Option ℕ → ProviderError
failure name kind status code wait = record {
  kind = kind;
  provider = name;
  status_code = status;
  code = code;
  parameter = none;
  retry_after = wait;
}

-- `_transport_error`: whether it is a `TimeoutException`, and the name of its class.
unfoldable pub transport_error : Text → Bool → Text → ProviderError
transport_error name timed_out class =
    failure name (if timed_out then timeout else unavailable) none (some class) none

-- `error.get("code") or error.get("type")`
code_of : Fields → Json
unfolding get truthy
code_of error =
    if truthy (get (codes "code") error) then get (codes "code") error else get (codes "type") error

described : Json → Option Text × Option Text
unfolding code_of get
described (text t) = (some t, none)
described (object error) =
    (text_or_none (get (codes "message") error), text_or_none (code_of error))
described _ = (none, none)

-- `_describe_error`: the message and the code.
unfoldable pub describe_error : Json → Option Text × Option Text
unfolding described get_field
describe_error (object payload) =
    described (option_or (get_field (codes "error") payload) (object payload))
describe_error _ = (none, none)

-- `_retry_after` in milliseconds: `seconds` is `float(raw)` and `until` the time that is left until a date,
-- both at least zero, and `none` where the source has a `ValueError`.
unfoldable pub retry_after_of : (Text → Option ℕ) → (Text → Option ℕ) → Dict Text → Option ℕ
unfolding lookup
retry_after_of seconds until headers =
    let raw : Text =
      if is_empty (option_or (lookup (codes "retry-after") headers) [])
      then option_or (lookup (codes "Retry-After") headers) []
      else option_or (lookup (codes "retry-after") headers) [] in
    if is_empty raw then none else elim (seconds raw) [ some ms ↦ some ms | none ↦ until raw ]

-- `_STATUS_ERRORS.get(status_code, default)`, apart from 429
unfoldable pub status_kind : ℕ → Kind
status_kind s =
    if s == 408
    then timeout
    else if s == 401
    then auth
    else if s == 403
    then auth
    else if s == 429
    then rate_limited
    else if s == 504
    then timeout
    else if s == 529
    then unavailable
    else if leb 500 s
    then unavailable
    else bad_request

-- `_status_error`
unfoldable pub status_error :
    Text → (Text → Option ℕ) → (Text → Option ℕ) → ℕ → Option Json → Dict Text → ProviderError
unfolding describe_error retry_after_of status_kind
status_error name seconds until s body headers =
    let code = (describe_error (option_or body null)).1 in
    if s == 429
    then failure name rate_limited (some s) code (retry_after_of seconds until headers)
    else failure name (status_kind s) (some s) code none

-- `_parse_json`
unfoldable pub parse_json : Text → Option Json → Result Json
parse_json name none = raised (provider_error (failure name protocol none none none))
parse_json name (some j) = returned j

-- `_require_mapping`
unfoldable pub require_mapping : Text → Json → Result Fields
require_mapping name (object fs) = returned fs
require_mapping name _ = raised (provider_error (failure name protocol none none none))

-- What the client returns of a POST: a transport failure, or a status with its body and headers.
pub data Posted : Type 0 where
  broken : Bool → Text → Posted
  replied : ℕ → Option Json → Dict Text → Posted

-- `_post`
unfoldable pub post : Text → (Text → Option ℕ) → (Text → Option ℕ) → Posted → Result Json
unfolding transport_error status_error parse_json
post name seconds until (broken timed_out class) =
    raised (provider_error (transport_error name timed_out class))
post name seconds until (replied s body headers) =
    if leb 400 s
    then raised (provider_error (status_error name seconds until s body headers))
    else parse_json name body
