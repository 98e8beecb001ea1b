-- ===== src/Routes.antt =====
-- The answer to a request that failed before anything was sent: `_failure` and `_failed` of
-- src/vortex_ai_gateway/routes.py. A cancellation is not answered: it passes through.
pub mod Refused
pub mod Stream
pub mod Flow
pub mod Handler
mod Tests
use vortex_ai_gateway.Base.{ℕ, ◌+◌, ◌/◌, max, Text, codes, Bool, Option, none, some, option_or}
use vortex_ai_gateway.Providers.Errors.{
  Kind, bad_request, translation, unsupported_parameter, unroutable_model, auth, rate_limited,
  timeout, unavailable, protocol, circuit_open, ProviderError, Raised, provider_error, cancelled,
  other_exception, Result, returned, raised,
}

pub data ErrorType : Type 0 where
  invalid_request_error rate_limit_error api_error : ErrorType

-- `FAILURE_STATUSES`: the first class that the failure is an instance of, and 502 if there is none.
abbrev pub status_of : Kind → ℕ × ErrorType
status_of unroutable_model = (404, invalid_request_error)
status_of bad_request = (400, invalid_request_error)
status_of translation = (400, invalid_request_error)
status_of unsupported_parameter = (400, invalid_request_error)
status_of rate_limited = (429, rate_limit_error)
status_of timeout = (504, api_error)
status_of circuit_open = (503, api_error)
status_of auth = (502, api_error)
status_of unavailable = (502, api_error)
status_of protocol = (502, api_error)

-- `type(exc).__name__`
abbrev pub class_name : Kind → Text
class_name unroutable_model = codes "UnroutableModelError"
class_name bad_request = codes "ProviderBadRequest"
class_name translation = codes "TranslationError"
class_name unsupported_parameter = codes "UnsupportedParameterError"
class_name rate_limited = codes "ProviderRateLimited"
class_name timeout = codes "ProviderTimeout"
class_name circuit_open = codes "CircuitOpenError"
class_name auth = codes "ProviderAuthError"
class_name unavailable = codes "ProviderUnavailable"
class_name protocol = codes "ProviderProtocolError"

-- The status, the error's type, parameter and code, and the `Retry-After` header in seconds.
pub record Failure : Type 0 where
  pub status : ℕ
  pub error_type : ErrorType
  pub param : Option Text
  pub code : Text
  pub retry_after : Option ℕ

-- `max(1, math.ceil(retry_after))`, of milliseconds.
abbrev pub retry_header : Option ℕ → Option ℕ
retry_header none = none
retry_header (some ms) = some (max 1 ((ms + 999) / 1000))

-- `_failed`, with `_failure`
unfoldable pub failed : Raised → Option Failure
failed cancelled = none
failed (other_exception name) =
    some (record {
      status = 502;
      error_type = api_error;
      param = none;
      code = name;
      retry_after = none;
    })
failed (provider_error e) = some (record {
  status = (status_of e.kind).0;
  error_type = (status_of e.kind).1;
  param = e.parameter;
  code = option_or e.code (class_name e.kind);
  retry_after = retry_header e.retry_after;
})

-- The answer to a result of the provider, if it is a failure.
abbrev pub answer_to {ℓ} : {A : Type ℓ} → Result A → Option Failure
answer_to (returned a) = none
answer_to (raised e) = failed e
