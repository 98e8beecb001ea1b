-- ===== src/Providers/Errors.antt =====
-- The failures of src/vortex_ai_gateway/providers/errors.py, and `UnroutableModelError` of
-- src/vortex_ai_gateway/routing.py. An exception is a record whose class is its kind.
use vortex_ai_gateway.Base.{ℕ, Text, codes, Bool, true, false, Option, none, some}

pub data Kind : Type 0 where
  bad_request translation unsupported_parameter unroutable_model auth rate_limited timeout
        unavailable protocol circuit_open :
      Kind

pub record ProviderError : Type 0 where
  pub kind : Kind
  pub provider : Text
  pub status_code : Option ℕ
  pub code : Option Text
  pub parameter : Option Text
  pub retry_after : Option ℕ

-- The class attribute `retryable`.
abbrev pub retryable_kind : Kind → Bool
retryable_kind rate_limited = true
retryable_kind timeout = true
retryable_kind unavailable = true
retryable_kind _ = false

abbrev pub retryable : ProviderError → Bool
retryable e = retryable_kind e.kind

-- `isinstance(exc, ProviderBadRequest)`: the class and its subclasses.
abbrev pub is_bad_request : Kind → Bool
is_bad_request bad_request = true
is_bad_request translation = true
is_bad_request unsupported_parameter = true
is_bad_request unroutable_model = true
is_bad_request _ = false

abbrev pub is_circuit_open : Kind → Bool
is_circuit_open circuit_open = true
is_circuit_open _ = false

unfoldable pub circuit_open_error : Text → Option ℕ → ProviderError
circuit_open_error provider retry_after = record {
  kind = circuit_open;
  provider = provider;
  status_code = none;
  code = some (codes "circuit_open");
  parameter = none;
  retry_after = retry_after;
}

-- What a call leaves besides a value: a provider's failure, a cancellation, or any other exception.
pub data Raised : Type 0 where
  provider_error : ProviderError → Raised
  cancelled : Raised
  other_exception : Text → Raised

pub data Result {ℓ} (A : Type ℓ) : Type ℓ where
  returned : A → Result A
  raised : Raised → Result A
