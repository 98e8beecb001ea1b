-- ===== src/Providers/Http/Classify.antt =====
-- Which failures of src/vortex_ai_gateway/providers/http.py are worth a retry.
use vortex_ai_gateway.Base.{ℕ, ◌≡◌, ◌≤◌, ◌↔◌, ◌⊎◌, Text, true, Option, none, some, Dict, arith}
use vortex_ai_gateway.Contracts.Json.{Json}
use vortex_ai_gateway.Providers.Errors.{retryable}
use vortex_ai_gateway.Providers.Http.{status_kind, status_error}

-- A refusal is worth a retry exactly if it is a time-out (408), a rate limit (429) or a failure of the
-- vendor's own (500 and up); and only a rate limit carries the wait that the vendor asks for.
pub status_error-retryable_iff :
    (name : Text) (seconds until : Text → Option ℕ) (s : ℕ) (body : Option Json)
    (headers : Dict Text)
    → let e = status_error name seconds until s body headers in
      ((retryable e ≡ true) ↔ ((s ≡ 408) ⊎ ((s ≡ 429) ⊎ (500 ≤ s))))
      × ((s ≡ 429) ⊎ (e.retry_after ≡ none))
      × (e.status_code ≡ some s)
unfolding status_error status_kind
status_error-retryable_iff name seconds until s body headers =
    (ground arith, ground arith, ground arith)
