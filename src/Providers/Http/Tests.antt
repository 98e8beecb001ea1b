-- ===== src/Providers/Http/Tests.antt =====
-- The theorems on the base of the adapters.
use vortex_ai_gateway.Base.{
  partition, lstrip, ℕ, ◌≡◌, ◌≤◌, ◌↔◌, ◌⊎◌, refl, Text, codes, true, none, some, Option, List, [],
  ◌∷◌,
}
use vortex_ai_gateway.Providers.Errors.{retryable}
use vortex_ai_gateway.Providers.Http.{status_error, sse_payloads}
use vortex_ai_gateway.Providers.Http.Classify.{status_error-retryable_iff}
use vortex_ai_gateway.Providers.Http.Events.{
  Sent, data_line, field_line, comment, separator, lines_of, line_of, payloads_of, AreFlush,
  sse_payloads-lines_of,
}

abbrev two_seconds : Text → Option ℕ
two_seconds raw = some 2000

abbrev limited : ℕ
limited = 429

abbrev no_date : Text → Option ℕ
no_date raw = none

status_error-retryable_iff_example :
    let e =
      status_error
        (codes "openai")
        two_seconds
        no_date
        limited
        none
        ((codes "retry-after", codes "2") ∷ []) in
    ((retryable e ≡ true) ↔ ((limited ≡ 408) ⊎ ((limited ≡ limited) ⊎ (500 ≤ limited))))
    × ((limited ≡ limited) ⊎ (e.retry_after ≡ none))
    × (e.status_code ≡ some limited)
status_error-retryable_iff_example =
    status_error-retryable_iff (codes "openai") two_seconds no_date limited none
      ((codes "retry-after", codes "2") ∷ [])

wait_run :
    (status_error
      (codes "openai")
      two_seconds
      no_date
      limited
      none
      ((codes "retry-after", codes "2") ∷ [])).retry_after
    ≡ some 2000
unfolding status_error
wait_run = refl

abbrev feed : List Sent
feed =
    comment (codes " ping")
    ∷ field_line (codes "event") (codes " message_stop")
    ∷ data_line (codes "{}")
    ∷ separator
    ∷ data_line (codes "[DONE]")
    ∷ separator
    ∷ []

sse_payloads-lines_of_example : sse_payloads (lines_of feed) ≡ payloads_of feed
unfolding AreFlush lstrip
sse_payloads-lines_of_example = sse_payloads-lines_of feed (refl, refl, (refl, (refl, tt)))

feed_run : sse_payloads (lines_of feed) ≡ codes "{}" ∷ codes "[DONE]" ∷ []
unfolding sse_payloads lines_of partition lstrip line_of
feed_run = refl
