-- ===== src/RateLimit/Estimate.antt =====
-- `estimate_tokens` of src/vortex_ai_gateway/ratelimit.py.
use vortex_ai_gateway.Base.{
  ℕ, ℤ, pos, pos_part, neg_part, sub_ℕ, ◌+◌, ◌*◌, ◌/◌, max, map, sum, length, Option, none, some,
  leb, if◌then◌else◌,
}
use vortex_ai_gateway.Config.{Settings}
use vortex_ai_gateway.Contracts.Chat.{
  ContentPart, text_part, image_part, audio_part, Content, absent, plain, parts, Message,
  ChatCompletionRequest, effective_max_tokens,
}

part_chars : ContentPart → ℕ
part_chars (text_part t) = length t
part_chars (image_part t) = 0
part_chars (audio_part t) = 0

-- `len(_text_of(content))`
unfoldable pub text_chars : Content → ℕ
unfolding part_chars
text_chars absent = 0
text_chars (plain t) = length t
text_chars (parts ps) = sum (map part_chars ps)

-- `request.effective_max_tokens or assumed`: a cap of zero counts as none.
completion_cap : Option ℕ → ℤ → ℤ
completion_cap none assumed = assumed
completion_cap (some n) assumed = if leb n 0 then assumed else pos n

-- The assumption may be negative, and then the sum may be; `max` with 1 is natural.
unfoldable pub estimate_tokens : ChatCompletionRequest → Settings → ℕ
unfolding text_chars completion_cap
estimate_tokens r s =
    let prompt = sum (map (λ (m : Message). text_chars m.content) r.messages) / 4 in
    let completion =
      completion_cap (effective_max_tokens r) s.rate_limit_assumed_completion_tokens in
    max 1 (pos_part (sub_ℕ (prompt + pos_part completion * r.n) (neg_part completion * r.n)))
