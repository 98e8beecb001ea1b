-- ===== src/Metering/Settle.antt =====
-- What `Meter` of src/vortex_ai_gateway/metering.py admits, and what a settled request costs.
use vortex_ai_gateway.Base.{
  ℕ, ◌-◌, ◌*◌, ◌<◌, ◌≡◌, refl, ◌↔◌, ◌⊎◌, ◌≢◌, Text, true, false, some, List, arith,
}
use Prim.{absurd}
use vortex_ai_gateway.Config.{Settings}
use vortex_ai_gateway.Auth.Identity.{Principal}
use vortex_ai_gateway.Contracts.Chat.{ChatCompletionRequest, TokenUsage}
use vortex_ai_gateway.RateLimit.Redis.{Server}
use vortex_ai_gateway.RateLimit.Bucket.{window, measure}
use vortex_ai_gateway.RateLimit.Estimate.{estimate_tokens}
use vortex_ai_gateway.RateLimit.Limiter.{
  Link, up, down, reply_lost, Decision, tokens_key, admit_request,
}
use vortex_ai_gateway.RateLimit.Limiter.Settle.{reconcile-admit_request}
use vortex_ai_gateway.Metering.Meter.{
  Reservation, reserved, too_large, rate_limited, Entry, Count, Wiring, never_fits, admit_metered,
  discard, settle_usage,
}

module _ (server : Server) (prefix : Text) (wiring : Wiring) (settings : Settings) where
  open server use {State, read}

  -- The `400` of a request that could never be admitted is the answer exactly if a limiter is
  -- configured and the estimate exceeds the caller's whole token limit, whatever the state of the
  -- buckets and of Redis; and it leaves the buckets alone.
  pub admit_metered-too_large_iff :
      (link : Link) (now : ℕ) (p : Principal) (r : ChatCompletionRequest) (s : State)
      → let estimate = estimate_tokens r settings in
        (((admit_metered server prefix wiring settings link now p r s).0 ≡ too_large estimate)
          ↔ ((wiring.limiter ≡ true) × (0 < p.tpm) × (p.tpm < estimate)))
        × ((never_fits server prefix wiring settings p estimate ≡ false)
            ⊎ ((admit_metered server prefix wiring settings link now p r s).1 ≡ s))
  unfolding admit_metered never_fits
  admit_metered-too_large_iff link now p r s = (ground arith, ground arith)

  -- While Redis cannot be reached, or its replies are lost, no caller is turned away for their rate.
  pub admit_metered-fails_open :
      (link : Link) (now : ℕ) (p : Principal) (r : ChatCompletionRequest) (s : State) (d : Decision)
      → link ≢ up
      → (admit_metered server prefix wiring settings link now p r s).0 ≢ rate_limited d
  unfolding admit_metered admit_request
  admit_metered-fails_open up now p r s d cut = absurd (cut refl)
  admit_metered-fails_open down now p r s d cut = λ e. ground arith
  admit_metered-fails_open reply_lost now p r s d cut = λ e. ground arith

  -- A reservation of a working limiter is what the limiter admitted: for the request's estimate.
  admit_metered-reserved :
      (now : ℕ) (p : Principal) (r : ChatCompletionRequest) (s s' : State) (v : Reservation)
      → wiring.limiter ≡ true
      → 0 < p.tpm
      → admit_metered server prefix wiring settings up now p r s ≡ (reserved v, s')
      → let estimate = estimate_tokens r settings in
        let out = admit_request server prefix up now p estimate s in
        (out.0.allowed ≡ true)
        × (s' ≡ out.1)
        × (v.principal ≡ p)
        × (v.decision.reserved_tokens ≡ estimate)
  unfolding admit_metered admit_request
  admit_metered-reserved now p r s s' v on h e = ground arith

  -- With a limiter configured, a positive token limit, and a Redis that answers at the admission and
  -- at the settlement, an admitted request that settles in the same millisecond costs its caller's
  -- token bucket exactly the tokens that it used, as far as the bucket held them, and nothing if it
  -- is discarded, whatever was estimated for it.
  pub settle_usage-admit_metered :
      (now : ℕ) (p : Principal) (r : ChatCompletionRequest) (s s' : State) (v : Reservation)
      (u : TokenUsage) (entries : List Entry) (counts : List Count)
      → wiring.limiter ≡ true
      → 0 < p.tpm
      → admit_metered server prefix wiring settings up now p r s ≡ (reserved v, s')
      → let level = measure now p.tpm (read (tokens_key prefix p.key_id) s) in
        (read
            (tokens_key prefix p.key_id)
            (settle_usage server prefix wiring settings up now v (some u) (s', entries, counts)).0
          ≡ some (record { tokens = level - u.total_tokens * window; ts = now }))
        × (read (tokens_key prefix p.key_id) (discard server prefix wiring settings up now v s')
            ≡ some (record { tokens = level; ts = now }))
  unfolding settle_usage discard
  settle_usage-admit_metered now p r s s' v u entries counts on h e =
      let (admitted, after, who, held) = admit_metered-reserved now p r s s' v on h e in
      let estimate = estimate_tokens r settings in
      let cost = λ (n : ℕ). reconcile-admit_request server prefix now p estimate n s h admitted in
      (ground (arith, cost u.total_tokens), ground (arith, cost 0))
