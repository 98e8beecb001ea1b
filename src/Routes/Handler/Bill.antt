-- ===== src/Routes/Handler/Bill.antt =====
-- What a request of `create_chat_completion` in src/vortex_ai_gateway/routes.py costs its caller.
use vortex_ai_gateway.Base.{
  ℕ, ◌-◌, ◌*◌, ◌<◌, ◌≡◌, refl, Bool, true, false, Option, none, some, is_some, if◌then◌else◌,
  Bool-cases, Option-cases, inl, inr, arith,
}
use Prim.{absurd}
use vortex_ai_gateway.Contracts.Chat.{ChatCompletionResponse, TokenUsage}
use vortex_ai_gateway.RateLimit.Bucket.{window, measure}
use vortex_ai_gateway.RateLimit.Limiter.{up, tokens_key}
use vortex_ai_gateway.Metering.Meter.{Reservation, reserved, admit_metered}
use vortex_ai_gateway.Metering.Settle.{settle_usage-admit_metered}
use vortex_ai_gateway.Cache.Store.{Found}
use vortex_ai_gateway.Semantic.Cache.{Nearby, SemanticState, store_nearby}
use vortex_ai_gateway.Providers.Errors.{Result, returned, raised}
use vortex_ai_gateway.Routes.{failed}
use vortex_ai_gateway.Routes.Flow.{
  Gateway, World, Weather, Reply, answered, headers_of, Ask, settled, discarded, stored, looked_up,
  looked_near, cached_of, from_cache, keep_near, complete_with,
}
use vortex_ai_gateway.Routes.Handler.{
  asked, answer_or_ask, on_found, on_admission, create_chat_completion,
}

-- What is known to have been generated for a request that is not streamed: nothing if a cache has the
-- answer or the provider fails, and what the provider reports if it answers.
unfoldable pub generated : Option ChatCompletionResponse → Result ChatCompletionResponse → Option ℕ
unfolding failed
generated (some a) result = some 0
generated none (returned a) = elim a.usage [ none ↦ none | some u ↦ some u.total_tokens ]
generated none (raised e) = elim (failed e) [ none ↦ none | some f ↦ some 0 ]

if_false {ℓ} : {A : Type ℓ} {b : Bool} (x y : A) → b ≡ false → (if b then x else y) ≡ y
if_false x y whole = rw whole refl

module _ (g : Gateway) where
  -- The world that a request finds after its two lookups, and the answer that they found.
  abbrev pub after_lookups : Ask → World g → Option ChatCompletionResponse × World g
  after_lookups ask w =
      let (found, w') = looked_up g ask w in
      let (near, w'') = looked_near g ask found w' in (cached_of g found near, w'')

  lookups-keep :
      (ask : Ask) (w : World g)
      → ((after_lookups ask w).1.buckets ≡ w.buckets)
        × ((after_lookups ask w).1.upstream ≡ w.upstream)
  unfolding looked_up looked_near
  lookups-keep ask w = (refl, refl)

  -- The token bucket of the caller, charged with `n` of the level that the request found.
  Charged : Ask → World g → ℕ → World g → Type 0
  Charged ask w n w' =
      let key = tokens_key g.prefix ask.principal.key_id in
      let level = measure ask.weather.admit_at ask.principal.tpm (g.limits.read key w.buckets) in
      g.limits.read key w'.buckets
      ≡ some (record { tokens = level - n * window; ts = ask.weather.admit_at })

  -- The reservation that a working limiter gave at the time when it is settled.
  Held : Ask → World g → Reservation → World g → Type 0
  Held ask w v w' =
      (g.wiring.limiter ≡ true)
      × (0 < ask.principal.tpm)
      × (ask.weather.settle_link ≡ up)
      × (ask.weather.settle_at ≡ ask.weather.admit_at)
      × (admit_metered g.limits g.prefix g.wiring g.settings up ask.weather.admit_at ask.principal
            ask.request w.buckets
          ≡ (reserved v, w'.buckets))

  settled-Charged :
      (ask : Ask) (w w' : World g) (v : Reservation) (u : TokenUsage)
      → Held ask w v w'
      → Charged ask w u.total_tokens (settled g ask.weather v (some u) w')
  unfolding settled Charged Held
  settled-Charged ask w w' v u (on, h, link, time, e) =
      let cost =
        settle_usage-admit_metered g.limits g.prefix g.wiring g.settings ask.weather.admit_at
          ask.principal ask.request w.buckets w'.buckets v u w'.entries w'.counts on h e in
      rw (link, time) cost.0

  discarded-Charged :
      (ask : Ask) (w w' : World g) (v : Reservation)
      → Held ask w v w'
      → Charged ask w 0 (discarded g ask.weather v w')
  unfolding discarded Charged Held
  discarded-Charged ask w w' v (on, h, link, time, e) =
      let free : TokenUsage = record {
        prompt_tokens = 0;
        completion_tokens = 0;
        total_tokens = 0;
      } in
      let cost =
        settle_usage-admit_metered g.limits g.prefix g.wiring g.settings ask.weather.admit_at
          ask.principal ask.request w.buckets w'.buckets v free w'.entries w'.counts on h e in
      ground (arith, link, time, cost.1)

  stored-buckets :
      (weather : Weather) (found : Found) (a : ChatCompletionResponse) (w : World g)
      → ((stored g weather found a w).buckets ≡ w.buckets)
        × ((stored g weather found a w).upstream ≡ w.upstream)
  unfolding stored
  stored-buckets weather found a w = (refl, refl)

  from_cache-Charged :
      (ask : Ask) (w w' : World g) (v : Reservation) (found : Found) (a : ChatCompletionResponse)
      → Held ask w v w'
      → Charged ask w 0 (from_cache g ask.weather found v a w')
        × ((from_cache g ask.weather found v a w').upstream ≡ w'.upstream)
  unfolding from_cache Charged settled stored
  from_cache-Charged ask w w' v found a held =
      let cost =
        settled-Charged ask w w' v
          (record { prompt_tokens = 0; completion_tokens = 0; total_tokens = 0 }) held in
      elim (Bool-cases (is_some found.response)) [
        | inl exact ↦ (ground (arith, cost), ground arith)
        | inr near ↦ (ground (arith, cost), ground arith)
      ]

  keep_near-keeps :
      (reply : Reply) (w : World g) (near : Option (SemanticState g.Vector))
      → ((keep_near g reply w near).1.buckets ≡ w.buckets)
        × ((keep_near g reply w near).1.upstream ≡ w.upstream)
  unfolding keep_near
  keep_near-keeps reply w none = (refl, refl)
  keep_near-keeps reply w (some near) = (refl, refl)

  complete_with-Charged :
      (ask : Ask) (w w' : World g) (v : Reservation) (found : Found) (near : Nearby g.Vector)
      (result : Result ChatCompletionResponse) (n : ℕ)
      → Held ask w v w'
      → generated none result ≡ some n
      → Charged ask w n (complete_with g ask.weather found near v result w').1
        × ((complete_with g ask.weather found near v result w').1.upstream ≡ w'.upstream)
  unfolding complete_with Charged generated settled stored discarded
  complete_with-Charged ask w w' v found near (returned a) n held known =
      let w'' = settled g ask.weather v a.usage w' in
      let stored_near = store_nearby g.semantic near a (stored g ask.weather found a w'').near in
      let keeps =
        keep_near-keeps (answered (headers_of g v found near) a) (stored g ask.weather found a w'')
          stored_near in
      elim (Option-cases a.usage) [
        | inl unknown ↦ absurd (ground arith)
        | inr (u, told) ↦
            let cost = settled-Charged ask w w' v u held in
            (ground (arith, cost, keeps), ground (arith, keeps))
      ]
  complete_with-Charged ask w w' v found near (raised e) n held known =
      elim (Option-cases (failed e)) [
        | inl cut ↦ absurd (ground arith)
        | inr (f, told) ↦ (ground (arith, discarded-Charged ask w w' v held), ground arith)
      ]

  pub asked-whole :
      (ask : Ask) (w : World g) (v : Reservation) (found : Found) (near : Nearby g.Vector)
      → ask.request.stream ≡ false
      → let (result, upstream) = g.complete ask.request w.upstream in
        asked g ask found near v w
        ≡ complete_with g ask.weather found near v result (record w { upstream = upstream })
  unfolding asked
  asked-whole ask w v found near whole = if_false _ _ whole

  asked-Charged :
      (ask : Ask) (w w' : World g) (v : Reservation) (found : Found) (near : Nearby g.Vector)
      (n : ℕ)
      → Held ask w v w'
      → ask.request.stream ≡ false
      → generated none (g.complete ask.request w'.upstream).0 ≡ some n
      → Charged ask w n (asked g ask found near v w').1
        × ((asked g ask found near v w').1.upstream ≡ (g.complete ask.request w'.upstream).1)
  unfolding Charged Held
  asked-Charged ask w w' v found near n held whole known =
      let (result, upstream) = g.complete ask.request w'.upstream in
      let cost =
        complete_with-Charged ask w (record w' { upstream = upstream }) v found near result n held
          known in
      rw (asked-whole ask w' v found near whole) cost

  answer_or_ask-Charged :
      (ask : Ask) (w w' : World g) (v : Reservation) (found : Found) (near : Nearby g.Vector)
      (cached : Option ChatCompletionResponse) (n : ℕ)
      → Held ask w v w'
      → ask.request.stream ≡ false
      → generated cached (g.complete ask.request w'.upstream).0 ≡ some n
      → Charged ask w n (answer_or_ask g ask found near cached v w').1
        × ((answer_or_ask g ask found near cached v w').1.upstream
            ≡ (if is_some cached then w'.upstream else (g.complete ask.request w'.upstream).1))
  unfolding answer_or_ask generated Charged
  answer_or_ask-Charged ask w w' v found near none n held whole known =
      asked-Charged ask w w' v found near n held whole known
  answer_or_ask-Charged ask w w' v found near (some a) n held whole known =
      let free : n ≡ 0 = ground (arith, known) in
      rw free (from_cache-Charged ask w w' v found a held)

  -- A request that is not streamed and is admitted by a working limiter costs its caller's token
  -- bucket exactly what was generated for it: nothing if either cache has the answer, and then the
  -- provider is not asked; nothing if the provider fails; and else the tokens that the provider
  -- reports, as far as the bucket holds them. Redis answers, and the request ends in the millisecond
  -- that it came in.
  pub create_chat_completion-bill :
      (ask : Ask) (w : World g) (v : Reservation) (s : g.limits.State) (n : ℕ)
      → g.wiring.limiter ≡ true
      → 0 < ask.principal.tpm
      → ask.weather.admit_link ≡ up
      → ask.weather.settle_link ≡ up
      → ask.weather.settle_at ≡ ask.weather.admit_at
      → ask.request.stream ≡ false
      → admit_metered g.limits g.prefix g.wiring g.settings up ask.weather.admit_at ask.principal
          ask.request w.buckets
        ≡ (reserved v, s)
      → let cached = (after_lookups ask (record w { buckets = s })).0 in
        let provided = g.complete ask.request w.upstream in
        generated cached provided.0 ≡ some n
        → let cached = (after_lookups ask (record w { buckets = s })).0 in
          let provided = g.complete ask.request w.upstream in
          let w' = (create_chat_completion g ask w).1 in
          let key = tokens_key g.prefix ask.principal.key_id in
          let level =
            measure ask.weather.admit_at ask.principal.tpm (g.limits.read key w.buckets) in
          (g.limits.read key w'.buckets
            ≡ some (record { tokens = level - n * window; ts = ask.weather.admit_at }))
          × (w'.upstream ≡ (if is_some cached then w.upstream else provided.1))
  unfolding create_chat_completion on_admission on_found Charged Held looked_up looked_near
  create_chat_completion-bill ask w v s n on h link link' time whole e known =
      let (found, w1) = looked_up g ask (record w { buckets = s }) in
      let (near, w2) = looked_near g ask found w1 in
      rw (link, e)
        (answer_or_ask-Charged ask w w2 v found near (cached_of g found near) n
          (on, h, link', time, e) whole known)
