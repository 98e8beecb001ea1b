-- ===== src/Routes/Handler/Repeat.antt =====
-- What `create_chat_completion` of src/vortex_ai_gateway/routes.py answers to a question that it has
-- answered before.
use vortex_ai_gateway.Base.{
  ℕ, ◌+◌, ap, Dict, ◌≡◌, refl, ◌∙◌, Text, true, false, Option, none, some, if◌then◌else◌,
  Bool-cases, Option-cases, inl, inr, arith,
}
use Prim.{absurd}
use mathlib.Core.Path.{subst, sym}
use vortex_ai_gateway.Contracts.Chat.{ChatCompletionRequest, ChatCompletionResponse}
use vortex_ai_gateway.Metering.Meter.{Reservation, reserved, admit_metered}
use vortex_ai_gateway.Cache.Store.{Found, hit, bypass, canonical_payload, ttl_for, skips, key_for}
use vortex_ai_gateway.Cache.Again.{store_response-stats}
use vortex_ai_gateway.Semantic.Cache.{Nearby, SemanticState, SemanticCache, skip_nearby}
use vortex_ai_gateway.Routes.Flow.{
  Gateway, World, Weather, Reply, Headers, answered, Ask, settled, looked_up, looked_near,
  cached_of, from_cache,
}
use vortex_ai_gateway.Routes.Handler.{answer_or_ask, on_found, on_admission, create_chat_completion}
use vortex_ai_gateway.Routes.Handler.Kept.{
  Kept, Finds, Same, again, answer_or_ask-Kept, looked_up-Finds, looked_up-again-Finds,
  from_cache-kept,
}

skip_nearby-shape {ℓ} :
    {V : Type ℓ} (c : SemanticCache V) (s : SemanticState V)
    → (skip_nearby c s).0 ≡ record {
      outcome = if c.configured then some bypass else none;
      response = none;
      score = none;
      slot = none;
    }
unfolding skip_nearby
skip_nearby-shape c s = elim (Bool-cases c.configured) [
  | inl on ↦ rw on refl
  | inr off ↦ rw off refl
]

module _ (g : Gateway) where
  -- The answer to a request that the response cache answers.
  abbrev from_exact : Reservation → ChatCompletionResponse → Reply
  from_exact v a =
      answered
        (record {
          decision = v.decision;
          exact = some hit;
          semantic = if g.semantic.configured then some bypass else none;
          score = none;
        })
        a

  -- What a reply and a world say of the provider and the response cache.
  Served : Reservation → ChatCompletionResponse → World g → Reply × World g → Type 0
  Served v a w out =
      (out.0 ≡ from_exact v a) × (out.1.upstream ≡ w.upstream) × (out.1.kept ≡ w.kept)

  on_found-Served :
      (ask : Ask) (a : ChatCompletionResponse) (v : Reservation) (k : Text) (ttl : ℕ) (w : World g)
      → Served v a w (
          on_found g ask v
            (record { outcome = some hit; response = some a; key = some k; ttl = ttl }, w))
  unfolding Served on_found looked_near answer_or_ask from_cache settled
  on_found-Served ask a v k ttl w = (
    ap
        (λ (n : Nearby g.Vector).
          answered
            (record {
              decision = v.decision;
              exact = some hit;
              semantic = n.outcome;
              score = n.score;
            })
            a)
        (skip_nearby-shape g.semantic w.near),
    refl,
    refl,
  )

  looked_up-Served :
      (ask : Ask) (a : ChatCompletionResponse) (v : Reservation) (k : Text) (ttl : ℕ)
      (w w' : World g)
      → looked_up g ask w
        ≡ (record { outcome = some hit; response = some a; key = some k; ttl = ttl }, w')
      → Served v a w' (on_found g ask v (looked_up g ask w))
  looked_up-Served ask a v k ttl w w' e =
      subst (λ out. Served v a w' (on_found g ask v out)) (sym e) (on_found-Served ask a v k ttl w')

  -- The world after the lookups of a request keeps what the response cache keeps.
  looked_near-keeps :
      (ask : Ask) (found : Found) (w : World g)
      → ((looked_near g ask found w).1.kept ≡ w.kept)
        × ((looked_near g ask found w).1.cache_stats ≡ w.cache_stats)
  unfolding looked_near
  looked_near-keeps ask found w = (refl, refl)

  -- From the second lookup on, with what the response cache found.
  on_found-Kept :
      (ask : Ask) (found : Found) (v : Reservation) (a : ChatCompletionResponse) (h : Headers)
      (w : World g)
      → ask.request.stream ≡ false
      → found.response ≡ none
      → (on_found g ask v (found, w)).0 ≡ answered h a
      → Kept g ask found a w (on_found g ask v (found, w)).1
  unfolding on_found Kept
  on_found-Kept ask found v a h w whole missed e =
      let (near, w') = looked_near g ask found w in
      let kept =
        answer_or_ask-Kept g ask found near (cached_of g found near) v a h w' whole missed e in
      let (same, counted) = looked_near-keeps ask found w in kept ∙ rw (same, counted) refl

  answer_or_ask-exact :
      (ask : Ask) (found : Found) (near : Nearby g.Vector) (cached : Option ChatCompletionResponse)
      (v : Reservation) (a b : ChatCompletionResponse) (h : Headers) (w : World g)
      → cached ≡ some b
      → found.response ≡ some b
      → (answer_or_ask g ask found near cached v w).0 ≡ answered h a
      → (found.response ≡ some a) × ((answer_or_ask g ask found near cached v w).1.kept ≡ w.kept)
  unfolding answer_or_ask
  answer_or_ask-exact ask found near none v a b h w cached exact e = absurd (ground (arith, cached))
  answer_or_ask-exact ask found near (some c) v a b h w cached exact e =
      (ground (arith, cached, exact, e), from_cache-kept g ask found v c b w exact)

  on_found-exact :
      (ask : Ask) (found : Found) (v : Reservation) (a b : ChatCompletionResponse) (h : Headers)
      (w : World g)
      → found.response ≡ some b
      → (on_found g ask v (found, w)).0 ≡ answered h a
      → (found.response ≡ some a) × ((on_found g ask v (found, w)).1.kept ≡ w.kept)
  unfolding on_found
  on_found-exact ask found v a b h w exact e =
      let (near, w') = looked_near g ask found w in
      let cached : cached_of g found near ≡ some b = rw exact refl in
      let (same, kept) =
        answer_or_ask-exact ask found near (cached_of g found near) v a b h w' cached exact e in
      (same, kept ∙ (looked_near-keeps ask found w).0)

  -- After an answer, the response cache finds it, in any world that keeps what it kept.
  on_found-Finds :
      (ask : Ask) (r : ChatCompletionRequest) (headers : Dict Text) (weather : Weather)
      (v : Reservation) (a : ChatCompletionResponse) (h : Headers) (w w' : World g)
      → g.parse (g.print a) ≡ some a
      → g.cache.enabled ≡ true
      → ask.weather.set_up ≡ true
      → weather.get_up ≡ true
      → ask.request.stream ≡ false
      → Same g ask r headers
      → (on_found g ask v (looked_up g ask w)).0 ≡ answered h a
      → w'.kept ≡ (on_found g ask v (looked_up g ask w)).1.kept
      → Finds g ask.request (again g ask r headers weather) a w'
  unfolding looked_up Kept
  on_found-Finds ask r headers weather v a h w w' reads on set_up get_up whole same e kept =
      let (found, w1) = looked_up g ask w in
      elim (Option-cases found.response) [
        | inl missed ↦
            let after = on_found-Kept ask found v a h w1 whole missed e in
            looked_up-Finds g ask r headers weather a w w' reads on set_up get_up same (
              kept
              ∙ (after
                  ∙ store_response-stats g.store g.dumps g.sha256 g.print g.parse g.cache
                      ask.weather.set_up found a w.kept w1.cache_stats w.cache_stats))
        | inr (b, exact) ↦
            let (same_answer, after) = on_found-exact ask found v a b h w1 exact e in
            looked_up-again-Finds g ask r headers weather a w w' on get_up same same_answer
              (kept ∙ after)
      ]

  create-on_admission :
      (ask : Ask) (w : World g) (v : Reservation) (s : g.limits.State)
      → admit_metered g.limits g.prefix g.wiring g.settings ask.weather.admit_link
          ask.weather.admit_at ask.principal ask.request w.buckets
        ≡ (reserved v, s)
      → create_chat_completion g ask w
        ≡ on_found g ask v (looked_up g ask (record w { buckets = s }))
  unfolding create_chat_completion on_admission
  create-on_admission ask w v s e = rw e refl

  -- A question that was answered, by the provider or from either cache, is answered by the response
  -- cache when the same caller asks it again on the same route: with the same answer, and without
  -- a call of the provider. The two requests have one canonical payload, so they may differ in
  -- `user` or `metadata`; neither is streamed or opts out, both are admitted, Redis takes the first
  -- answer and gives it back, and the printed answer reads back as itself.
  pub create_chat_completion-repeat :
      (ask : Ask) (r : ChatCompletionRequest) (headers : Dict Text) (weather : Weather)
      (w : World g) (v v' : Reservation) (s s' : g.limits.State) (a : ChatCompletionResponse)
      (h : Headers)
      → g.parse (g.print a) ≡ some a
      → g.cache.enabled ≡ true
      → ask.weather.set_up ≡ true
      → weather.get_up ≡ true
      → ask.request.stream ≡ false
      → canonical_payload ask.request ≡ canonical_payload r
      → skips g.store g.dumps g.sha256 g.print g.parse g.cache ask.request ask.path ask.headers
        ≡ false
      → skips g.store g.dumps g.sha256 g.print g.parse g.cache r ask.path headers ≡ false
      → admit_metered g.limits g.prefix g.wiring g.settings ask.weather.admit_link
          ask.weather.admit_at ask.principal ask.request w.buckets
        ≡ (reserved v, s)
      → (create_chat_completion g ask w).0 ≡ answered h a
      → admit_metered g.limits g.prefix g.wiring g.settings weather.admit_link weather.admit_at
          ask.principal r
          (create_chat_completion g ask w).1.buckets
        ≡ (reserved v', s')
      → let w' = (create_chat_completion g ask w).1 in
        let out = create_chat_completion g (again g ask r headers weather) w' in
        (out.0 ≡ from_exact v' a) × (out.1.upstream ≡ w'.upstream)
  unfolding Finds Same Served
  create_chat_completion-repeat ask r headers weather w v v' s s' a h reads on set_up get_up whole
        same go go' first answer second =
      let w' = (create_chat_completion g ask w).1 in
      let ask' = again g ask r headers weather in
      let w2 : World g = record w' { buckets = s' } in
      let step = create-on_admission ask w v s first in
      let answer' = ap (λ (x : Reply × World g). x.0) (sym step) ∙ answer in
      let found =
        on_found-Finds ask r headers weather v a h (record w { buckets = s }) w2 reads on set_up
          get_up whole (same, go, go') answer' (ap (λ (x : Reply × World g). x.1.kept) step) in
      let step' = create-on_admission ask' w' v' s' second in
      let served =
        looked_up-Served ask' a v'
          (key_for g.store g.dumps g.sha256 g.print g.parse g.cache ask.principal ask.request
            ask.path)
          (ttl_for g.cache ask.path) w2
          (record w2 { cache_stats = record w2.cache_stats { hits = w2.cache_stats.hits + 1 } })
          found in
      (
        ap (λ (x : Reply × World g). x.0) step' ∙ served.0,
        ap (λ (x : Reply × World g). x.1.upstream) step' ∙ served.1,
      )
