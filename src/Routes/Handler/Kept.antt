-- ===== src/Routes/Handler/Kept.antt =====
-- What the response cache keeps and finds after an answer of `create_chat_completion` in
-- src/vortex_ai_gateway/routes.py.
use vortex_ai_gateway.Base.{
  ◌+◌, ap, Dict, ◌≡◌, refl, Text, true, false, Option, none, some, Option-cases, inl, inr, arith,
}
use Prim.{absurd}
use vortex_ai_gateway.Contracts.Chat.{ChatCompletionRequest, ChatCompletionResponse}
use vortex_ai_gateway.Metering.Meter.{Reservation}
use vortex_ai_gateway.Cache.Store.{
  Found, CacheStats, hit, canonical_payload, ttl_for, skips, key_for, store_response,
}
use vortex_ai_gateway.Cache.Hits.{store_response-hit}
use vortex_ai_gateway.Cache.Again.{find_response-again}
use vortex_ai_gateway.Semantic.Cache.{Nearby, SemanticState, store_nearby}
use vortex_ai_gateway.Providers.Errors.{Result, returned, raised}
use vortex_ai_gateway.Routes.{failed}
use vortex_ai_gateway.Routes.Flow.{
  Gateway, World, Weather, Headers, answered, headers_of, Ask, settled, stored, looked_up,
  from_cache, keep_near, complete_with,
}
use vortex_ai_gateway.Routes.Handler.{answer_or_ask}
use vortex_ai_gateway.Routes.Handler.Bill.{asked-whole}

module _ (g : Gateway) where
  -- What the response cache keeps after a request that was answered with `a`.
  unfoldable pub Kept : Ask → Found → ChatCompletionResponse → World g → World g → Type 0
  Kept ask found a w w' =
      w'.kept
      ≡ (store_response g.store g.dumps g.sha256 g.print g.parse g.cache ask.weather.set_up found a
          w.kept w.cache_stats).0

  pub keep_near-Kept :
      (ask : Ask) (found : Found) (a b : ChatCompletionResponse) (h h' : Headers) (w w' : World g)
      (near : Option (SemanticState g.Vector))
      → Kept ask found b w w'
      → (keep_near g (answered h b) w' near).0 ≡ answered h' a
      → Kept ask found a w (keep_near g (answered h b) w' near).1
  unfolding keep_near Kept
  keep_near-Kept ask found a b h h' w w' none kept e = ground (arith, e)
  keep_near-Kept ask found a b h h' w w' (some near) kept e = ground (arith, e, kept)

  pub complete_with-Kept :
      (ask : Ask) (found : Found) (near : Nearby g.Vector) (v : Reservation)
      (result : Result ChatCompletionResponse) (a : ChatCompletionResponse) (h : Headers)
      (w : World g)
      → (complete_with g ask.weather found near v result w).0 ≡ answered h a
      → Kept ask found a w (complete_with g ask.weather found near v result w).1
  unfolding complete_with Kept settled stored
  complete_with-Kept ask found near v (returned b) a h w e =
      let w' = stored g ask.weather found b (settled g ask.weather v b.usage w) in
      keep_near-Kept ask found a b (headers_of g v found near) h w w'
        (store_nearby g.semantic near b w'.near) refl e
  complete_with-Kept ask found near v (raised e) a h w answer = elim (Option-cases (failed e)) [
    | inl cut ↦ absurd (ground arith)
    | inr (f, told) ↦ absurd (ground arith)
  ]

  pub from_cache-Kept :
      (ask : Ask) (found : Found) (v : Reservation) (a : ChatCompletionResponse) (w : World g)
      → found.response ≡ none
      → Kept ask found a w (from_cache g ask.weather found v a w)
  unfolding from_cache Kept settled stored
  from_cache-Kept ask found v a w missed = ground arith

  pub answer_or_ask-Kept :
      (ask : Ask) (found : Found) (near : Nearby g.Vector) (cached : Option ChatCompletionResponse)
      (v : Reservation) (a : ChatCompletionResponse) (h : Headers) (w : World g)
      → ask.request.stream ≡ false
      → found.response ≡ none
      → (answer_or_ask g ask found near cached v w).0 ≡ answered h a
      → Kept ask found a w (answer_or_ask g ask found near cached v w).1
  unfolding answer_or_ask Kept
  answer_or_ask-Kept ask found near none v a h w whole missed e =
      let (result, upstream) = g.complete ask.request w.upstream in
      let kept =
        complete_with-Kept ask found near v result a h (record w { upstream = upstream }) in
      ground (arith, asked-whole g ask w v found near whole, kept)
  answer_or_ask-Kept ask found near (some b) v a h w whole missed e =
      ground (arith, e, from_cache-Kept ask found v a w missed)

  -- A lookup of the response cache that finds `a` counts a hit and carries its key.
  unfoldable pub Finds : ChatCompletionRequest → Ask → ChatCompletionResponse → World g → Type 0
  Finds r ask' a w = looked_up g ask' w ≡ (
    record {
      outcome = some hit;
      response = some a;
      key =
          some
            (key_for g.store g.dumps g.sha256 g.print g.parse g.cache ask'.principal r ask'.path);
      ttl = ttl_for g.cache ask'.path;
    },
    record w { cache_stats = record w.cache_stats { hits = w.cache_stats.hits + 1 } },
  )

  -- The same caller on the same route.
  abbrev pub again : Ask → ChatCompletionRequest → Dict Text → Weather → Ask
  again ask r headers weather = record ask { request = r; headers = headers; weather = weather }

  -- Both requests are looked up, under one key.
  unfoldable pub Same : Ask → ChatCompletionRequest → Dict Text → Type 0
  Same ask r headers =
      (canonical_payload ask.request ≡ canonical_payload r)
      × (skips g.store g.dumps g.sha256 g.print g.parse g.cache ask.request ask.path ask.headers
          ≡ false)
      × (skips g.store g.dumps g.sha256 g.print g.parse g.cache r ask.path headers ≡ false)

  pub looked_up-Finds :
      (ask : Ask) (r : ChatCompletionRequest) (headers : Dict Text) (weather : Weather)
      (a : ChatCompletionResponse) (w w' : World g)
      → g.parse (g.print a) ≡ some a
      → g.cache.enabled ≡ true
      → ask.weather.set_up ≡ true
      → weather.get_up ≡ true
      → Same ask r headers
      → Kept ask (looked_up g ask w).0 a w w'
      → Finds ask.request (again ask r headers weather) a w'
  unfolding Finds Same Kept looked_up
  looked_up-Finds ask r headers weather a w w' reads on set_up get_up (same, go, go') kept =
      let hits =
        store_response-hit g.store g.dumps g.sha256 g.print g.parse g.cache ask.principal
          ask.request r ask.path ask.headers headers a ask.weather.get_up w.kept w.cache_stats
          w'.cache_stats reads on go go' same in
      ap (λ (x : Found × CacheStats). (x.0, record w' { cache_stats = x.1 }))
        (rw (get_up, kept, set_up) hits)

  pub looked_up-again-Finds :
      (ask : Ask) (r : ChatCompletionRequest) (headers : Dict Text) (weather : Weather)
      (a : ChatCompletionResponse) (w w' : World g)
      → g.cache.enabled ≡ true
      → weather.get_up ≡ true
      → Same ask r headers
      → (looked_up g ask w).0.response ≡ some a
      → w'.kept ≡ w.kept
      → Finds ask.request (again ask r headers weather) a w'
  unfolding Finds Same looked_up
  looked_up-again-Finds ask r headers weather a w w' on get_up (same, go, go') found kept =
      let hits =
        find_response-again g.store g.dumps g.sha256 g.print g.parse g.cache ask.principal
          ask.request r ask.path ask.headers headers a ask.weather.get_up w.kept w.cache_stats
          w'.cache_stats on go go' same found in
      ap (λ (x : Found × CacheStats). (x.0, record w' { cache_stats = x.1 }))
        (rw (get_up, kept) hits)

  pub from_cache-kept :
      (ask : Ask) (found : Found) (v : Reservation) (a b : ChatCompletionResponse) (w : World g)
      → found.response ≡ some b
      → (from_cache g ask.weather found v a w).kept ≡ w.kept
  unfolding from_cache settled
  from_cache-kept ask found v a b w exact = ground arith
