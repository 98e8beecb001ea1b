-- ===== src/Cache/Hits.antt =====
-- What `lookup` and `store` of src/vortex_ai_gateway/cache.py do together.
use vortex_ai_gateway.Base.{
  ℕ, ◌≡◌, ◌<◌, ◌↔◌, ◌+◌, refl, Text, Bool, true, false, ◌||◌, Option, none, some, is_some, Dict,
  arith, text_eq_refl, Bool-cases, Option-cases, ◌⊎◌, inl, inr, leb,
}
use vortex_ai_gateway.Auth.Identity.{Principal}
use vortex_ai_gateway.Contracts.Chat.{ChatCompletionRequest, ChatCompletionResponse}
use vortex_ai_gateway.Cache.Keys.{skips-positive}
use vortex_ai_gateway.Cache.Store.{
  Server, Payload, Found, CacheStats, hit, bypass, ResponseCache, skipped, missed,
  canonical_payload, ttl_for, bypass_requested, request_digest, key_for, skips, on_reply,
  find_response, store_response,
}

abbrev pub found_hit : Text → ℕ → ChatCompletionResponse → Found
found_hit k ttl a = record { outcome = some hit; response = some a; key = some k; ttl = ttl }

abbrev pub count_hit : CacheStats → CacheStats
count_hit stats = record stats { hits = stats.hits + 1 }

abbrev count_miss : CacheStats → CacheStats
count_miss stats = record stats { misses = stats.misses + 1 }

abbrev count_bypass : CacheStats → CacheStats
count_bypass stats = record stats { bypasses = stats.bypasses + 1 }

abbrev count_error : CacheStats → CacheStats
count_error stats = record stats { errors = stats.errors + 1 }

module _ (server : Server) (dumps : Payload → Text) (sha256 : Text → Text)
    (print : ChatCompletionResponse → Text) (parse : Text → Option ChatCompletionResponse)
    (c : ResponseCache) where
  pub key_for-same :
      (p : Principal) (r r' : ChatCompletionRequest) (path : Text)
      → canonical_payload r ≡ canonical_payload r'
      → key_for server dumps sha256 print parse c p r path
        ≡ key_for server dumps sha256 print parse c p r' path
  unfolding key_for request_digest
  key_for-same p r r' path same = cc

  -- With the cache enabled, an answer that was stored after a lookup is found by the next lookup of a
  -- request on the same route by the same caller with the same canonical payload, so of one that
  -- differs in `user` or `metadata` only, even if Redis failed at the first GET. Neither of the two
  -- requests is skipped (it does not stream and sends no bypass header, and the route's TTL is
  -- positive), Redis answers the SET and the second GET, and the printed answer reads back as itself.
  pub store_response-hit :
      (p : Principal) (r r' : ChatCompletionRequest) (path : Text) (headers headers' : Dict Text)
      (a : ChatCompletionResponse) (up : Bool) (s : server.State) (stats stats' : CacheStats)
      → parse (print a) ≡ some a
      → c.enabled ≡ true
      → skips server dumps sha256 print parse c r path headers ≡ false
      → skips server dumps sha256 print parse c r' path headers' ≡ false
      → canonical_payload r ≡ canonical_payload r'
      → let found =
          (find_response server dumps sha256 print parse c up p r path headers s stats).0 in
        let s' = (store_response server dumps sha256 print parse c true found a s stats).0 in
        find_response server dumps sha256 print parse c true p r' path headers' s' stats' ≡ (
          record {
            outcome = some hit;
            response = some a;
            key = some (key_for server dumps sha256 print parse c p r path);
            ttl = ttl_for c path;
          },
          record stats' { hits = stats'.hits + 1 },
        )
  unfolding find_response store_response on_reply
  store_response-hit p r r' path headers headers' a up s stats stats' reads on go go' same =
      let lives : 0 < ttl_for c path =
        skips-positive server dumps sha256 print parse c r path headers go in
      ground (
        arith,
        lives,
        reads,
        key_for-same p r r' path same,
        text_eq_refl (key_for server dumps sha256 print parse c p r path),
        server.get-set (key_for server dumps sha256 print parse c p r' path)
            (key_for server dumps sha256 print parse c p r path) (print a) (ttl_for c path) s,
      )

  on_reply-cases :
      (reply : Option Text) (k : Text) (ttl : ℕ) (stats : CacheStats)
      → ((a : ChatCompletionResponse) × (on_reply server dumps sha256 print parse c reply k ttl
              stats
            ≡ (found_hit k ttl a, count_hit stats)))
        ⊎ (on_reply server dumps sha256 print parse c reply k ttl stats
            ≡ (missed k ttl, count_miss stats))
  unfolding on_reply
  on_reply-cases none k ttl stats = inr refl
  on_reply-cases (some raw) k ttl stats = elim (Option-cases (parse raw)) [
    | inl stale ↦ inr (ground arith)
    | inr (a, read) ↦ inl (a, ground arith)
  ]

  -- The four ways in which a lookup of a working cache ends.
  Ends : Text → ℕ → Bool → CacheStats → Found × CacheStats → Type 0
  Ends k ttl skip stats out =
      ((skip ≡ true) × (out ≡ (skipped, count_bypass stats)))
      ⊎ ((skip ≡ false)
          × (((a : ChatCompletionResponse) × (out ≡ (found_hit k ttl a, count_hit stats)))
              ⊎ ((out ≡ (missed k ttl, count_miss stats))
                  ⊎ (out ≡ (missed k ttl, count_error stats)))))

  find_response-Ends :
      (p : Principal) (r : ChatCompletionRequest) (path : Text) (headers : Dict Text) (up : Bool)
      (s : server.State) (stats : CacheStats)
      → c.enabled ≡ true
      → Ends
          (key_for server dumps sha256 print parse c p r path)
          (ttl_for c path)
          (skips server dumps sha256 print parse c r path headers)
          stats
          (find_response server dumps sha256 print parse c up p r path headers s stats)
  unfolding find_response Ends
  find_response-Ends p r path headers up s stats on =
      let k = key_for server dumps sha256 print parse c p r path in
      elim (Bool-cases (skips server dumps sha256 print parse c r path headers)) [
        | inl skip ↦ inl (skip, ground arith)
        | inr go ↦ inr (
          go,
          elim (Bool-cases up) [
            | inl works ↦ elim (on_reply-cases (server.get k s) k (ttl_for c path) stats) [
              | inl (a, e) ↦ inl (a, ground (arith, e))
              | inr e ↦ inr (inl (ground (arith, e)))
            ]
            | inr fails ↦ inr (inr (ground arith))
          ],
        )
      ]

  Ends-bypass_iff :
      (k : Text) (ttl : ℕ) (skip : Bool) (stats : CacheStats) (out : Found × CacheStats)
      → Ends k ttl skip stats out
      → (out.0.outcome ≡ some bypass) ↔ (skip ≡ true)
  unfolding Ends
  Ends-bypass_iff k ttl skip stats out (inl (on, e)) = ground (arith, on, e)
  Ends-bypass_iff k ttl skip stats out (inr (off, inl (a, e))) = ground (arith, off, e)
  Ends-bypass_iff k ttl skip stats out (inr (off, inr (inl e))) = ground (arith, off, e)
  Ends-bypass_iff k ttl skip stats out (inr (off, inr (inr e))) = ground (arith, off, e)

  Ends-counted :
      (k : Text) (ttl : ℕ) (skip : Bool) (stats : CacheStats) (out : Found × CacheStats)
      → Ends k ttl skip stats out
      → (out.1.hits + out.1.misses + out.1.bypasses + out.1.errors
          ≡ stats.hits + stats.misses + stats.bypasses + stats.errors + 1)
        × ((is_some out.0.response ≡ true) ↔ (out.1.hits ≡ stats.hits + 1))
  unfolding Ends
  Ends-counted k ttl skip stats out (inl (on, e)) = ground (arith, on, e)
  Ends-counted k ttl skip stats out (inr (off, inl (a, e))) = ground (arith, off, e)
  Ends-counted k ttl skip stats out (inr (off, inr (inl e))) = ground (arith, off, e)
  Ends-counted k ttl skip stats out (inr (off, inr (inr e))) = ground (arith, off, e)

  store_response-none :
      (up : Bool) (found : Found) (a : ChatCompletionResponse) (s : server.State)
      (stats : CacheStats)
      → found.key ≡ none
      → store_response server dumps sha256 print parse c up found a s stats ≡ (s, stats)
  unfolding store_response
  store_response-none up found a s stats bare = ground arith

  Ends-unstored :
      (k : Text) (ttl : ℕ) (skip : Bool) (stats : CacheStats) (out : Found × CacheStats) (up : Bool)
      (a : ChatCompletionResponse) (s : server.State) (stats' : CacheStats)
      → Ends k ttl skip stats out
      → (skip ≡ false)
        ⊎ (store_response server dumps sha256 print parse c up out.0 a s stats' ≡ (s, stats'))
  unfolding Ends
  Ends-unstored k ttl skip stats out up a s stats' (inl (on, e)) =
      inr (store_response-none up out.0 a s stats' (ground (arith, e)))
  Ends-unstored k ttl skip stats out up a s stats' (inr (off, rest)) = inl off

  -- A lookup of a working cache is a bypass exactly for a streaming request, a route whose TTL is not
  -- positive and a caller who opted out; and then nothing is stored under it.
  pub find_response-bypass_iff :
      (p : Principal) (r : ChatCompletionRequest) (path : Text) (headers : Dict Text)
      (a : ChatCompletionResponse) (up up' : Bool) (s : server.State) (stats stats' : CacheStats)
      → c.enabled ≡ true
      → let found =
          (find_response server dumps sha256 print parse c up p r path headers s stats).0 in
        let skip = r.stream || leb (ttl_for c path) 0 || bypass_requested headers in
        ((found.outcome ≡ some bypass) ↔ (skip ≡ true))
        × ((skip ≡ false)
            ⊎ (store_response server dumps sha256 print parse c up' found a s stats' ≡ (s, stats')))
  unfolding skips
  find_response-bypass_iff p r path headers a up up' s stats stats' on =
      let ends = find_response-Ends p r path headers up s stats on in
      let k = key_for server dumps sha256 print parse c p r path in
      let skip = skips server dumps sha256 print parse c r path headers in
      (
        Ends-bypass_iff k (ttl_for c path) skip stats
            (find_response server dumps sha256 print parse c up p r path headers s stats) ends,
        Ends-unstored k (ttl_for c path) skip stats
            (find_response server dumps sha256 print parse c up p r path headers s stats) up' a s
            stats' ends,
      )

  -- Each lookup of a working cache is counted exactly once, as a hit, a miss, a bypass or an error,
  -- and the cache gives an answer exactly if it counts a hit.
  pub find_response-counted :
      (p : Principal) (r : ChatCompletionRequest) (path : Text) (headers : Dict Text) (up : Bool)
      (s : server.State) (stats : CacheStats)
      → c.enabled ≡ true
      → let (found, stats') =
          find_response server dumps sha256 print parse c up p r path headers s stats in
        (stats'.hits + stats'.misses + stats'.bypasses + stats'.errors
          ≡ stats.hits + stats.misses + stats.bypasses + stats.errors + 1)
        × ((is_some found.response ≡ true) ↔ (stats'.hits ≡ stats.hits + 1))
  find_response-counted p r path headers up s stats on =
      Ends-counted (key_for server dumps sha256 print parse c p r path) (ttl_for c path)
        (skips server dumps sha256 print parse c r path headers) stats
        (find_response server dumps sha256 print parse c up p r path headers s stats)
        (find_response-Ends p r path headers up s stats on)
