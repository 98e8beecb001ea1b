-- ===== src/Cache/Again.antt =====
-- What a lookup of src/vortex_ai_gateway/cache.py finds a second time.
use vortex_ai_gateway.Base.{
  ℕ, ◌≡◌, Text, Bool, true, false, Option, none, some, Dict, arith, Option-cases, inl, inr,
}
use Prim.{absurd}
use vortex_ai_gateway.Auth.Identity.{Principal}
use vortex_ai_gateway.Contracts.Chat.{ChatCompletionRequest, ChatCompletionResponse}
use vortex_ai_gateway.Cache.Store.{
  Server, Payload, Found, CacheStats, ResponseCache, canonical_payload, ttl_for, key_for, skips,
  on_reply, find_response, store_response,
}
use vortex_ai_gateway.Cache.Hits.{found_hit, count_hit, key_for-same}

module _ (server : Server) (dumps : Payload → Text) (sha256 : Text → Text)
    (print : ChatCompletionResponse → Text) (parse : Text → Option ChatCompletionResponse)
    (c : ResponseCache) where
  -- What a store writes is the same whatever has been counted.
  pub store_response-stats :
      (up : Bool) (found : Found) (a : ChatCompletionResponse) (s : server.State)
      (stats stats' : CacheStats)
      → (store_response server dumps sha256 print parse c up found a s stats).0
        ≡ (store_response server dumps sha256 print parse c up found a s stats').0
  unfolding store_response
  store_response-stats true found a s stats stats' = ground arith
  store_response-stats false found a s stats stats' = ground arith

  on_reply-some :
      (reply : Option Text) (k : Text) (ttl : ℕ) (a : ChatCompletionResponse)
      (stats stats' : CacheStats)
      → (on_reply server dumps sha256 print parse c reply k ttl stats).0.response ≡ some a
      → on_reply server dumps sha256 print parse c reply k ttl stats'
        ≡ (found_hit k ttl a, count_hit stats')
  unfolding on_reply
  on_reply-some none k ttl a stats stats' e = ground arith
  on_reply-some (some raw) k ttl a stats stats' e = elim (Option-cases (parse raw)) [
    | inl stale ↦ absurd (ground arith)
    | inr (b, read) ↦ ground (arith, e, read)
  ]

  -- A question that a lookup answered is answered again, whatever comes between that does not write.
  pub find_response-again :
      (p : Principal) (r r' : ChatCompletionRequest) (path : Text) (headers headers' : Dict Text)
      (a : ChatCompletionResponse) (up : Bool) (s : server.State) (stats stats' : CacheStats)
      → c.enabled ≡ true
      → skips server dumps sha256 print parse c r path headers ≡ false
      → skips server dumps sha256 print parse c r' path headers' ≡ false
      → canonical_payload r ≡ canonical_payload r'
      → (find_response server dumps sha256 print parse c up p r path headers s stats).0.response
        ≡ some a
      → find_response server dumps sha256 print parse c true p r' path headers' s stats' ≡ (
        found_hit (key_for server dumps sha256 print parse c p r path) (ttl_for c path) a,
        count_hit stats',
      )
  unfolding find_response
  find_response-again p r r' path headers headers' a true s stats stats' on go go' same e =
      let k = key_for server dumps sha256 print parse c p r path in
      let read : (on_reply server dumps sha256 print parse c (server.get k s) k (ttl_for c path)
            stats).0.response
          ≡ some a =
        ground (arith, e) in
      ground (
        arith,
        key_for-same server dumps sha256 print parse c p r r' path same,
        on_reply-some (server.get k s) k (ttl_for c path) a stats stats' read,
      )
  find_response-again p r r' path headers headers' a false s stats stats' on go go' same e =
      ground arith
