-- ===== src/Cache/Keys.antt =====
-- The keys of src/vortex_ai_gateway/cache.py: the callers' namespaces do not meet.
use vortex_ai_gateway.Base.{
  ◌≡◌, ◌<◌, Bool-cases, inl, inr, refl, ◌⊎◌, none, some, Text, Bool, true, false, ◌∷◌, ◌++◌,
  text_eq, contains_code, text_eq_append, text_eq_sep, arith, Dict, Option,
}
use vortex_ai_gateway.Config.{key}
use vortex_ai_gateway.Auth.Identity.{Principal}
use vortex_ai_gateway.Contracts.Chat.{ChatCompletionRequest, ChatCompletionResponse}
use vortex_ai_gateway.Cache.Store.{
  Server, Payload, Found, CacheStats, ResponseCache, request_digest, key_for, ttl_for, skips,
  on_reply, find_response, store_response,
}

module _ (server : Server) (dumps : Payload → Text) (sha256 : Text → Text)
    (print : ChatCompletionResponse → Text) (parse : Text → Option ChatCompletionResponse)
    (c : ResponseCache) where
  -- Two callers' keys differ, whatever they ask and on whatever route.
  pub key_for-apart :
      (p q : Principal) (r r' : ChatCompletionRequest) (path path' : Text)
      → c.scope ≡ key
      → contains_code b':' p.key_id ≡ false
      → contains_code b':' q.key_id ≡ false
      → text_eq p.key_id q.key_id ≡ false
      → text_eq
          (key_for server dumps sha256 print parse c p r path)
          (key_for server dumps sha256 print parse c q r' path')
        ≡ false
  unfolding key_for
  key_for-apart p q r r' path path' scoped hp hq ne =
      let mine = path ++ (b':' ∷ request_digest server dumps sha256 print parse c r) in
      let theirs = path' ++ (b':' ∷ request_digest server dumps sha256 print parse c r') in
      ground (
        arith,
        text_eq_append c.prefix (b':' ∷ (p.key_id ++ (b':' ∷ mine)))
            (b':' ∷ (q.key_id ++ (b':' ∷ theirs))),
        text_eq_sep b':' p.key_id q.key_id mine theirs hp hq,
      )

  -- A request that is looked up is on a route with a positive TTL.
  pub skips-positive :
      (r : ChatCompletionRequest) (path : Text) (headers : Dict Text)
      → skips server dumps sha256 print parse c r path headers ≡ false
      → 0 < ttl_for c path
  unfolding skips
  skips-positive r path headers go = ground arith

  -- The key that a lookup carries is the request's, if it carries one, and then its TTL is positive.
  find_response-key :
      (up : Bool) (p : Principal) (r : ChatCompletionRequest) (path : Text) (headers : Dict Text)
      (s : server.State) (stats : CacheStats)
      → let found =
          (find_response server dumps sha256 print parse c up p r path headers s stats).0 in
        (found.key ≡ none)
        ⊎ ((found.key ≡ some (key_for server dumps sha256 print parse c p r path))
            × (0 < found.ttl))
  unfolding find_response on_reply
  find_response-key up p r path headers s stats =
      elim (Bool-cases (skips server dumps sha256 print parse c r path headers)) [
        | inl skip ↦ inl (ground arith)
        | inr go ↦
            let lives : 0 < ttl_for c path = skips-positive r path headers go in
            ground (arith, lives)
      ]

  -- A lookup reads the entry under its key alone.
  find_response-reads :
      (up : Bool) (p : Principal) (r : ChatCompletionRequest) (path : Text) (headers : Dict Text)
      (s s' : server.State) (stats : CacheStats)
      → server.get (key_for server dumps sha256 print parse c p r path) s'
        ≡ server.get (key_for server dumps sha256 print parse c p r path) s
      → find_response server dumps sha256 print parse c up p r path headers s' stats
        ≡ find_response server dumps sha256 print parse c up p r path headers s stats
  unfolding find_response
  find_response-reads up p r path headers s s' stats same = rw same refl

  -- A store writes under the key of its lookup alone.
  store_response-reads :
      (up : Bool) (found : Found) (a : ChatCompletionResponse) (s : server.State)
      (stats : CacheStats) (k j : Text)
      → ((found.key ≡ none) ⊎ ((found.key ≡ some k) × (0 < found.ttl)))
      → text_eq k j ≡ false
      → server.get j (store_response server dumps sha256 print parse c up found a s stats).0
        ≡ server.get j s
  unfolding store_response
  store_response-reads true found a s stats k j carried ne =
      ground (arith, server.get-set j k (print a) found.ttl s)
  store_response-reads false found a s stats k j carried ne = ground arith

  -- With the scope `key`, what one caller's answers put into the cache changes no other caller's
  -- lookups: neither what they find nor the counters. Key IDs hold no colon.
  pub find_response-others :
      (p q : Principal) (r r' : ChatCompletionRequest) (path path' : Text)
      (headers headers' : Dict Text) (a : ChatCompletionResponse) (up up' up'' : Bool)
      (s : server.State) (stats stats' : CacheStats)
      → c.scope ≡ key
      → contains_code b':' p.key_id ≡ false
      → contains_code b':' q.key_id ≡ false
      → text_eq p.key_id q.key_id ≡ false
      → let found =
          (find_response server dumps sha256 print parse c up p r path headers s stats).0 in
        let s' = (store_response server dumps sha256 print parse c up' found a s stats).0 in
        find_response server dumps sha256 print parse c up'' q r' path' headers' s' stats'
        ≡ find_response server dumps sha256 print parse c up'' q r' path' headers' s stats'
  find_response-others p q r r' path path' headers headers' a up up' up'' s stats stats' scoped hp
        hq ne =
      let found = (find_response server dumps sha256 print parse c up p r path headers s stats).0 in
      let mine = key_for server dumps sha256 print parse c p r path in
      let theirs = key_for server dumps sha256 print parse c q r' path' in
      find_response-reads up'' q r' path' headers' s
        (store_response server dumps sha256 print parse c up' found a s stats).0 stats'
        (store_response-reads up' found a s stats mine theirs
          (find_response-key up p r path headers s stats)
          (key_for-apart p q r r' path path' scoped hp hq ne))
