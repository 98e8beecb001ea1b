-- ===== src/Semantic/Cache/Isolation.antt =====
-- The namespaces of src/vortex_ai_gateway/semantic.py: callers do not see each other's answers.
use vortex_ai_gateway.Base.{
  ◌≡◌, ◌∙◌, ◌⊎◌, inl, inr, refl, Text, Bool, true, false, ◌||◌, Option, none, some, ◌∷◌, ◌++◌, Dict,
  lookup, lookup-insert, insert, text_eq, contains_code, text_eq_sep, arith, leb, Bool-cases,
}
use vortex_ai_gateway.Config.{key}
use vortex_ai_gateway.Auth.Identity.{Principal}
use vortex_ai_gateway.Contracts.Chat.{ChatCompletionRequest, ChatCompletionResponse}
use vortex_ai_gateway.Cache.Store.{bypass_requested}
use vortex_ai_gateway.Semantic.Nearest.{Search, no_match, match_at, wrong_dimension, index_error}
use vortex_ai_gateway.Semantic.Index.{VectorIndex, add, nearest}
use vortex_ai_gateway.Semantic.Cache.{
  Nearby, SemanticState, SemanticCache, prompt_text, shape_digest, namespace_for, index_for,
  on_match, search_in, on_vector, on_text, find_nearby, add_to, store_nearby,
}

module _ {ℓ} {V : Type ℓ} (c : SemanticCache V) where
  namespace_for-apart :
      (p q : Principal) (r r' : ChatCompletionRequest) (path path' : Text)
      → c.scope ≡ key
      → contains_code b':' p.key_id ≡ false
      → contains_code b':' q.key_id ≡ false
      → text_eq p.key_id q.key_id ≡ false
      → text_eq (namespace_for c p r path) (namespace_for c q r' path') ≡ false
  unfolding namespace_for
  namespace_for-apart p q r r' path path' scoped hp hq ne = ground (
    arith,
    text_eq_sep b':' p.key_id q.key_id (path ++ (b':' ∷ shape_digest c r))
        (path' ++ (b':' ∷ shape_digest c r')) hp hq,
  )

  -- What a lookup leaves: the indexes of other namespaces as they were, and a slot of its own
  -- namespace if any.
  Leaves : Text → Text → SemanticState V → Nearby V × SemanticState V → Type ℓ
  Leaves k j s out =
      (lookup j out.1.indexes ≡ lookup j s.indexes)
      × ((out.0.slot ≡ none) ⊎ ((v : V) × (out.0.slot ≡ some (k, v))))

  on_match-Leaves :
      (m : Search ChatCompletionResponse) (k j : Text) (v : V) (s : SemanticState V)
      → Leaves k j s (on_match c m k v s)
  unfolding Leaves on_match
  on_match-Leaves no_match k j v s = (refl, inr (v, refl))
  on_match-Leaves (match_at score a) k j v s = elim (Bool-cases (leb c.threshold score)) [
    | inl near ↦ (ground arith, inl (ground arith))
    | inr far ↦ (ground arith, inr (v, ground arith))
  ]
  on_match-Leaves wrong_dimension k j v s = (refl, inl refl)
  on_match-Leaves index_error k j v s = (refl, inl refl)

  search_in-Leaves :
      (k j : Text) (v : V) (s : SemanticState V)
      → text_eq k j ≡ false
      → Leaves k j s (search_in c k v s)
  unfolding Leaves search_in
  search_in-Leaves k j v s ne =
      let index = index_for c k s in
      let (kept, slot) =
        on_match-Leaves (nearest c.dimension c.similarity c.junk v index) k j v
          (record s { indexes = insert k index s.indexes }) in
      (ground (arith, kept, lookup-insert j k index s.indexes), slot)

  on_vector-Leaves :
      (embedded : Option V) (k j : Text) (s : SemanticState V)
      → text_eq k j ≡ false
      → Leaves k j s (on_vector c embedded k s)
  unfolding Leaves on_vector
  on_vector-Leaves none k j s ne = (refl, inl refl)
  on_vector-Leaves (some v) k j s ne = search_in-Leaves k j v s ne

  on_text-Leaves :
      (text : Option Text) (bypassed : Bool) (k j : Text) (s : SemanticState V)
      → text_eq k j ≡ false
      → Leaves k j s (on_text c text bypassed k s)
  unfolding Leaves on_text
  on_text-Leaves none bypassed k j s ne = (refl, inl refl)
  on_text-Leaves (some t) true k j s ne = (refl, inl refl)
  on_text-Leaves (some t) false k j s ne = on_vector-Leaves (c.embed t) k j s ne

  find_nearby-Leaves :
      (p : Principal) (r : ChatCompletionRequest) (path : Text) (headers : Dict Text) (j : Text)
      (s : SemanticState V)
      → text_eq (namespace_for c p r path) j ≡ false
      → Leaves (namespace_for c p r path) j s (find_nearby c p r path headers s)
  unfolding Leaves find_nearby
  find_nearby-Leaves p r path headers j s ne = elim (Bool-cases c.configured) [
    | inl on ↦
        let (kept, slot) =
          on_text-Leaves (prompt_text r) (r.stream || bypass_requested headers)
            (namespace_for c p r path) j s ne in
        (ground (arith, kept), ground (arith, slot))
    | inr off ↦ (ground arith, inl (ground arith))
  ]

  add_to-keeps :
      (k j : Text) (v : V) (a : ChatCompletionResponse) (s s' : SemanticState V)
      (grown : Option (VectorIndex V ChatCompletionResponse))
      → text_eq k j ≡ false
      → add_to c k v a s grown ≡ some s'
      → lookup j s'.indexes ≡ lookup j s.indexes
  unfolding add_to
  add_to-keeps k j v a s s' none ne e = ground arith
  add_to-keeps k j v a s s' (some index) ne e = ground (arith, lookup-insert j k index s.indexes)

  store_nearby-keeps :
      (n : Nearby V) (k j : Text) (a : ChatCompletionResponse) (s s' : SemanticState V)
      → text_eq k j ≡ false
      → ((n.slot ≡ none) ⊎ ((v : V) × (n.slot ≡ some (k, v))))
      → store_nearby c n a s ≡ some s'
      → lookup j s'.indexes ≡ lookup j s.indexes
  unfolding store_nearby
  store_nearby-keeps n k j a s s' ne (inl bare) e = ground arith
  store_nearby-keeps n k j a s s' ne (inr (v, held)) e =
      add_to-keeps k j v a s s' (add c.dimension c.similarity c.junk v a (index_for c k s)) ne
        (ground arith)

  on_match-reads :
      (m : Search ChatCompletionResponse) (k : Text) (v : V) (s s' : SemanticState V)
      → (on_match c m k v s').0 ≡ (on_match c m k v s).0
  unfolding on_match
  on_match-reads no_match k v s s' = refl
  on_match-reads (match_at score a) k v s s' = ground arith
  on_match-reads wrong_dimension k v s s' = refl
  on_match-reads index_error k v s s' = refl

  search_in-reads :
      (k : Text) (v : V) (s s' : SemanticState V)
      → lookup k s'.indexes ≡ lookup k s.indexes
      → (search_in c k v s').0 ≡ (search_in c k v s).0
  unfolding search_in index_for
  search_in-reads k v s s' same =
      let index = index_for c k s in
      rw same (
        on_match-reads (nearest c.dimension c.similarity c.junk v index) k v
          (record s { indexes = insert k index s.indexes })
          (record s' { indexes = insert k index s'.indexes }))

  on_vector-reads :
      (embedded : Option V) (k : Text) (s s' : SemanticState V)
      → lookup k s'.indexes ≡ lookup k s.indexes
      → (on_vector c embedded k s').0 ≡ (on_vector c embedded k s).0
  unfolding on_vector
  on_vector-reads none k s s' same = refl
  on_vector-reads (some v) k s s' same = search_in-reads k v s s' same

  on_text-reads :
      (text : Option Text) (bypassed : Bool) (k : Text) (s s' : SemanticState V)
      → lookup k s'.indexes ≡ lookup k s.indexes
      → (on_text c text bypassed k s').0 ≡ (on_text c text bypassed k s).0
  unfolding on_text
  on_text-reads none bypassed k s s' same = refl
  on_text-reads (some t) true k s s' same = refl
  on_text-reads (some t) false k s s' same = on_vector-reads (c.embed t) k s s' same

  -- A lookup reads the index under its namespace alone.
  find_nearby-reads :
      (q : Principal) (r : ChatCompletionRequest) (path : Text) (headers : Dict Text)
      (s s' : SemanticState V)
      → lookup (namespace_for c q r path) s'.indexes ≡ lookup (namespace_for c q r path) s.indexes
      → (find_nearby c q r path headers s').0 ≡ (find_nearby c q r path headers s).0
  unfolding find_nearby
  find_nearby-reads q r path headers s s' same = elim (Bool-cases c.configured) [
    | inl on ↦
        let reads =
          on_text-reads (prompt_text r) (r.stream || bypass_requested headers)
            (namespace_for c q r path) s s' same in
        ground (arith, reads)
    | inr off ↦ ground arith
  ]

  -- With the scope `key`, one caller's lookup and the store after it change nothing that another
  -- caller's lookup finds, whatever the two ask, on whatever routes, and however alike their prompts
  -- are. Key IDs hold no colon.
  pub find_nearby-others :
      (p q : Principal) (r r' : ChatCompletionRequest) (path path' : Text)
      (headers headers' : Dict Text) (a : ChatCompletionResponse) (s s' : SemanticState V)
      → c.scope ≡ key
      → contains_code b':' p.key_id ≡ false
      → contains_code b':' q.key_id ≡ false
      → text_eq p.key_id q.key_id ≡ false
      → let (nearby, between) = find_nearby c p r path headers s in
        store_nearby c nearby a between ≡ some s'
        → (find_nearby c q r' path' headers' s').0 ≡ (find_nearby c q r' path' headers' s).0
  unfolding Leaves
  find_nearby-others p q r r' path path' headers headers' a s s' scoped hp hq ne stored =
      let mine = namespace_for c p r path in
      let theirs = namespace_for c q r' path' in
      let apart = namespace_for-apart p q r r' path path' scoped hp hq ne in
      let out = find_nearby c p r path headers s in
      let (found, slot) = find_nearby-Leaves p r path headers theirs s apart in
      find_nearby-reads q r' path' headers' s s'
        (store_nearby-keeps out.0 mine theirs a out.1 s' apart slot stored ∙ found)
