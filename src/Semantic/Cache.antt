-- ===== src/Semantic/Cache.antt =====
-- `SemanticCache` of src/vortex_ai_gateway/semantic.py. The embedder with `unit` is a parameter: a text's
-- unit vector, or none where either raises. A lookup carries its index by the namespace that it
-- stands under, which is never given another index.
pub mod Isolation
use vortex_ai_gateway.Base.{
  ℕ, ◌+◌, Text, codes, Bool, true, false, not, ◌||◌, Option, none, some, List, [], ◌∷◌, ◌++◌, Dict,
  lookup, insert, option_or, leb, if◌then◌else◌,
}
use vortex_ai_gateway.Config.{CacheScope}
use vortex_ai_gateway.Auth.Identity.{Principal}
use vortex_ai_gateway.Contracts.Chat.{
  ContentPart, text_part, image_part, audio_part, Content, absent, plain, parts, Message,
  ChatCompletionRequest, ChatCompletionResponse,
}
use vortex_ai_gateway.Cache.Store.{
  Payload, canonical_payload, bypass_requested, CacheOutcome, hit, miss, bypass, CacheStats,
  namespace_of,
}
use vortex_ai_gateway.Semantic.Nearest.{Search, no_match, match_at, wrong_dimension, index_error}
use vortex_ai_gateway.Semantic.Index.{VectorIndex, empty, add, nearest}

prepend : Text → Option Text → Option Text
prepend t none = none
prepend t (some s) = some (t ++ s)

-- The text of content that is text only, its parts joined.
parts_text : List ContentPart → Option Text
unfolding prepend
parts_text [] = some []
parts_text (text_part t ∷ ps) = prepend t (parts_text ps)
parts_text (image_part t ∷ ps) = none
parts_text (audio_part t ∷ ps) = none

content_text : Content → Option Text
unfolding parts_text
content_text absent = some []
content_text (plain t) = some t
content_text (parts ps) = parts_text ps

turn_text : Message → Option Text
unfolding content_text
turn_text m = prepend (m.role ++ codes ": ") (content_text m.content)

join_turns : Option Text → List Message → Option Text → Option Text
join_turns none ms rest = none
join_turns (some t) [] rest = some t
join_turns (some t) (m ∷ ms) none = none
join_turns (some t) (m ∷ ms) (some rest) = some (t ++ (10 ∷ rest))

messages_text : List Message → Option Text
unfolding turn_text join_turns
messages_text [] = some []
messages_text (m ∷ ms) = join_turns (turn_text m) ms (messages_text ms)

-- `prompt_text`
unfoldable pub prompt_text : ChatCompletionRequest → Option Text
unfolding messages_text
prompt_text r = messages_text r.messages

-- The canonical payload without `messages`.
pub record Shape : Type 0 where
  pub model : Text
  pub n : ℕ
  pub max_completion_tokens : Option ℕ
  pub max_tokens : Option ℕ
  pub sampling : Text

unfoldable pub shape_of : Payload → Shape
shape_of p = record {
  model = p.model;
  n = p.n;
  max_completion_tokens = p.max_completion_tokens;
  max_tokens = p.max_tokens;
  sampling = p.sampling;
}

-- `SemanticLookup`: its index and vector are both there or both absent.
pub record Nearby {ℓ} (V : Type ℓ) : Type ℓ where
  pub outcome : Option CacheOutcome
  pub response : Option ChatCompletionResponse
  pub score : Option ℕ
  pub slot : Option (Text × V)

pub record SemanticState {ℓ} (V : Type ℓ) : Type ℓ where
  pub stats : CacheStats
  pub indexes : Dict (VectorIndex V ChatCompletionResponse)

-- The embedder, what the cosine of two vectors is, and the settings of the cache; `configured` is
-- whether it was given an embedder.
pub record SemanticCache {ℓ} (V : Type ℓ) : Type ℓ where
  pub configured : Bool
  pub threshold : ℕ
  pub scope : CacheScope
  pub embed : Text → Option V
  pub dimension : V → ℕ
  pub similarity : V → V → ℕ
  pub junk : V
  pub dumps : Shape → Text
  pub sha256 : Text → Text

module _ {ℓ} {V : Type ℓ} (c : SemanticCache V) where
  abbrev pub unconfigured : Nearby V
  unconfigured = record { outcome = none; response = none; score = none; slot = none }

  abbrev pub only : CacheOutcome → Nearby V
  only o = record { outcome = some o; response = none; score = none; slot = none }

  abbrev pub count_bypass : SemanticState V → SemanticState V
  count_bypass s = record s { stats = record s.stats { bypasses = s.stats.bypasses + 1 } }

  abbrev pub count_error : SemanticState V → SemanticState V
  count_error s = record s { stats = record s.stats { errors = s.stats.errors + 1 } }

  -- `skipped`
  unfoldable pub skip_nearby : SemanticState V → Nearby V × SemanticState V
  skip_nearby s = if c.configured then (only bypass, count_bypass s) else (unconfigured, s)

  -- `shape_digest`
  unfoldable pub shape_digest : ChatCompletionRequest → Text
  unfolding shape_of canonical_payload
  shape_digest r = c.sha256 (c.dumps (shape_of (canonical_payload r)))

  -- `namespace_for`
  unfoldable pub namespace_for : Principal → ChatCompletionRequest → Text → Text
  unfolding shape_digest
  namespace_for p r path = namespace_of c.scope p ++ (b':' ∷ (path ++ (b':' ∷ shape_digest r)))

  -- `index_for`, the index itself.
  unfoldable pub index_for : Text → SemanticState V → VectorIndex V ChatCompletionResponse
  unfolding lookup empty
  index_for k s = option_or (lookup k s.indexes) empty

  -- What the lookup does with its search.
  pub on_match :
      Search ChatCompletionResponse → Text → V → SemanticState V → Nearby V × SemanticState V
  on_match no_match k v s = (
    record { outcome = some miss; response = none; score = none; slot = some (k, v) },
    record s { stats = record s.stats { misses = s.stats.misses + 1 } },
  )
  on_match (match_at score a) k v s =
      if leb c.threshold score
      then (
        record { outcome = some hit; response = some a; score = some score; slot = none },
        record s { stats = record s.stats { hits = s.stats.hits + 1 } },
      )
      else (
        record { outcome = some miss; response = none; score = some score; slot = some (k, v) },
        record s { stats = record s.stats { misses = s.stats.misses + 1 } },
      )
  on_match wrong_dimension k v s = (only miss, count_error s)
  on_match index_error k v s = (only miss, count_error s)

  -- From the search on: `setdefault` keeps the new index.
  pub search_in : Text → V → SemanticState V → Nearby V × SemanticState V
  unfolding index_for nearest on_match insert
  search_in k v s =
      let index = index_for k s in
      on_match (nearest c.dimension c.similarity c.junk v index) k v
        (record s { indexes = insert k index s.indexes })

  pub on_vector : Option V → Text → SemanticState V → Nearby V × SemanticState V
  unfolding search_in
  on_vector none k s = (only miss, count_error s)
  on_vector (some v) k s = search_in k v s

  -- From the text of the prompt on; `bypassed` is whether the request streams or opted out.
  pub on_text : Option Text → Bool → Text → SemanticState V → Nearby V × SemanticState V
  unfolding on_vector
  on_text none bypassed k s = (only bypass, count_bypass s)
  on_text (some t) bypassed k s =
      if bypassed then (only bypass, count_bypass s) else on_vector (c.embed t) k s

  -- `lookup`
  unfoldable pub find_nearby :
      Principal
      → ChatCompletionRequest
      → Text
      → Dict Text
      → SemanticState V
      → Nearby V × SemanticState V
  unfolding on_text prompt_text bypass_requested namespace_for
  find_nearby p r path headers s =
      if c.configured
      then on_text (prompt_text r) (r.stream || bypass_requested headers) (namespace_for p r path) s
      else (unconfigured, s)

  pub add_to :
      Text
      → V
      → ChatCompletionResponse
      → SemanticState V
      → Option (VectorIndex V ChatCompletionResponse)
      → Option (SemanticState V)
  unfolding insert
  add_to k v a s none = none
  add_to k v a s (some index) = some (record s {
    stats = record s.stats { stores = s.stats.stores + 1 };
    indexes = insert k index s.indexes;
  })

  -- `store`, `none` for the `ValueError` of `add`.
  unfoldable pub store_nearby :
      Nearby V → ChatCompletionResponse → SemanticState V → Option (SemanticState V)
  unfolding add_to add index_for
  store_nearby n a s = elim n.slot [
    | none ↦ some s
    | some (k, v) ↦ add_to k v a s (add c.dimension c.similarity c.junk v a (index_for k s))
  ]
