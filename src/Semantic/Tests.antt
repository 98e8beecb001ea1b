-- ===== src/Semantic/Tests.antt =====
-- The theorems on the semantic cache, with vectors of one number.
use vortex_ai_gateway.Base.{
  true, some, none, length, option_or, ℕ, ◌-◌, ◌≡◌, refl, List, [], ◌∷◌, Text, codes, ◌+◌, ltb,
  if◌then◌else◌,
}
use vortex_ai_gateway.Config.{key}
use vortex_ai_gateway.Contracts.Chat.{ChatCompletionResponse}
use vortex_ai_gateway.Samples.{caller, route, ask, zero_stats}
use vortex_ai_gateway.Semantic.Cache.{
  Nearby, SemanticState, SemanticCache, find_nearby, store_nearby,
}
use vortex_ai_gateway.Semantic.Cache.Isolation.{find_nearby-others}
use vortex_ai_gateway.Semantic.Nearest.{
  store, search, Operation, replies, answer, match_at, no_match, stored, wrong_dimension, refused,
}
use vortex_ai_gateway.Semantic.Index.{empty, run}
use vortex_ai_gateway.Semantic.Index.Valid.{empty-IsValid}
use vortex_ai_gateway.Semantic.Index.Refine.{contents, run_refines}

-- A vector is a number; those from 100 on have another dimension, and nearer numbers are more alike.
abbrev dimension : ℕ → ℕ
dimension v = if ltb v 100 then 1 else 2

abbrev similarity : ℕ → ℕ → ℕ
similarity v w = 50 - ((v - w) + (w - v))

abbrev calls : List (Operation ℕ Text)
calls =
    search 3
    ∷ store 10 (codes "ten")
    ∷ store 14 (codes "fourteen")
    ∷ search 12
    ∷ store 200 (codes "far")
    ∷ search 14
    ∷ search 200
    ∷ []

calls_run :
    run dimension similarity 0 empty calls
    ≡ answer no_match
      ∷ stored
      ∷ stored
      ∷ answer (match_at 48 (codes "ten"))
      ∷ refused
      ∷ answer (match_at 50 (codes "fourteen"))
      ∷ answer wrong_dimension
      ∷ []
unfolding run empty
calls_run = refl

run_refines_example :
    run dimension similarity 0 empty calls ≡ replies dimension similarity (contents empty) calls
run_refines_example = run_refines dimension similarity 0 calls empty empty-IsValid

-- A text's length is its vector.
abbrev cache : SemanticCache ℕ
cache = record {
  configured = true;
  threshold = 48;
  scope = key;
  embed = λ t. some (length t);
  dimension = dimension;
  similarity = similarity;
  junk = 0;
  dumps = λ shape. shape.model;
  sha256 = λ t. t;
}

abbrev fresh : SemanticState ℕ
fresh = record { stats = zero_stats; indexes = [] }

abbrev yes : ChatCompletionResponse
yes = record { model = codes "m"; body = codes "yes"; usage = none; vortex = none }

abbrev asked_first : Nearby ℕ × SemanticState ℕ
asked_first = find_nearby cache (caller (codes "a")) (ask (codes "is it so?")) route [] fresh

abbrev kept_first : SemanticState ℕ
kept_first = option_or (store_nearby cache asked_first.0 yes asked_first.1) fresh

kept_first_run : store_nearby cache asked_first.0 yes asked_first.1 ≡ some kept_first
unfolding find_nearby store_nearby
kept_first_run = refl

-- A prompt that is one letter longer is answered for the same caller.
near_run :
    (find_nearby cache
      (caller (codes "a"))
      (ask (codes "is it so ?"))
      route
      []
      kept_first).0.response
    ≡ some yes
unfolding find_nearby store_nearby
near_run = refl

find_nearby-others_example :
    (find_nearby cache (caller (codes "b")) (ask (codes "is it so?")) route [] kept_first).0
    ≡ (find_nearby cache (caller (codes "b")) (ask (codes "is it so?")) route [] fresh).0
find_nearby-others_example =
    find_nearby-others cache (caller (codes "a")) (caller (codes "b")) (ask (codes "is it so?"))
      (ask (codes "is it so?")) route route [] [] yes fresh kept_first refl refl refl refl
      kept_first_run
