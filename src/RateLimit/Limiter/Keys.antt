-- ===== src/RateLimit/Limiter/Keys.antt =====
-- The bucket keys of `RateLimiter._keys`: no two buckets share one.
use vortex_ai_gateway.Base.{
  ℕ, ◌≡◌, Text, codes, text_eq, false, ◌++◌, ◌∷◌, arith, contains_code, text_eq_append, text_eq_sep,
}
use vortex_ai_gateway.Auth.Identity.{Principal}
use vortex_ai_gateway.RateLimit.Redis.{Server}
use vortex_ai_gateway.RateLimit.Script.Atomic.{read-admit}
use vortex_ai_gateway.RateLimit.Limiter.{
  Link, requests_key, tokens_key, requests_demand, tokens_demand, admit_request,
}

-- A caller's two buckets lie under different keys.
pub keys_apart :
    (prefix key_id : Text) → text_eq (tokens_key prefix key_id) (requests_key prefix key_id) ≡ false
unfolding requests_key tokens_key
keys_apart prefix key_id = simp text_eq_append

-- Two callers' keys, with the unit at the end of each.
abbrev key_of : Text → Text → Text → Text
key_of prefix key_id unit = prefix ++ (codes ":{" ++ (key_id ++ 125 ∷ unit))

key_of-ne :
    (prefix a b u v : Text)
    → contains_code b'}' a ≡ false
    → contains_code b'}' b ≡ false
    → text_eq a b ≡ false
    → text_eq (key_of prefix a u) (key_of prefix b v) ≡ false
key_of-ne prefix a b u v ha hb ne = ground (
  arith,
  text_eq_append prefix (codes ":{" ++ (a ++ 125 ∷ u)) (codes ":{" ++ (b ++ 125 ∷ v)),
  text_eq_sep b'}' a b u v ha hb,
)

-- Whether it is admitted, refused or fails, a caller's request leaves the buckets of every other
-- caller as they were. A key ID holds no brace.
pub admit_request-others :
    (server : Server) (prefix : Text) (link : Link) (now : ℕ) (p : Principal) (tokens : ℕ)
    (s : server.State) (other : Text)
    → contains_code b'}' p.key_id ≡ false
    → contains_code b'}' other ≡ false
    → text_eq p.key_id other ≡ false
    → let s' = (admit_request server prefix link now p tokens s).1 in
      (server.read (requests_key prefix other) s' ≡ server.read (requests_key prefix other) s)
      × (server.read (tokens_key prefix other) s' ≡ server.read (tokens_key prefix other) s)
unfolding admit_request requests_key tokens_key
admit_request-others server prefix link now p tokens s other hp ho ne =
    let same = λ (u v : Text). key_of-ne prefix p.key_id other u v hp ho ne in
    let read = λ (k : Text).
      read-admit server now (requests_demand prefix p) (tokens_demand prefix p tokens) k s in
    ground (
      arith,
      read (requests_key prefix other),
      read (tokens_key prefix other),
      same (codes ":requests") (codes ":requests"),
      same (codes ":requests") (codes ":tokens"),
      same (codes ":tokens") (codes ":requests"),
      same (codes ":tokens") (codes ":tokens"),
    )
