-- ===== src/RateLimit/Limiter.antt =====
-- `RateLimiter`, `Decision` and `BucketState` of src/vortex_ai_gateway/ratelimit.py. Times are whole
-- milliseconds, so a second count of the source is a thousandth of the number here.
pub mod Settle
pub mod Keys
use vortex_ai_gateway.Base.{
  ℕ, ◌+◌, ◌/◌, max, Text, codes, Bool, true, false, not, ◌||◌, List, [], ◌∷◌, ◌++◌, leb,
  if◌then◌else◌, ℤ, pos, negsuc, pos_part, sub_ℕ, is_zero, is_natural,
}
use vortex_ai_gateway.Auth.Identity.{Principal, metered}
use vortex_ai_gateway.RateLimit.Redis.{Server}
use vortex_ai_gateway.RateLimit.Script.{Demand, BucketReply, Reply, admit, settle}

pub record Decision : Type 0 where
  pub allowed : Bool
  pub requests : BucketReply
  pub tokens : BucketReply
  pub retry_after_ms : ℕ
  pub reserved_tokens : ℕ

abbrev unset : BucketReply
unset = record { limit = negsuc 0; remaining = negsuc 0; reset_ms = 0 }

-- `Decision.unlimited`
abbrev pub unlimited : Decision
unlimited = record {
  allowed = true;
  requests = unset;
  tokens = unset;
  retry_after_ms = 0;
  reserved_tokens = 0;
}

-- A header's value before it is printed: a number, or a delay in milliseconds.
pub data HeaderValue : Type 0 where
  number delay : ℕ → HeaderValue

bucket_headers : Text → BucketReply → List (Text × HeaderValue)
bucket_headers unit bucket =
    if is_natural bucket.limit
    then (codes "x-ratelimit-limit-" ++ unit, number (pos_part bucket.limit))
      ∷ (codes "x-ratelimit-remaining-" ++ unit, number (pos_part bucket.remaining))
      ∷ (codes "x-ratelimit-reset-" ++ unit, delay bucket.reset_ms)
      ∷ []
    else []

-- `Retry-After`: whole seconds, rounded up and never zero.
unfoldable pub retry_after_seconds : ℕ → ℕ
retry_after_seconds ms = max 1 ((ms + 999) / 1000)

-- `Decision.headers`
unfoldable pub headers : Decision → List (Text × HeaderValue)
unfolding bucket_headers retry_after_seconds
headers d =
    bucket_headers (codes "requests") d.requests
    ++ (bucket_headers (codes "tokens") d.tokens
        ++ (if d.allowed
            then []
            else (codes "retry-after", number (retry_after_seconds d.retry_after_ms)) ∷ []))

-- How a call of a script went: it ran, it never reached the server, or it ran and its reply was lost.
pub data Link : Type 0 where
  up down reply_lost : Link

-- `_keys`, both under one hash tag.
unfoldable pub requests_key : Text → Text → Text
requests_key prefix key_id = prefix ++ (codes ":{" ++ (key_id ++ codes "}:requests"))

unfoldable pub tokens_key : Text → Text → Text
tokens_key prefix key_id = prefix ++ (codes ":{" ++ (key_id ++ codes "}:tokens"))

unfoldable pub requests_demand : Text → Principal → Demand
unfolding requests_key
requests_demand prefix p = record { key = requests_key prefix p.key_id; capacity = p.rpm; cost = 1 }

unfoldable pub tokens_demand : Text → Principal → ℕ → Demand
unfolding tokens_key
tokens_demand prefix p tokens = record {
  key = tokens_key prefix p.key_id;
  capacity = p.tpm;
  cost = tokens;
}

-- The decision that a reply of the script is turned into.
unfoldable pub decision_of : Reply → ℕ → Decision
decision_of reply tokens = record {
  allowed = reply.allowed;
  requests = reply.requests;
  tokens = reply.tokens;
  retry_after_ms = reply.retry_ms;
  reserved_tokens = if reply.allowed then tokens else 0;
}

module _ (server : Server) (prefix : Text) where
  open server use {State}

  by_link : Link → Decision × State → State → Decision × State
  by_link up answered s = answered
  by_link down answered s = (unlimited, s)
  by_link reply_lost answered s = (unlimited, answered.1)

  -- `admit`: every failure of Redis lets the request through.
  unfoldable pub admit_request : Link → ℕ → Principal → ℕ → State → Decision × State
  unfolding by_link decision_of requests_demand tokens_demand
  admit_request link now p tokens s =
      if metered p
      then (let (reply, s') =
            admit server now (requests_demand prefix p) (tokens_demand prefix p tokens) s in
          by_link link (decision_of reply tokens, s') s)
      else (unlimited, s)

  settle_by_link : Link → State → State → State
  settle_by_link up settled s = settled
  settle_by_link down settled s = s
  settle_by_link reply_lost settled s = settled

  -- `reconcile`
  unfoldable pub reconcile : Link → ℕ → Principal → ℕ → ℕ → State → State
  unfolding settle_by_link
  reconcile link now p reserved actual s =
      let refund = sub_ℕ reserved actual in
      if not (metered p) || leb p.tpm 0 || is_zero refund
      then s
      else settle_by_link link (settle server now (tokens_key prefix p.key_id) p.tpm refund s) s
