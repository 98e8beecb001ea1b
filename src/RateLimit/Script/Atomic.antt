-- ===== src/RateLimit/Script/Atomic.antt =====
-- `ADMIT_SCRIPT` debits both buckets or neither, and touches nothing else.
use vortex_ai_gateway.Base.{
  ℕ, ◌-◌, ◌*◌, ◌<◌, ◌≡◌, refl, Text, text_eq, Bool, false, Option, some, leb, if◌then◌else◌, arith,
  Bool-cases, inl, inr, not, ◌||◌, text_eq_refl, ◌&&◌,
}
use vortex_ai_gateway.RateLimit.Redis.{Bucket, Server}
use vortex_ai_gateway.RateLimit.Bucket.{window}
use vortex_ai_gateway.RateLimit.Script.{Demand, configured, is_short, debit, level_of, keep, admit}

-- What is stored of a bucket after the script.
abbrev pub kept : ℕ → Bool → Demand → ℕ → Option Bucket → Option Bucket
kept now allowed d level old =
    if configured d then some (record { tokens = debit allowed d level; ts = now }) else old

module _ (server : Server) where
  open server use {State, read, write, read-write}

  read-keep :
      (now : ℕ) (allowed : Bool) (d : Demand) (level : ℕ) (k : Text) (s : State)
      → read k (keep server now allowed d level s)
        ≡ (if text_eq d.key k then kept now allowed d level (read k s) else read k s)
  unfolding keep
  read-keep now allowed d level k s = elim (Bool-cases (configured d)) [
    | inl on ↦ rw (on, read-write) refl
    | inr off ↦ rw off (ground arith)
  ]

  -- The whole effect of the admission script on the stored buckets, key by key.
  pub read-admit :
      (now : ℕ) (requests tokens : Demand) (k : Text) (s : State)
      → let a = level_of server now requests s in
        let b = level_of server now tokens s in
        let allowed = not (is_short requests a || is_short tokens b) in
        let s' =
          if text_eq requests.key k then kept now allowed requests a (read k s) else read k s in
        read k (admit server now requests tokens s).1
        ≡ (if text_eq tokens.key k then kept now allowed tokens b s' else s')
  unfolding admit
  read-admit now requests tokens k s =
      let a = level_of server now requests s in
      let b = level_of server now tokens s in
      let allowed = not (is_short requests a || is_short tokens b) in
      rw
        (
          read-keep now allowed tokens b k (keep server now allowed requests a s),
          read-keep now allowed requests a k s,
        )
        refl

  -- With two configured buckets under distinct keys, the script admits exactly when both levels
  -- cover their cost; it then debits both, and otherwise neither, stamps both with the time, and
  -- leaves every other key as it was.
  pub admit_atomic :
      (now : ℕ) (requests tokens : Demand) (k : Text) (s : State)
      → 0 < requests.capacity
      → 0 < tokens.capacity
      → text_eq tokens.key requests.key ≡ false
      → text_eq requests.key k ≡ false
      → text_eq tokens.key k ≡ false
      → let a = level_of server now requests s in
        let b = level_of server now tokens s in
        let (reply, s') = admit server now requests tokens s in
        let held = λ (level cost : ℕ). if reply.allowed then level - cost * window else level in
        (reply.allowed ≡ leb (requests.cost * window) a && leb (tokens.cost * window) b)
        × (read requests.key s' ≡ some (record { tokens = held a requests.cost; ts = now }))
        × (read tokens.key s' ≡ some (record { tokens = held b tokens.cost; ts = now }))
        × (read k s' ≡ read k s)
  unfolding admit debit
  admit_atomic now requests tokens k s ha hb apart ka kb = (
    ground arith,
    ground (arith, read-admit now requests tokens requests.key s, text_eq_refl requests.key),
    ground (arith, read-admit now requests tokens tokens.key s, text_eq_refl tokens.key),
    ground (arith, read-admit now requests tokens k s),
  )
