-- ===== src/RateLimit/Limiter/Settle.antt =====
-- What a reservation costs once it is settled.
use vortex_ai_gateway.Base.{
  ℕ, ◌-◌, ◌*◌, ◌≤◌, ◌<◌, ◌≡◌, Text, true, some, arith, if◌then◌else◌, sub_ℕ, is_zero, text_eq_refl,
}
use vortex_ai_gateway.Auth.Identity.{Principal}
use vortex_ai_gateway.RateLimit.Redis.{Server}
use vortex_ai_gateway.RateLimit.Bucket.{window, measure, measure_bounded}
use vortex_ai_gateway.RateLimit.Script.{settle, level_of, shift, debit, admit}
use vortex_ai_gateway.RateLimit.Script.Atomic.{read-admit}
use vortex_ai_gateway.RateLimit.Limiter.{
  up, tokens_key, requests_demand, tokens_demand, admit_request, reconcile,
}

-- Of a level that paid a reservation, the refund of what was not used leaves the level less the use.
shift-refund :
    (capacity level reserved actual : ℕ)
    → level ≤ capacity * window
    → reserved * window ≤ level
    → shift capacity (sub_ℕ reserved actual) (level - reserved * window) ≡ level - actual * window
unfolding shift
shift-refund capacity level reserved actual h k = ground arith

measure_stamped :
    (now capacity level : ℕ)
    → level ≤ capacity * window
    → measure now capacity (some (record { tokens = level; ts = now })) ≡ level
unfolding measure
measure_stamped now capacity level h = let e : now - now ≡ 0 = omega arith in rw e (omega arith)

module _ (server : Server) (prefix : Text) where
  open server use {State, read, read-write}

  -- What an admission leaves in the token bucket.
  admitted_tokens :
      (now : ℕ) (p : Principal) (reserved : ℕ) (s : State)
      → 0 < p.tpm
      → (admit_request server prefix up now p reserved s).0.allowed ≡ true
      → let level = measure now p.tpm (read (tokens_key prefix p.key_id) s) in
        (reserved * window ≤ level)
        × (read (tokens_key prefix p.key_id) (admit_request server prefix up now p reserved s).1
            ≡ some (record { tokens = level - reserved * window; ts = now }))
  unfolding admit_request admit level_of debit
  admitted_tokens now p reserved s h admitted =
      let key = tokens_key prefix p.key_id in
      (
        ground arith,
        ground (
          arith,
          read-admit server now (requests_demand prefix p) (tokens_demand prefix p reserved) key s,
          text_eq_refl key,
        ),
      )

  read-reconcile :
      (now : ℕ) (p : Principal) (reserved actual : ℕ) (s : State)
      → 0 < p.tpm
      → let key = tokens_key prefix p.key_id in
        let refund = sub_ℕ reserved actual in
        read key (reconcile server prefix up now p reserved actual s) ≡ (
          if is_zero refund
          then read key s
          else some
              (record { tokens = shift p.tpm refund (measure now p.tpm (read key s)); ts = now }))
  unfolding reconcile settle
  read-reconcile now p reserved actual s h =
      let key = tokens_key prefix p.key_id in
      ground (
        arith,
        read-write key key
            (record {
              tokens = shift p.tpm (sub_ℕ reserved actual) (measure now p.tpm (read key s));
              ts = now;
            })
            s,
        text_eq_refl key,
      )

  -- A request that was admitted and then settled in the same millisecond costs the token bucket
  -- exactly what it used, whatever was reserved for it: nothing if it produced nothing, and at most
  -- all that the bucket held, which then is empty.
  pub reconcile-admit_request :
      (now : ℕ) (p : Principal) (reserved actual : ℕ) (s : State)
      → 0 < p.tpm
      → (admit_request server prefix up now p reserved s).0.allowed ≡ true
      → let level = measure now p.tpm (read (tokens_key prefix p.key_id) s) in
        let s' = (admit_request server prefix up now p reserved s).1 in
        read (tokens_key prefix p.key_id) (reconcile server prefix up now p reserved actual s')
        ≡ some (record { tokens = level - actual * window; ts = now })
  reconcile-admit_request now p reserved actual s h admitted =
      let key = tokens_key prefix p.key_id in
      let level = measure now p.tpm (read key s) in
      let s' = (admit_request server prefix up now p reserved s).1 in
      let (paid, held) = admitted_tokens now p reserved s h admitted in
      let bound = measure_bounded now p.tpm (read key s) in
      ground (
        arith,
        paid,
        held,
        read-reconcile now p reserved actual s' h,
        measure_stamped now p.tpm (level - reserved * window),
        shift-refund p.tpm level reserved actual bound paid,
        bound,
      )
