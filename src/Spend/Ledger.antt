-- ===== src/Spend/Ledger.antt =====
-- What `SpendLedger` of src/vortex_ai_gateway/spend.py reports of what it recorded.
use vortex_ai_gateway.Base.{
  ℕ, ◌+◌, ◌≡◌, refl, sym, ap, ◌∙◌, Text, codes, Bool, true, false, ◌&&◌, [], lookup, option_or,
  is_empty, text_eq, text_eq_refl, eq_of_text_eq, if◌then◌else◌, Bool-cases, inl, inr, arith,
}
use vortex_ai_gateway.Spend.{
  Server, Quantity, requests, unmetered, prompt, completion, name_of, quantity_in, field_of,
  totals_at, totals_from, key_of, record_usage, day_totals,
}
use vortex_ai_gateway.Spend.Fields.{totals_from-quantity_in, text_eq-field_of, rpartition-field_of}

-- What one request adds to a quantity.
unfoldable pub amount : Quantity → ℕ → ℕ → Bool → ℕ
amount requests p c was_metered = 1
amount unmetered p c was_metered = if was_metered then 0 else 1
amount prompt p c was_metered = p
amount completion p c was_metered = c

-- Two fields are one exactly if their models and quantities are.
text_eq-fields :
    (model m : Text) (q q' : Quantity)
    → text_eq (field_of model (name_of q)) (field_of m (name_of q'))
      ≡ (text_eq model m && text_eq (name_of q) (name_of q'))
text_eq-fields model m q q' =
    let parts = rpartition-field_of (field_of model (name_of q)) model q refl in
    text_eq-field_of (field_of model (name_of q)) m q' ∙ rw parts refl

module _ (server : Server) (prefix : Text) where
  open server use {State, hgetall, hincrby, hgetall-Distinct, hgetall-hincrby}

  counter : Text → Text → State → ℕ
  counter key field s = option_or (lookup field (hgetall key s)) 0

  counter-hincrby :
      (j k f g : Text) (n : ℕ) (s : State)
      → counter j g (hincrby k f n s)
        ≡ counter j g s + (if text_eq k j && text_eq f g then n else 0)
  unfolding counter
  counter-hincrby j k f g n s = elim (Bool-cases (text_eq k j && text_eq f g)) [
    | inl same ↦
        ground (arith, hgetall-hincrby j k f g n s, same, eq_of_text_eq k j, eq_of_text_eq f g)
    | inr other ↦ ground (arith, hgetall-hincrby j k f g n s, other)
  ]

  abbrev four : Text → Text → ℕ → ℕ → ℕ → ℕ → State → State
  four key model r u p c s = hincrby key (field_of model (codes "completion")) c (
      hincrby key (field_of model (codes "prompt")) p (
        hincrby key (field_of model (codes "unmetered")) u
          (hincrby key (field_of model (codes "requests")) r s)))

  added : Text → Text → Text → Text → ℕ → ℕ
  added key key' f g n = if text_eq key key' && text_eq f g then n else 0

  -- The four increments of a request, on one counter.
  counter-four :
      (key key' model g : Text) (r u p c : ℕ) (s : State)
      → counter key' g (four key model r u p c s)
        ≡ counter key' g s
          + added key key' (field_of model (codes "requests")) g r
          + added key key' (field_of model (codes "unmetered")) g u
          + added key key' (field_of model (codes "prompt")) g p
          + added key key' (field_of model (codes "completion")) g c
  unfolding added
  counter-four key key' model g r u p c s =
      let s1 = hincrby key (field_of model (codes "requests")) r s in
      let s2 = hincrby key (field_of model (codes "unmetered")) u s1 in
      let s3 = hincrby key (field_of model (codes "prompt")) p s2 in
      let first = counter-hincrby key' key (field_of model (codes "requests")) g r s in
      let second = counter-hincrby key' key (field_of model (codes "unmetered")) g u s1 in
      let third = counter-hincrby key' key (field_of model (codes "prompt")) g p s2 in
      counter-hincrby key' key (field_of model (codes "completion")) g c s3
      ∙ ap (λ n. n + added key key' (field_of model (codes "completion")) g c)
          (third
            ∙ ap (λ n. n + added key key' (field_of model (codes "prompt")) g p)
                (second
                  ∙ ap (λ n. n + added key key' (field_of model (codes "unmetered")) g u) first))

  -- What is added to a field of one or of another quantity.
  added-same :
      (key key' model m : Text) (q : Quantity) (n : ℕ)
      → added key key' (field_of model (name_of q)) (field_of m (name_of q)) n
        ≡ (if text_eq key key' && text_eq model m then n else 0)
  unfolding added
  added-same key key' model m q n =
      ground (arith, text_eq-fields model m q q, text_eq_refl (name_of q))

  added-other :
      (key key' model m : Text) (q q' : Quantity) (n : ℕ)
      → text_eq (name_of q) (name_of q') ≡ false
      → added key key' (field_of model (name_of q)) (field_of m (name_of q')) n ≡ 0
  unfolding added
  added-other key key' model m q q' n other = ground (arith, text_eq-fields model m q q', other)

  counter-record :
      (key key' model m : Text) (q : Quantity) (p c : ℕ) (was_metered : Bool) (s : State)
      → counter key'
          (field_of m (name_of q))
          (four key model 1 (if was_metered then 0 else 1) p c s)
        ≡ counter key' (field_of m (name_of q)) s
          + (if text_eq key key' && text_eq model m then amount q p c was_metered else 0)
  unfolding amount
  counter-record key key' model m q p c was_metered s =
      let u : ℕ = if was_metered then 0 else 1 in
      counter-four key key' model (field_of m (name_of q)) 1 u p c s ∙ four_added q
    where
      four_added :
          (q : Quantity)
          → counter key' (field_of m (name_of q)) s
              + added key key' (field_of model (codes "requests")) (field_of m (name_of q)) 1
              + added key key'
                  (field_of model (codes "unmetered"))
                  (field_of m (name_of q))
                  (if was_metered then 0 else 1)
              + added key key' (field_of model (codes "prompt")) (field_of m (name_of q)) p
              + added key key' (field_of model (codes "completion")) (field_of m (name_of q)) c
            ≡ counter key' (field_of m (name_of q)) s
              + (if text_eq key key' && text_eq model m then amount q p c was_metered else 0)
      four_added requests =
          let u : ℕ = if was_metered then 0 else 1 in
          ground (
            arith,
            added-same key key' model m requests 1,
            added-other key key' model m unmetered requests u refl,
            added-other key key' model m prompt requests p refl,
            added-other key key' model m completion requests c refl,
          )
      four_added unmetered =
          let u : ℕ = if was_metered then 0 else 1 in
          ground (
            arith,
            added-other key key' model m requests unmetered 1 refl,
            added-same key key' model m unmetered u,
            added-other key key' model m prompt unmetered p refl,
            added-other key key' model m completion unmetered c refl,
          )
      four_added prompt =
          let u : ℕ = if was_metered then 0 else 1 in
          ground (
            arith,
            added-other key key' model m requests prompt 1 refl,
            added-other key key' model m unmetered prompt u refl,
            added-same key key' model m prompt p,
            added-other key key' model m completion prompt c refl,
          )
      four_added completion =
          let u : ℕ = if was_metered then 0 else 1 in
          ground (
            arith,
            added-other key key' model m requests completion 1 refl,
            added-other key key' model m unmetered completion u refl,
            added-other key key' model m prompt completion p refl,
            added-same key key' model m completion c,
          )

  no_quantity : (m : Text) (q : Quantity) → quantity_in q (totals_at m []) ≡ 0
  unfolding lookup
  no_quantity m requests = refl
  no_quantity m unmetered = refl
  no_quantity m prompt = refl
  no_quantity m completion = refl

  day_counter :
      (key m : Text) (q : Quantity) (s : State)
      → is_empty m ≡ false
      → quantity_in q (totals_at m (totals_from (hgetall key s) []))
        ≡ counter key (field_of m (name_of q)) s
  unfolding counter
  day_counter key m q s named =
      totals_from-quantity_in (hgetall key s) [] m q (hgetall-Distinct key s) named
      ∙ ap (option_or (lookup (field_of m (name_of q)) (hgetall key s))) (no_quantity m q)

  -- A request that is recorded adds to the day's totals of its caller and model what it used: one request,
  -- its tokens, and one unmetered request if nobody knows them; and nothing to the totals of
  -- another model, or in a hash of another name.
  pub day_totals-record_usage :
      (key_id key_id' day day' model m : Text) (p c : ℕ) (was_metered : Bool) (q : Quantity)
      (s : State)
      → is_empty m ≡ false
      → let s' = record_usage server prefix true key_id day model p c was_metered s in
        quantity_in q (totals_at m (day_totals server prefix key_id' day' s'))
        ≡ quantity_in q (totals_at m (day_totals server prefix key_id' day' s))
          + (if text_eq (key_of server prefix key_id day) (key_of server prefix key_id' day')
                && text_eq model m
              then amount q p c was_metered
              else 0)
  unfolding day_totals record_usage
  day_totals-record_usage key_id key_id' day day' model m p c was_metered q s named =
      let key = key_of server prefix key_id day in
      let key' = key_of server prefix key_id' day' in
      day_counter key' m q (four key model 1 (if was_metered then 0 else 1) p c s) named
      ∙ counter-record key key' model m q p c was_metered s
      ∙ ap (λ n. n + (if text_eq key key' && text_eq model m then amount q p c was_metered else 0))
          (sym (day_counter key' m q s named))
