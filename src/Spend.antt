-- ===== src/Spend.antt =====
-- `SpendLedger` of src/vortex_ai_gateway/spend.py: a caller's counters, a hash for each day with a field for each
-- model and quantity. Redis is a parameter; a day is its name.
pub mod Fields
pub mod Ledger
mod Tests
use vortex_ai_gateway.Base.{
  ℕ, ◌+◌, ◌≡◌, Text, codes, Bool, true, false, ◌&&◌, Option, none, some, List, [], ◌∷◌, ◌++◌, Dict,
  lookup, insert, option_or, is_empty, text_eq, ◌==◌, if◌then◌else◌,
}

-- No key stands twice.
unfoldable pub Distinct : Dict ℕ → Type 0
unfolding lookup
Distinct [] = Unit
Distinct ((f, n) ∷ fs) = (lookup f fs ≡ none) × Distinct fs

-- The server: HGETALL, in any order, and HINCRBY, before anything expires. A value is read as the number that
-- it prints.
pub record Server : Type 1 where
  pub State : Type 0
  pub hgetall : Text → State → Dict ℕ
  pub hincrby : Text → Text → ℕ → State → State
  pub hgetall-Distinct : (k : Text) (s : State) → Distinct (hgetall k s)
  pub hgetall-hincrby :
      (j k f g : Text) (n : ℕ) (s : State)
      → lookup g (hgetall j (hincrby k f n s)) ≡ (
          if text_eq k j && text_eq f g
          then some (option_or (lookup f (hgetall k s)) 0 + n)
          else lookup g (hgetall j s))

-- `s.rpartition(sep)`: before the last separator, whether there is one, after it.
unfoldable pub rpartition : ℕ → Text → Text × Bool × Text
rpartition sep [] = ([], false, [])
rpartition sep (c ∷ s) =
    let (before, found, after) = rpartition sep s in
    if found
    then (c ∷ before, true, after)
    else if c == sep
    then ([], true, s)
    else ([], false, c ∷ s)

-- `REQUESTS`, `UNMETERED`, `PROMPT` and `COMPLETION`
pub data Quantity : Type 0 where
  requests unmetered prompt completion : Quantity

abbrev pub name_of : Quantity → Text
name_of requests = codes "requests"
name_of unmetered = codes "unmetered"
name_of prompt = codes "prompt"
name_of completion = codes "completion"

-- `_ModelTotals`
pub record ModelTotals : Type 0 where
  pub requests_count : ℕ
  pub unmetered_count : ℕ
  pub prompt_tokens : ℕ
  pub completion_tokens : ℕ

abbrev pub no_totals : ModelTotals
no_totals = record {
  requests_count = 0;
  unmetered_count = 0;
  prompt_tokens = 0;
  completion_tokens = 0;
}

abbrev pub quantity_in : Quantity → ModelTotals → ℕ
quantity_in requests t = t.requests_count
quantity_in unmetered t = t.unmetered_count
quantity_in prompt t = t.prompt_tokens
quantity_in completion t = t.completion_tokens

-- `_ModelTotals.plus`
unfoldable pub plus : Text → ℕ → ModelTotals → ModelTotals
plus quantity amount t = record {
  requests_count = if text_eq quantity (codes "requests") then amount else t.requests_count;
  unmetered_count = if text_eq quantity (codes "unmetered") then amount else t.unmetered_count;
  prompt_tokens = if text_eq quantity (codes "prompt") then amount else t.prompt_tokens;
  completion_tokens = if text_eq quantity (codes "completion") then amount else t.completion_tokens;
}

-- `f"{model}{FIELD_SEPARATOR}{quantity}"`
abbrev pub field_of : Text → Text → Text
field_of model quantity = model ++ (b'|' ∷ quantity)

-- The totals of a model, none yet if it is not there.
abbrev pub totals_at : Text → Dict ModelTotals → ModelTotals
totals_at model totals = option_or (lookup model totals) no_totals

-- The loop of `_day_report` over the fields.
unfoldable pub totals_from : Dict ℕ → Dict ModelTotals → Dict ModelTotals
unfolding rpartition plus insert lookup
totals_from [] totals = totals
totals_from ((f, n) ∷ fs) totals =
    let (model, found, quantity) = rpartition b'|' f in
    if is_empty model
    then totals_from fs totals
    else totals_from fs (insert model (plus quantity n (totals_at model totals)) totals)

module _ (server : Server) (prefix : Text) where
  open server use {State, hgetall, hincrby}

  -- `_key`
  unfoldable pub key_of : Text → Text → Text
  key_of key_id day = prefix ++ (b':' ∷ (key_id ++ (b':' ∷ day)))

  -- `record`; `up` is whether the pipeline runs.
  unfoldable pub record_usage : Bool → Text → Text → Text → ℕ → ℕ → Bool → State → State
  unfolding key_of
  record_usage up key_id day model p c was_metered s =
      let key = key_of key_id day in
      if up
      then hincrby key (field_of model (codes "completion")) c (
          hincrby key (field_of model (codes "prompt")) p (
            hincrby key (field_of model (codes "unmetered")) (if was_metered then 0 else 1)
              (hincrby key (field_of model (codes "requests")) 1 s)))
      else s

  -- What `_day_report` makes of a day: the totals of each model.
  unfoldable pub day_totals : Text → Text → State → Dict ModelTotals
  unfolding totals_from key_of
  day_totals key_id day s = totals_from (hgetall (key_of key_id day) s) []
