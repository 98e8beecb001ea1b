-- ===== src/Providers/Anthropic/Steps.antt =====
-- What one round of `stream` in src/vortex_ai_gateway/providers/anthropic.py does to the numbers of the
-- tool calls.
use vortex_ai_gateway.Base.{
  ℕ, ℤ, ◌≡◌, ◌⊎◌, refl, Text, codes, Bool, true, false, Option, none, some, List, [], ◌∷◌, length,
  option_or, text_eq, eq_of_text_eq, if◌then◌else◌, inl, inr, Bool-cases, Option-cases,
}
use vortex_ai_gateway.Contracts.Json.{
  Json, null, bool, number, other_number, text, array, object, Fields, get, truthy, text_or_none,
}
use vortex_ai_gateway.Providers.Anthropic.Stream.{
  int_of, usage_of, Delta, tool_start, Chunk, StreamState, Round, goes_on, ends_with, fails_with,
  set_ordinal, decode_tool_use, mapping_of,
}
use vortex_ai_gateway.Providers.Anthropic.Rounds.{
  with_read, says, on_message_start, start_tool, on_block_start, on_block_delta, count_output,
  on_message_delta, on_error, on_message_stop, on_event,
}

unfoldable pub starts_of : Option Delta → List ℕ → List ℕ
starts_of (some (tool_start n id tool)) later = n ∷ later
starts_of _ later = later

-- The ordinals that chunks give to the tool calls that they start.
unfoldable pub starts : List Chunk → List ℕ
unfolding starts_of
starts [] = []
starts (c ∷ cs) = starts_of c.delta (starts cs)

kind_of : Fields → Text
unfolding get
kind_of fs = option_or (text_or_none (get (codes "type") fs)) []

block_index : Fields → Option Fields → Option ℤ
unfolding kind_of get
block_index event none = none
block_index event (some block) =
    if text_eq (kind_of block) (codes "tool_use")
    then some (int_of (get (codes "index") event))
    else none

-- The index of the tool block that an event starts.
unfoldable pub index_started : Fields → Option ℤ
unfolding kind_of block_index get
index_started event =
    if text_eq (kind_of event) (codes "content_block_start")
    then block_index event (mapping_of (get (codes "content_block") event))
    else none

-- What a round does to the ordinals `os`, if `k` is the index of the tool block that its event starts.
unfoldable pub Steps : List (ℤ × ℕ) → Option ℤ → Round → Type 0
Steps os k (goes_on cs s) =
    ((k ≡ none) × (starts cs ≡ []) × (s.tool_ordinals ≡ os))
    ⊎ ((i : ℤ) × (k ≡ some i)
        × (starts cs ≡ length os ∷ [])
        × (s.tool_ordinals ≡ set_ordinal i (length os) os))
Steps os k (ends_with cs) = starts cs ≡ []
Steps os k (fails_with cs e) = starts cs ≡ []

not_a_block :
    (event : Fields)
    → text_eq (kind_of event) (codes "message_start") ≡ true
    → text_eq (kind_of event) (codes "content_block_start") ≡ false
not_a_block event is = rw (eq_of_text_eq (kind_of event) (codes "message_start") is) refl

unfoldable pub index_of : Option Fields → Option ℤ
index_of none = none
index_of (some event) = index_started event

module _ (name : Text) (str : Json → Text) (wants_usage : Bool) where
  on_block_start-Steps :
      (s : StreamState) (event block : Fields)
      → Steps s.tool_ordinals
          (block_index event (some block))
          (on_block_start name str wants_usage s event block)
  unfolding Steps on_block_start starts with_read block_index kind_of says start_tool
  on_block_start-Steps s event block =
      elim (Bool-cases (text_eq (kind_of block) (codes "tool_use"))) [
        | inl tool ↦ elim (Option-cases (decode_tool_use block)) [
          | inl bare ↦ rw (tool, bare) refl
          | inr (read, e) ↦
              rw (tool, e) (inr (int_of (get (codes "index") event), refl, refl, refl))
        ]
        | inr plain ↦ elim (Bool-cases (truthy (get (codes "text") block))) [
          | inl worded ↦ rw (plain, worded) (inl (refl, refl, refl))
          | inr bare ↦ rw (plain, bare) (inl (refl, refl, refl))
        ]
      ]

  on_block_delta-Steps :
      (s : StreamState) (event body : Fields)
      → Steps s.tool_ordinals none (on_block_delta name str wants_usage s event body)
  unfolding Steps on_block_delta starts says
  on_block_delta-Steps s event body =
      let kind : Text = option_or (text_or_none (get (codes "type") body)) [] in
      elim (Bool-cases (text_eq kind (codes "text_delta"))) [
        | inl words ↦ rw words (inl (refl, refl, refl))
        | inr other ↦ elim (Bool-cases (text_eq kind (codes "input_json_delta"))) [
          | inl json ↦ rw (other, json) (inl (refl, refl, refl))
          | inr none_of ↦ rw (other, none_of) (inl (refl, refl, refl))
        ]
      ]

  count_output-ordinals :
      (usage : Json) (s : StreamState)
      → (count_output name str wants_usage usage s).tool_ordinals ≡ s.tool_ordinals
  unfolding count_output
  count_output-ordinals (object fs) s = refl
  count_output-ordinals null s = refl
  count_output-ordinals (bool b) s = refl
  count_output-ordinals (number n) s = refl
  count_output-ordinals (other_number t) s = refl
  count_output-ordinals (text t) s = refl
  count_output-ordinals (array xs) s = refl

  on_message_stop-Steps :
      (s : StreamState) (os : List (ℤ × ℕ)) (k : Option ℤ)
      → Steps os k (on_message_stop name str wants_usage s)
  unfolding Steps on_message_stop starts
  on_message_stop-Steps s os k = elim (Bool-cases wants_usage) [
    | inl wanted ↦ elim (Option-cases (usage_of s.prompt_usage (some s.output_tokens))) [
      | inl invalid ↦ rw (wanted, invalid) refl
      | inr (usage, e) ↦ rw (wanted, e) refl
    ]
    | inr unwanted ↦ rw unwanted refl
  ]

  on_message_start-Steps :
      (s : StreamState) (message : Fields)
      → Steps s.tool_ordinals none (on_message_start name str wants_usage s message)
  unfolding Steps on_message_start starts
  on_message_start-Steps s message = inl (refl, refl, refl)

  on_message_delta-Steps :
      (s : StreamState) (event body : Fields)
      → Steps s.tool_ordinals none (on_message_delta name str wants_usage s event body)
  unfolding Steps on_message_delta starts
  on_message_delta-Steps s event body =
      inl (refl, refl, count_output-ordinals (get (codes "usage") event) _)

  on_error-Steps :
      (os : List (ℤ × ℕ)) (k : Option ℤ) (error : Json)
      → Steps os k (on_error name str wants_usage error)
  unfolding Steps on_error starts
  on_error-Steps os k error = refl

  ignored-Steps : (s : StreamState) → Steps s.tool_ordinals none (goes_on [] s)
  unfolding Steps starts
  ignored-Steps s = inl (refl, refl, refl)

  -- A step that reads a mapping first.
  with_read-Steps {ℓ} :
      {A : Type ℓ} (os : List (ℤ × ℕ)) (k : Option ℤ) (f : A → Round) (o : Option A)
      → ((a : A) → Steps os k (f a))
      → Steps os k (with_read name str wants_usage f o)
  unfolding Steps with_read starts
  with_read-Steps os k f none ok = refl
  with_read-Steps os k f (some a) ok = ok a

  block_start-Steps :
      (s : StreamState) (event : Fields) (block : Option Fields)
      → Steps s.tool_ordinals
          (block_index event block)
          (with_read name str wants_usage (on_block_start name str wants_usage s event) block)
  unfolding Steps with_read starts
  block_start-Steps s event none = refl
  block_start-Steps s event (some block) = on_block_start-Steps s event block

  on_event-Steps :
      (s : StreamState) (event : Fields)
      → Steps s.tool_ordinals (index_started event) (on_event name str wants_usage s event)
  unfolding on_event index_started kind_of
  on_event-Steps s event = elim (Bool-cases (text_eq (kind_of event) (codes "message_start"))) [
    | inl is ↦
        rw (is, not_a_block event is)
          (with_read-Steps s.tool_ordinals none (on_message_start name str wants_usage s)
            (mapping_of (get (codes "message") event)) (on_message_start-Steps s))
    | inr not_start ↦ elim (Bool-cases (text_eq (kind_of event) (codes "content_block_start"))) [
      | inl is ↦
          rw (not_start, is)
            (block_start-Steps s event (mapping_of (get (codes "content_block") event)))
      | inr not_block ↦ elim (Bool-cases (text_eq (kind_of event) (codes "content_block_delta"))) [
        | inl is ↦
            rw (not_start, not_block, is)
              (with_read-Steps s.tool_ordinals none (on_block_delta name str wants_usage s event)
                (mapping_of (get (codes "delta") event))
                (λ body. on_block_delta-Steps s event body))
        | inr not_delta ↦ elim (Bool-cases (text_eq (kind_of event) (codes "message_delta"))) [
          | inl is ↦
              rw (not_start, not_block, not_delta, is)
                (with_read-Steps s.tool_ordinals none
                  (on_message_delta name str wants_usage s event)
                  (mapping_of (get (codes "delta") event)) (on_message_delta-Steps s event))
          | inr not_message ↦ elim (Bool-cases (text_eq (kind_of event) (codes "error"))) [
            | inl is ↦
                rw (not_start, not_block, not_delta, not_message, is)
                  (on_error-Steps s.tool_ordinals none (get (codes "error") event))
            | inr not_error ↦ elim (Bool-cases (text_eq (kind_of event) (codes "message_stop"))) [
              | inl is ↦
                  rw (not_start, not_block, not_delta, not_message, not_error, is)
                    (on_message_stop-Steps s s.tool_ordinals none)
              | inr not_stop ↦
                  rw (not_start, not_block, not_delta, not_message, not_error, not_stop)
                    (ignored-Steps s)
            ]
          ]
        ]
      ]
    ]
  ]

  pub round-Steps :
      (s : StreamState) (read : Option Fields)
      → Steps s.tool_ordinals
          (index_of read)
          (with_read name str wants_usage (on_event name str wants_usage s) read)
  unfolding Steps with_read index_of starts
  round-Steps s none = refl
  round-Steps s (some event) = on_event-Steps s event
