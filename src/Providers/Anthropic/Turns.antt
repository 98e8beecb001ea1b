-- ===== src/Providers/Anthropic/Turns.antt =====
-- `_translate_messages` of src/vortex_ai_gateway/providers/anthropic.py: a conversation as a system prompt
-- and turns of blocks. `json.loads` is a parameter.
use vortex_ai_gateway.Base.{
  Text, codes, Bool, true, false, not, ◌||◌, Option, none, some, List, [], ◌∷◌, ◌++◌, map, is_empty,
  partition, split_on, strip, if◌then◌else◌, is_some, ◌==◌,
}
use vortex_ai_gateway.Contracts.Chat.{ContentPart, text_part, image_part, audio_part}
use vortex_ai_gateway.Contracts.Messages.{
  TextContent, one_text, text_parts, UserContent, user_text, user_parts, ToolCall, RoleMessage,
  system_message, developer_message, user_message, assistant_message, tool_message,
}
use vortex_ai_gateway.Providers.Errors.{translation, Result, returned, raised, provider_error}

-- What `json.loads` makes of a text: no JSON, JSON that is no object, or an object.
pub data Loaded (J : Type 0) : Type 0 where
  not_json : Loaded J
  not_object : Loaded J
  object : J → Loaded J

pub data Source : Type 0 where
  base64_source : Text → Text → Source
  url_source : Text → Source

pub data Block (J : Type 0) : Type 0 where
  text_block : Text → Block J
  image_block : Source → Block J
  tool_use : Text → Text → J → Block J
  tool_result : Text → Text → Block J

pub data Speaker : Type 0 where
  user assistant : Speaker

pub record Turn (J : Type 0) : Type 0 where
  pub role : Speaker
  pub content : List (Block J)

pub data Said (J : Type 0) : Type 0 where
  framing : Text → Said J
  spoken : Speaker → Result (List (Block J)) → Said J

abbrev pub same_role : Speaker → Speaker → Bool
same_role user user = true
same_role assistant assistant = true
same_role _ _ = false

-- The texts with a separator between them.
unfoldable pub join : Text → List Text → Text
join sep [] = []
join sep (t ∷ []) = t
join sep (t ∷ u ∷ ts) = t ++ (sep ++ join sep (u ∷ ts))

-- `_flatten_text`
unfoldable pub flatten_text : TextContent → Text
unfolding join
flatten_text (one_text t) = t
flatten_text (text_parts ts) = join (10 ∷ []) ts

-- `s.startswith(p)`, and `s` without `p`
unfoldable pub strip_prefix : Text → Text → Option Text
strip_prefix [] s = some s
strip_prefix (c ∷ p) [] = none
strip_prefix (c ∷ p) (d ∷ s) = if c == d then strip_prefix p s else none

-- `p in s`
unfoldable pub contains_text : Text → Text → Bool
unfolding strip_prefix
contains_text p [] = is_empty p
contains_text p (c ∷ s) = is_some (strip_prefix p (c ∷ s)) || contains_text p s

-- `TranslationError` with its code
abbrev pub refused {ℓ} : {A : Type ℓ} → Text → Text → Result A
refused provider code = raised (
    provider_error (record {
      kind = translation;
      provider = provider;
      status_code = none;
      code = some code;
      parameter = none;
      retry_after = none;
    }))

-- `part for part in ts if part`
unfoldable pub non_empty : List Text → List Text
non_empty [] = []
non_empty (t ∷ ts) = let rest = non_empty ts in if is_empty t then rest else t ∷ rest

-- The next step of a translation that may raise.
unfoldable pub and_then {ℓ ℓ'} : {A : Type ℓ} {B : Type ℓ'} → (A → Result B) → Result A → Result B
and_then f (returned a) = f a
and_then f (raised e) = raised e

first_of : List Text → Text
first_of [] = []
first_of (t ∷ ts) = t

module _ (J : Type 0) (name : Text) (loads : Text → Loaded J) (empty_object : J) where
  -- A `data:` URL, from what follows the scheme: its header up to a comma, and the data.
  data_source : Text → Result Source
  unfolding partition contains_text split_on first_of
  data_source rest =
      let (header, found, data_) = partition b',' rest in
      if not (contains_text (codes ";base64") header) || is_empty data_
      then refused name (codes "unsupported_image_encoding")
      else returned (base64_source (first_of (split_on b';' header)) data_)

  -- `_image_source`
  unfoldable pub image_source : Text → Result Source
  unfolding strip_prefix data_source
  image_source url = elim (strip_prefix (codes "data:") url) [
    | some rest ↦ data_source rest
    | none ↦
        if is_some (strip_prefix (codes "http://") url)
          || is_some (strip_prefix (codes "https://") url)
        then returned (url_source url)
        else refused name (codes "unsupported_image_url")
  ]

  user_part : ContentPart → Result (Block J)
  unfolding image_source and_then
  user_part (text_part t) = returned (text_block t)
  user_part (image_part url) = and_then (λ source. returned (image_block source)) (image_source url)
  user_part (audio_part t) = refused name (codes "unsupported_content_part")

  user_part_blocks : List ContentPart → Result (List (Block J))
  unfolding user_part and_then
  user_part_blocks [] = returned []
  user_part_blocks (part ∷ later) =
      let rest = user_part_blocks later in
      and_then (λ b. and_then (λ bs. returned (b ∷ bs)) rest) (user_part part)

  -- `_user_blocks`
  unfoldable pub user_blocks : UserContent → Result (List (Block J))
  unfolding user_part_blocks
  user_blocks (user_text t) = returned (text_block t ∷ [])
  user_blocks (user_parts ps) = user_part_blocks ps

  -- `_tool_arguments`: no arguments are an empty object.
  unfoldable pub tool_arguments : ToolCall → Result J
  unfolding strip
  tool_arguments call =
      if is_empty (strip call.arguments)
      then returned empty_object
      else elim (loads (strip call.arguments)) [
        | not_json ↦ refused name (codes "invalid_tool_arguments")
        | not_object ↦ refused name (codes "invalid_tool_arguments")
        | object j ↦ returned j
      ]

  call_blocks : List ToolCall → Result (List (Block J))
  unfolding tool_arguments and_then
  call_blocks [] = returned []
  call_blocks (call ∷ later) =
      let rest = call_blocks later in
      and_then (λ j. and_then (λ bs. returned (tool_use call.id call.name j ∷ bs)) rest)
        (tool_arguments call)

  -- A text as a block, if there is any.
  abbrev text_blocks : Text → List (Block J)
  text_blocks t = if is_empty t then [] else text_block t ∷ []

  -- `_assistant_blocks`
  unfoldable pub assistant_blocks :
      Option TextContent → Option Text → List ToolCall → Result (List (Block J))
  unfolding flatten_text call_blocks and_then
  assistant_blocks content refusal calls =
      let said : Text = elim content [ none ↦ [] | some c ↦ flatten_text c ] in
      let declined : Text = elim refusal [ none ↦ [] | some t ↦ t ] in
      and_then (λ bs. returned (text_blocks said ++ (text_blocks declined ++ bs)))
        (call_blocks calls)

  -- What a message is: a part of the system prompt, or blocks of a speaker.
  unfoldable pub said : RoleMessage → Said J
  unfolding user_blocks assistant_blocks flatten_text
  said (system_message c) = framing (flatten_text c)
  said (developer_message c) = framing (flatten_text c)
  said (user_message c) = spoken user (user_blocks c)
  said (assistant_message c refusal calls) = spoken assistant (assistant_blocks c refusal calls)
  said (tool_message c id) = spoken user (returned (tool_result id (flatten_text c) ∷ []))

  -- `add` on a turn that is there
  unfoldable pub extend : Speaker → List (Block J) → List (Turn J) → List (Turn J)
  extend role blocks [] = record { role = role; content = blocks } ∷ []
  extend role blocks (t ∷ []) =
      if same_role t.role role
      then record t { content = t.content ++ blocks } ∷ []
      else t ∷ record { role = role; content = blocks } ∷ []
  extend role blocks (t ∷ u ∷ ts) = t ∷ extend role blocks (u ∷ ts)

  -- `add`
  unfoldable pub add : Speaker → List (Block J) → List (Turn J) → List (Turn J)
  unfolding extend
  add role [] turns = turns
  add role (b ∷ bs) turns = extend role (b ∷ bs) turns

  -- The loop over the messages, each with its blocks, on the system texts and the turns so far.
  unfoldable pub translate_from :
      List (Said J) → List Text → List (Turn J) → Result (List Text × List (Turn J))
  unfolding add
  translate_from [] system turns = returned (system, turns)
  translate_from (framing t ∷ ms) system turns = translate_from ms (system ++ (t ∷ [])) turns
  translate_from (spoken role (returned bs) ∷ ms) system turns =
      translate_from ms system (add role bs turns)
  translate_from (spoken role (raised e) ∷ ms) system turns = raised e

  -- `"\n\n".join(part for part in system if part) or None`
  unfoldable pub system_prompt : List Text → Option Text
  unfolding join non_empty
  system_prompt system =
      let prompt = join (10 ∷ 10 ∷ []) (non_empty system) in
      if is_empty prompt then none else some prompt

  -- `_translate_messages`
  unfoldable pub translate_messages : List RoleMessage → Result (Option Text × List (Turn J))
  unfolding translate_from system_prompt and_then said
  translate_messages ms =
      and_then (λ (out : List Text × List (Turn J)). returned (system_prompt out.0, out.1))
        (translate_from (map said ms) [] [])
