-- ===== src/Providers/Anthropic/Tests.antt =====
-- The theorems on the adapter of Anthropic, with objects as their texts.
use vortex_ai_gateway.Base.{
  ◌↔◌, ◌≢◌, ◌⊎◌, pos, negsuc, ℕ, ◌≡◌, refl, Text, codes, true, false, Option, none, some, List, [],
  ◌∷◌, length, map,
}
use vortex_ai_gateway.Contracts.Chat.{text_part, image_part}
use vortex_ai_gateway.Contracts.Messages.{
  one_text, text_parts, user_text, user_parts, RoleMessage, system_message, developer_message,
  user_message, assistant_message, tool_message,
}
use vortex_ai_gateway.Contracts.Json.{Json, number, text, object, end_fields, field}
use vortex_ai_gateway.Providers.Errors.{returned, other_exception}
use vortex_ai_gateway.Providers.Anthropic.Turns
use vortex_ai_gateway.Providers.Anthropic.Turns.{
  Loaded, Turn, text_block, image_block, tool_use, tool_result, base64_source, user, assistant,
  said, translate_messages,
}
use vortex_ai_gateway.Providers.Anthropic.Alternate.{
  alternating, turns_of, unbroken, prompted, all_said, translate_messages-alternating,
}
use vortex_ai_gateway.Providers.Anthropic.Parameters.{
  Parameters, text_format, unsupported, first_offending, wants_structure, refused_parameter,
  reject_unsupported, reject_unsupported-none_iff,
}
use vortex_ai_gateway.Providers.Anthropic.Stream.{started}
use vortex_ai_gateway.Providers.Anthropic.Rounds.{stream_from}
use vortex_ai_gateway.Providers.Anthropic.Steps.{starts, index_started}
use vortex_ai_gateway.Providers.Anthropic.Ordinals.{count_from, fresh, stream_from-ordinals}

abbrev loads : Text → Loaded Text
loads t = Turns.object t

abbrev talk : List RoleMessage
talk =
    system_message (one_text (codes "Be kind."))
    ∷ user_message (
        user_parts (text_part (codes "What?") ∷ image_part (codes "data:image/png;base64,AA") ∷ []))
    ∷ assistant_message none none
        (record { id = codes "c1"; name = codes "find"; arguments = [] } ∷ [])
    ∷ tool_message (one_text (codes "a cat")) (codes "c1")
    ∷ user_message (user_text (codes "Sure?"))
    ∷ assistant_message (some (text_parts [])) none []
    ∷ developer_message (one_text (codes "Be brief."))
    ∷ []

-- The tool's result and the user's words are one turn, and the empty turn is dropped.
talk_run :
    translate_messages Text (codes "anthropic") loads (codes "{}") talk
    ≡ returned (
      some (codes "Be kind.\n\nBe brief."),
      record {
        role = user;
        content =
            text_block (codes "What?")
            ∷ image_block (base64_source (codes "image/png") (codes "AA"))
            ∷ [];
      }
          ∷ record {
            role = assistant;
            content = tool_use (codes "c1") (codes "find") (codes "{}") ∷ [];
          }
          ∷ record {
            role = user;
            content = tool_result (codes "c1") (codes "a cat") ∷ text_block (codes "Sure?") ∷ [];
          }
          ∷ [],
    )
unfolding translate_messages
talk_run = refl

translate_messages-alternating_example :
    let out = translate_messages Text (codes "anthropic") loads (codes "{}") talk in
    (alternating none (turns_of Text (codes "anthropic") loads (codes "{}") out) ≡ true)
    × (unbroken Text (codes "anthropic") loads (codes "{}") out
        ≡ prompted Text (codes "anthropic") loads (codes "{}") (
            all_said Text
              (codes "anthropic")
              loads
              (codes "{}")
              (map (said Text (codes "anthropic") loads (codes "{}")) talk)))
translate_messages-alternating_example =
    translate_messages-alternating Text (codes "anthropic") loads (codes "{}") talk

abbrev str : Json → Text
str (text t) = t
str _ = []

abbrev block_start : ℕ → Json → Option Json
block_start k block = some (
    object (
      field (codes "type") (text (codes "content_block_start"))
        (field (codes "index") (number (pos k)) (field (codes "content_block") block end_fields))))

abbrev tool : Text → Json
tool id = object (
    field (codes "type") (text (codes "tool_use"))
      (field (codes "id") (text id) (field (codes "name") (text (codes "find")) end_fields)))

-- A text block stands between the two calls, and the stream ends with a payload that is no JSON.
abbrev two_tools : List (Option Json)
two_tools =
    block_start 1 (tool (codes "c1"))
    ∷ block_start 2 (object (field (codes "text") (text (codes "so")) end_fields))
    ∷ block_start 3 (tool (codes "c2"))
    ∷ none
    ∷ []

two_tools_run :
    starts (stream_from (codes "anthropic") str false (started (codes "m")) two_tools).0
    ≡ 0 ∷ 1 ∷ []
unfolding starts stream_from started
two_tools_run = refl

stream_from-ordinals_example :
    let ordinals =
      starts (stream_from (codes "anthropic") str false (started (codes "m")) two_tools).0 in
    ordinals ≡ count_from 0 (length ordinals)
unfolding fresh index_started
stream_from-ordinals_example =
    stream_from-ordinals (codes "anthropic") str false (codes "m") two_tools refl

-- A negative count is reported, and the stream ends well but for its usage.
abbrev negative_count : List (Option Json)
negative_count =
    some (
      object (
        field (codes "type") (text (codes "message_start")) (
          field (codes "message")
            (object (
              field (codes "usage")
                (object (field (codes "input_tokens") (number (negsuc 0)) end_fields)) end_fields))
            end_fields)))
    ∷ some (object (field (codes "type") (text (codes "message_stop")) end_fields))
    ∷ []

-- The two chunks are sent, and then the usage is refused, if it is wanted.
negative_count_run :
    let sent = stream_from (codes "anthropic") str true (started (codes "m")) negative_count in
    (length sent.0 ≡ 2) × (sent.1 ≡ some (other_exception (codes "ValidationError")))
unfolding stream_from started
negative_count_run = (refl, refl)

unwanted_count_run :
    (stream_from (codes "anthropic") str false (started (codes "m")) negative_count).1 ≡ none
unfolding stream_from started
unwanted_count_run = refl

-- A request with a seed that asks for text.
abbrev seeded : Parameters
seeded = record {
  n = 1;
  seed = some (negsuc 6);
  logprobs = false;
  top_logprobs = none;
  logit_bias = none;
  frequency_penalty = pos 0;
  presence_penalty = pos 0;
  prediction = none;
  service_tier = none;
  store = some false;
  response_format = some text_format;
}

seed_run : refused_parameter seeded ≡ some (codes "seed")
unfolding refused_parameter first_offending unsupported
seed_run = refl

-- Without the seed it is let through.
seedless_run : refused_parameter (record seeded { seed = none }) ≡ none
unfolding refused_parameter first_offending unsupported wants_structure
seedless_run = refl

reject_unsupported-none_iff_example : (reject_unsupported (codes "anthropic") seeded ≡ none) ↔ (
    (seeded.n ≡ 1)
    × (seeded.seed ≡ none)
    × (seeded.logprobs ≡ false)
    × (seeded.top_logprobs ≡ none)
    × (seeded.logit_bias ≡ none)
    × (seeded.frequency_penalty ≡ pos 0)
    × (seeded.presence_penalty ≡ pos 0)
    × (seeded.prediction ≡ none)
    × (seeded.service_tier ≡ none)
    × (seeded.store ≢ some true)
    × ((seeded.response_format ≡ none) ⊎ (seeded.response_format ≡ some text_format)))
reject_unsupported-none_iff_example = reject_unsupported-none_iff (codes "anthropic") seeded
