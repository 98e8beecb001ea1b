-- ===== src/Contracts/Chat.antt =====
-- Requests, answers and stream chunks of src/vortex_ai_gateway/contracts/chat.py, messages.py,
-- options.py and usage.py. `sampling` and `body` stand for the fields that the gateway only hands
-- on: all that decides the answer besides the fields named here, and the generated text.
use vortex_ai_gateway.Base.{ℕ, Text, Bool, Option, none, some, List}

-- A part of a message: text, or an image or a sound with its payload.
pub data ContentPart : Type 0 where
  text_part image_part audio_part : Text → ContentPart

pub data Content : Type 0 where
  absent : Content
  plain : Text → Content
  parts : List ContentPart → Content

pub record Message : Type 0 where
  pub role : Text
  pub content : Content

pub record StreamOptions : Type 0 where
  pub include_usage : Bool

pub record ChatCompletionRequest : Type 0 where
  pub model : Text
  pub messages : List Message
  pub n : ℕ
  pub max_completion_tokens : Option ℕ
  pub max_tokens : Option ℕ
  pub stream : Bool
  pub stream_options : Option StreamOptions
  pub user : Option Text
  pub metadata : Option Text
  pub sampling : Text

abbrev pub effective_max_tokens : ChatCompletionRequest → Option ℕ
effective_max_tokens r = elim r.max_completion_tokens [ some n ↦ some n | none ↦ r.max_tokens ]

pub record TokenUsage : Type 0 where
  pub prompt_tokens : ℕ
  pub completion_tokens : ℕ
  pub total_tokens : ℕ

pub record GatewayMetadata : Type 0 where
  pub provider : Text
  pub upstream_model : Text

pub record ChatCompletionResponse : Type 0 where
  pub model : Text
  pub body : Text
  pub usage : Option TokenUsage
  pub vortex : Option GatewayMetadata

pub record ChunkChoice : Type 0 where
  pub delta : Text
  pub finish_reason : Option Text

pub record ChatCompletionChunk : Type 0 where
  pub choices : List ChunkChoice
  pub usage : Option TokenUsage
  pub vortex : Option GatewayMetadata
