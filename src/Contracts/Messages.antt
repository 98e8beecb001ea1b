-- ===== src/Contracts/Messages.antt =====
-- The messages of a request by role: src/vortex_ai_gateway/contracts/messages.py.
use vortex_ai_gateway.Base.{Text, Option, List}
use vortex_ai_gateway.Contracts.Chat.{ContentPart}

-- `TextOnlyContent`: one text or text parts.
pub data TextContent : Type 0 where
  one_text : Text → TextContent
  text_parts : List Text → TextContent

pub data UserContent : Type 0 where
  user_text : Text → UserContent
  user_parts : List ContentPart → UserContent

-- `ToolCall` with its `FunctionCall`: the arguments are a JSON text.
pub record ToolCall : Type 0 where
  pub id : Text
  pub name : Text
  pub arguments : Text

-- `SystemMessage`, `DeveloperMessage`, `UserMessage`, `AssistantMessage` with its content, refusal and
-- calls, and `ToolMessage` with the ID of its call.
pub data RoleMessage : Type 0 where
  system_message : TextContent → RoleMessage
  developer_message : TextContent → RoleMessage
  user_message : UserContent → RoleMessage
  assistant_message : Option TextContent → Option Text → List ToolCall → RoleMessage
  tool_message : TextContent → Text → RoleMessage
