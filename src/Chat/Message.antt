-- ===== src/Chat/Message.antt =====
-- shard/engines/kimi_k3/k3_tools.py: what a client gets of a parsed completion, `to_openai_message`, and the completion
-- that a gateway without a model makes up, `mock_completion`.
use shard_glm_image.Base.{
  ℕ, suc, Bool, Option, none, some, List, [], ◌∷◌, ◌++◌, if◌then◌else◌, take,
}
use shard_glm_image.Base.Text.{Text, codes, decimal}
use shard_glm_image.Chat.Markers.{Tokens, markers_of}
use shard_glm_image.Chat.Completion.{Python, Call, Parsed, or_none}
use shard_glm_image.Chat.Completion.Answers.{or_nothing}
use shard_glm_image.Chat.Prompt.{Entry, dict}

pub record ToolCall : Type 0 where
  pub id : Text
  pub name : Text
  pub arguments : Text

-- An assistant's message, `type` and `role` being the same in all of them.
pub record OpenaiMessage : Type 0 where
  pub content : Option Text
  pub reasoning_content : Text
  pub tool_calls : Option (List ToolCall)

pub data FinishReason : Type 0 where
  tool_calls stop : FinishReason

module _ {Json : Type 0} (py : Python Json) where
  -- `tc["json"] if tc.get("json") is not None else json.dumps(..)`
  abbrev pub arguments_text : Call Json → Text
  arguments_text call = elim call.json [ some raw ↦ raw | none ↦ py.dumps call.arguments ]

  -- The calls numbered from `i` on.
  unfoldable pub numbered_calls : ℕ → List (Call Json) → List ToolCall
  unfolding decimal
  numbered_calls i [] = []
  numbered_calls i (call ∷ calls) =
      record { id = codes "call_" ++ decimal i; name = call.name; arguments = arguments_text call }
      ∷ numbered_calls (suc i) calls

  abbrev some_calls : List ToolCall → Option (List ToolCall)
  some_calls [] = none
  some_calls (call ∷ calls) = some (call ∷ calls)

  abbrev finish_of : List ToolCall → FinishReason
  finish_of [] = stop
  finish_of (call ∷ calls) = tool_calls

  unfoldable pub to_openai_message : Parsed Json → ℕ → OpenaiMessage × FinishReason
  unfolding numbered_calls
  to_openai_message parsed index_base =
      let calls = numbered_calls index_base parsed.tool_calls in
      (
        record {
          content = or_none parsed.content;
          reasoning_content = or_nothing parsed.reasoning_content;
          tool_calls = some_calls calls;
        },
        finish_of calls,
      )

-- `mock_completion`, with the names of the tools and the vendored `_escape_attr_value`.
unfoldable pub mock_completion : Tokens → (Text → Text) → Text → List Text → Bool → Text
unfolding markers_of
mock_completion t escape_attr_value last tools reasoning =
    let k = markers_of t in
    let asked = codes "The user asked: " ++ (take 40 last ++ (codes "." ++ k.think_end)) in
    let head = if reasoning then asked else [] in
    elim tools [
      | [] ↦
          head
          ++ k.response_begin
          ++ codes "Here is a concise answer to: "
          ++ take 60 last
          ++ codes "."
          ++ k.response_end
          ++ k.message_end
          ++ k.end_of_msg
      | name ∷ names ↦
          head
          ++ k.response_begin
          ++ codes "Let me look that up."
          ++ k.response_end
          ++ k.toolcall_begin
          ++ t.open_token
          ++ codes "call tool=\""
          ++ escape_attr_value name
          ++ codes "\" index=\"1\""
          ++ t.sep_token
          ++ t.open_token
          ++ codes "argument key=\"query\" type=\"string\""
          ++ t.sep_token
          ++ take 30 last
          ++ t.close_token
          ++ codes "argument"
          ++ t.sep_token
          ++ t.close_token
          ++ codes "call"
          ++ t.sep_token
          ++ t.close_token
          ++ codes "tools"
          ++ t.sep_token
          ++ k.message_end
          ++ k.end_of_msg
    ]

-- A client's message sent back as it came.
abbrev pub replayed : {Rest : Type 0} → OpenaiMessage → Rest → Entry Rest
replayed m rest = dict (record {
  role = some (codes "assistant");
  reasoning_content = some m.reasoning_content;
  reasoning = none;
  rest = rest;
})
