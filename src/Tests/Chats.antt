-- ===== src/Tests/Chats.antt =====
-- Completions of the engine, whole and in pieces, and prompts (shard/engines/kimi_k3/k3_tools.py).
use shard_glm_image.Base.{◌==◌, ◌≡◌, refl, ◌&&◌, leb, true, not, none, some, List, [], ◌∷◌, arith}
use shard_glm_image.Base.Text.{Text, codes, starts_with, find, is_blank}
use shard_glm_image.Chat.Markers.{
  Tokens, markers_of, longest, sooner, earliest_from, earliest, closer, first_from, first,
  any_starts, trim_from, trim_partial, removeprefix,
}
use shard_glm_image.Chat.Markers.Scan.{hit_at, scan}
use shard_glm_image.Chat.Markers.Held.{init}
use shard_glm_image.Chat.Markers.Single.{Apart}
use shard_glm_image.Chat.Splitter.{
  new_splitter, same_text, hold, safe, in_content, after_gap, in_between, in_reasoning, in_phase,
  resolve, feed, last_of_phase, end, stream,
}
use shard_glm_image.Chat.Splitter.Phases.{IsClear}
use shard_glm_image.Chat.Splitter.Chunks.{concat, stream-concat}
use shard_glm_image.Chat.Completion.{
  Python, Call, coerce, keep_argument, collect_arguments, typed_arguments, whole_json,
  json_or_typed, call_arguments, keep_call, calls_of, tool_calls_in, think_is_open, open_thought,
  thought_of, opened_content, closed_content, parse_completion,
}
use shard_glm_image.Chat.Completion.Agrees.{stream-parse_completion}
use shard_glm_image.Chat.Completion.Answers.{or_nothing, ToolsLast}
use shard_glm_image.Chat.Completion.Attrs.{
  put, item, replace_from, replace, quote, ampersand, unescape_attr, starts_name, in_name, name_run,
  value_run, equals_quote, attr_at, attrs_from, attrs_of,
}
use shard_glm_image.Chat.Completion.Attrs.Escaped.{unescape_attr-replace}
use shard_glm_image.Chat.Completion.Blocks.{
  Block, tag_of, closed_at, opened_at, blocks_from, blocks,
}

program : Unit {0}
unfolding starts_with find is_blank markers_of longest sooner earliest_from earliest closer
    first_from first any_starts trim_from trim_partial removeprefix hit_at scan init new_splitter
    same_text hold safe in_content after_gap in_between in_reasoning in_phase resolve feed
    last_of_phase end stream coerce keep_argument collect_arguments typed_arguments whole_json
    json_or_typed call_arguments keep_call calls_of tool_calls_in think_is_open open_thought
    thought_of opened_content closed_content parse_completion put item replace_from replace
    unescape_attr starts_name in_name name_run value_run equals_quote attr_at attrs_from attrs_of
    closed_at opened_at blocks_from blocks tag_of
program = tt

-- The checkpoint's control tokens.
abbrev tokens : Tokens
tokens = record {
  open_token = codes "<|open|>";
  close_token = codes "<|close|>";
  sep_token = codes "<|sep|>";
  end_of_msg_token = codes "<|end_of_msg|>";
}

-- JSON as text, nothing of which is read.
abbrev plain : Python Text
plain = record {
  is_word = λ c. leb b'0' c && leb c b'z' && not (c == b'=');
  is_space = λ c. c == b' ';
  loads = λ t. none;
  dumps = λ members. [];
  members = λ t. none;
  string = λ t. t;
}

clear : IsClear (markers_of tokens)
unfolding program
clear = record {
  in_thought = (refl, tt);
  in_gap = (refl, (refl, tt));
  in_answer = (refl, (refl, (refl, (refl, tt))));
}

abbrev pieces : List Text
pieces =
    codes "hm<|close|>thi"
    ∷ codes "nk<|sep|><|open|>response<|sep|>Good<|cl"
    ∷ codes "ose|>response<|sep|><|end_of_msg|>"
    ∷ []

both :
    ◌≡◌ {A = Text × Text}
      (stream (markers_of tokens) (new_splitter true) pieces)
      (codes "hm", codes "Good")
unfolding program
both = refl

stream-concat_example :
    stream (markers_of tokens) (new_splitter true) pieces
    ≡ stream (markers_of tokens) (new_splitter true) (concat pieces ∷ [])
stream-concat_example = stream-concat (markers_of tokens) clear true pieces

apart : Apart (markers_of tokens).think_begin (markers_of tokens).think_end
unfolding program
apart = ground arith

-- Behind the thought, the answer comes first.
answered :
    ToolsLast (markers_of tokens) ((thought_of (markers_of tokens) (concat pieces) (some true)).2)
unfolding program
answered i h = absurd (cc h)

stream-parse_completion_example : stream (markers_of tokens) (new_splitter true) pieces ≡ (
  or_nothing (parse_completion plain tokens (concat pieces) (some true)).reasoning_content,
  (parse_completion plain tokens (concat pieces) (some true)).content,
)
stream-parse_completion_example = stream-parse_completion plain tokens pieces clear apart answered

-- A tool block before the answer: the splitter sends no answer, the parse finds one.
abbrev early_tools : Text
early_tools = codes "hm<|close|>think<|sep|><|open|>tools<|sep|><|open|>response<|sep|>Good"

nothing_sent :
    ◌≡◌ {A = Text × Text}
      (stream (markers_of tokens) (new_splitter true) (early_tools ∷ []))
      (codes "hm", [])
unfolding program
nothing_sent = refl

answer_parsed :
    ◌≡◌ {A = Text} (parse_completion plain tokens early_tools (some true)).content (codes "Good")
unfolding program
answer_parsed = refl

-- A block that is opened again before it is closed, and a whole one.
abbrev called : Text
called = codes "<|open|>call a=\"1\"<|sep|>x<|open|>call b=\"2\"<|sep|>y<|close|>call<|sep|>z"

blocks_called :
    ◌≡◌ {A = List Block}
      (blocks tokens (codes "call") called)
      (record { attrs = codes " b=\"2\""; body = codes "y"; start = 26; end = 72 } ∷ [])
unfolding program
blocks_called = refl

unescape_attr-replace_example :
    unescape_attr (
      replace
        (replace (codes "a&quot;\"") (ampersand ∷ []) (codes "&amp;"))
        (quote ∷ [])
        (codes "&quot;"))
    ≡ codes "a&quot;\""
unescape_attr-replace_example = unescape_attr-replace (codes "a&quot;\"")

attrs_called :
    ◌≡◌ {A = List (Text × Text)}
      (attrs_of plain.is_word (codes " tool=\"a&amp;b\" index=\"1\""))
      ((codes "tool", codes "a&b") ∷ (codes "index", codes "1") ∷ [])
unfolding program
attrs_called = refl

-- A call with an argument.
tool_called :
    ◌≡◌ {A = List (Call Text)}
      (parse_completion plain tokens
        (codes
          "<|open|>tools<|sep|><|open|>call tool=\"f\"<|sep|><|open|>argument key=\"q\"<|sep|>v<|close|>argument<|sep|><|close|>call<|sep|>")
        none).tool_calls
      (record { name = codes "f"; arguments = (codes "q", codes "v") ∷ []; json = none } ∷ [])
unfolding program
tool_called = refl
