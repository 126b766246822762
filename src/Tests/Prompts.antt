-- ===== src/Tests/Prompts.antt =====
-- A prompt that is rendered to ids, and a completion made into a message (shard/engines/kimi_k3/k3_tools.py).
use shard_glm_image.Base.{
  ℕ, ◌==◌, ◌<◌, ◌≡◌, refl, Bool, true, false, if◌then◌else◌, none, some, List, [], ◌∷◌, arith,
  String, ◌%◌,
}
use shard_glm_image.Base.Sort.{insert_by, sort_by}
use shard_glm_image.Base.Text.{Text, codes, decimal, starts_with, is_blank}
use shard_glm_image.Chat.Markers.{Tokens}
use shard_glm_image.Chat.Splitter.{same_text}
use shard_glm_image.Chat.Completion.{Python, Parsed}
use shard_glm_image.Chat.Prompt.{
  ok, refused, out_of_vocab, unrenderable, Entry, dict, is_renderable_role, is_renderable, places,
  reject_unrenderable, keeps_thinking, check_thinking_history, Segment, Request, Renderer,
  Tokenizer, check_effort, check_history, render_segments,
}
use shard_glm_image.Chat.Prompt.Ids.{
  encode_segment, assert_segment_boundary, vocab_size_of, out_of_range, refuse_ids, check_ids,
  encode_segments, render_ids, unaddressable, audit_tokenizer,
}
use shard_glm_image.Chat.Prompt.Guarded.{picked, structure, render_ids-control}
use shard_glm_image.Chat.Message.{to_openai_message, numbered_calls, replayed}

program : Unit {0}
unfolding starts_with is_blank same_text is_renderable_role is_renderable places reject_unrenderable
    keeps_thinking check_thinking_history check_effort check_history render_segments encode_segment
    assert_segment_boundary vocab_size_of out_of_range refuse_ids check_ids encode_segments
    render_ids unaddressable audit_tokenizer insert_by sort_by numbered_calls to_openai_message
program = tt

abbrev tokens : Tokens
tokens = record {
  open_token = codes "<|";
  close_token = codes "/|";
  sep_token = codes "|>";
  end_of_msg_token = codes ".";
}

abbrev ascii : Text → List ℕ
ascii [] = []
ascii (c ∷ t) = c % 128 ∷ ascii t

-- Characters are ids below 128; the marker is one id, 130, where markers are allowed.
abbrev piece : Text → Bool → List ℕ
unfolding starts_with
piece text false = ascii text
piece text true = if starts_with text (codes "<|") then 130 ∷ [] else ascii text

abbrev tokenizer : Tokenizer
tokenizer = record {
  encode_text_piece = some piece;
  encoder = none;
  vocab_size = some 131;
  added_vocab = (codes "x", 131) ∷ (codes "y", 5) ∷ [];
}

-- Each message after a marker, its role as its text.
abbrev segments_of : List (Entry Text) → List Segment
segments_of [] = []
segments_of (dict m ∷ ms) =
    record { text = codes "<|"; allow_special = true }
    ∷ record { text = m.rest; allow_special = false }
    ∷ segments_of ms
segments_of (_ ∷ ms) = segments_of ms

abbrev renderer : Renderer Text
renderer = record {
  valid_effort = λ e. true;
  build_chat_segments = λ ms thinking e. some (segments_of ms);
  is_space = λ c. c == b' ';
}

abbrev said : String → String → Entry Text
said role text = dict (record {
  role = some (codes role);
  reasoning_content = none;
  reasoning = none;
  rest = codes text;
})

abbrev request : List (Entry Text) → Request Text
request ms = record {
  messages = ms;
  thinking = true;
  reasoning_effort = none;
  strict_thinking_history = false;
  continue_final_message = false;
}

-- A message that spells out the marker.
abbrev hello : Request Text
hello = request (said "user" "<|a" ∷ [])

abbrev hello_ids : List ℕ
hello_ids = 130 ∷ 60 ∷ 124 ∷ 97 ∷ []

rendered : render_ids renderer tokens tokenizer hello none ≡ ok hello_ids
unfolding program
rendered = refl

-- A role that the renderer does not know.
dropped :
    render_ids renderer tokens tokenizer
      (request (said "user" "a" ∷ said "developer" "b" ∷ []))
      none
    ≡ refused (unrenderable (1 ∷ []))
unfolding program
dropped = refl

-- A bound that the marker's id does not meet.
outside :
    render_ids renderer tokens tokenizer hello (some 100)
    ≡ refused (out_of_vocab (124 ∷ 130 ∷ []) false)
unfolding program
outside = refl

audited : audit_tokenizer tokenizer none ≡ ok ((codes "x", 131) ∷ [])
unfolding program
audited = refl

abbrev is_marker : ℕ → Bool
is_marker i = i == 130

no_marker : (text : Text) → picked is_marker (ascii text) ≡ []
no_marker [] = refl
no_marker (c ∷ t) = let e : (c % 128 == 130) ≡ false = ground (arith, small c) in rw e (no_marker t)
  where
    small : (c : ℕ) → c % 128 < 128
    small c = omega arith

no_control : (text : Text) → picked is_marker (piece text false) ≡ []
unfolding piece
no_control text = no_marker text

render_ids-control_example :
    (segments : List Segment) × (renderer.build_chat_segments hello.messages hello.thinking
        hello.reasoning_effort
      ≡ some segments)
    × (picked is_marker hello_ids ≡ picked is_marker (structure piece segments))
render_ids-control_example =
    render_ids-control tokenizer piece refl is_marker no_control renderer tokens hello none
      hello_ids rendered

-- A completion without reasoning.
abbrev unthought : Parsed Text
unthought = record { reasoning_content = none; content = codes "Good"; tool_calls = [] }

abbrev python : Python Text
python = record {
  is_word = λ c. true;
  is_space = λ c. c == b' ';
  loads = λ t. none;
  dumps = λ members. [];
  members = λ t. none;
  string = λ t. t;
}

flagged :
    check_thinking_history python.is_space
      (replayed {Rest = Text} (to_openai_message python unthought 0).0 [] ∷ [])
    ≡ 0 ∷ []
unfolding program
flagged = refl

numbered : ◌≡◌ {A = Text} (decimal 120) (codes "120")
unfolding decimal
numbered = refl
