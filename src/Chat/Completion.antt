-- ===== src/Chat/Completion.antt =====
-- shard/engines/kimi_k3/k3_tools.py: what a completion says, `parse_completion` and what it calls. JSON values and
-- the classes of characters that Python knows are parameters.
pub mod Attrs
pub mod Answers
pub mod Agrees
pub mod Blocks
use shard_glm_image.Base.{
  ℕ, zero, suc, ◌+◌, ◌==◌, Bool, true, false, not, ◌&&◌, ◌||◌, Option, none, some, List, [], ◌∷◌,
  ◌++◌, ltb, if◌then◌else◌, length, take, drop,
}
use shard_glm_image.Base.Text.{Text, codes, is_blank, starts_with, find}
use shard_glm_image.Chat.Markers.{
  Tokens, Markers, markers_of, content_end, trimmed, earliest, trim_partial, removeprefix,
}
use shard_glm_image.Chat.Splitter.{same_text}
use shard_glm_image.Chat.Completion.Attrs.{attrs_of, item, put}
use shard_glm_image.Chat.Completion.Blocks.{Block, blocks}

-- `json`, and the classes of characters of `re` and `str`.
pub record Python (Json : Type 0) : Type 0 where
  pub is_word : ℕ → Bool
  pub is_space : ℕ → Bool
  pub loads : Text → Option Json
  pub dumps : List (Text × Json) → Text
  pub members : Json → Option (List (Text × Json))
  pub string : Text → Json

-- `x or None`
abbrev pub or_none : Text → Option Text
or_none [] = none
or_none (c ∷ t) = some (c ∷ t)

abbrev pub is_some : Option ℕ → Bool
is_some none = false
is_some (some i) = true

pub record Call (Json : Type 0) : Type 0 where
  pub name : Text
  pub arguments : List (Text × Json)
  pub json : Option Text

pub record Parsed (Json : Type 0) : Type 0 where
  pub reasoning_content : Option Text
  pub content : Text
  pub tool_calls : List (Call Json)

module _ {Json : Type 0} (py : Python Json) (tokens : Tokens) where
  -- `_coerce`
  unfoldable pub coerce : Text → Text → Json
  unfolding same_text
  coerce raw type =
      if same_text type (codes "string")
      then py.string raw
      else elim (py.loads raw) [ none ↦ py.string raw | some v ↦ v ]

  abbrev pub or_string : Option Text → Text
  or_string none = codes "string"
  or_string (some type) = type

  -- `if "key" in a: args[a["key"]] = ..`
  unfoldable pub keep_argument :
      Option Text → Text → List (Text × Text) → List (Text × Json) → List (Text × Json)
  unfolding coerce put item
  keep_argument none value attrs args = args
  keep_argument (some key) value attrs args =
      put args key (coerce value (or_string (item attrs (codes "type"))))

  -- The loop over the argument blocks.
  unfoldable pub collect_arguments : List Block → List (Text × Json) → List (Text × Json)
  unfolding keep_argument item attrs_of
  collect_arguments [] args = args
  collect_arguments (b ∷ bs) args =
      let attrs = attrs_of py.is_word b.attrs in
      collect_arguments bs (keep_argument (item attrs (codes "key")) b.body attrs args)

  -- The arguments and the raw JSON of a call.
  abbrev pub Arguments : Type 0
  Arguments = List (Text × Json) × Option Text

  unfoldable pub typed_arguments : Text → Arguments
  unfolding collect_arguments blocks
  typed_arguments body = (collect_arguments (blocks tokens (codes "argument") body) [], none)

  abbrev pub or_empty : Option (List (Text × Json)) → List (Text × Json)
  or_empty none = []
  or_empty (some members) = members

  -- A JSON block that is the whole body.
  unfoldable pub whole_json : Text → Arguments
  whole_json raw = elim (py.loads raw) [
    | none ↦ ([], some raw)
    | some parsed ↦ (or_empty (py.members parsed), none)
  ]

  -- The loop over the JSON blocks leaves in its first round.
  unfoldable pub json_or_typed : List Block → Text → Arguments
  unfolding typed_arguments whole_json is_blank
  json_or_typed [] body = typed_arguments body
  json_or_typed (b ∷ bs) body =
      if not (is_blank py.is_space (take b.start body))
        || not (is_blank py.is_space (drop b.end body))
      then typed_arguments body
      else whole_json b.body

  unfoldable pub call_arguments : Text → Arguments
  unfolding json_or_typed blocks
  call_arguments body = json_or_typed (blocks tokens (codes "json") body) body

  -- `if name: tool_calls.append(..)`
  unfoldable pub keep_call : Option Text → Text → List (Call Json) → List (Call Json)
  unfolding call_arguments
  keep_call none body calls = calls
  keep_call (some []) body calls = calls
  keep_call (some (c ∷ name)) body calls =
      let (arguments, json) = call_arguments body in
      record { name = c ∷ name; arguments = arguments; json = json } ∷ calls

  unfoldable pub calls_of : List Block → List (Call Json)
  unfolding keep_call item attrs_of
  calls_of [] = []
  calls_of (b ∷ bs) =
      keep_call (item (attrs_of py.is_word b.attrs) (codes "tool")) b.body (calls_of bs)

  unfoldable pub tool_calls_in : Markers → Text → List (Call Json)
  unfolding find calls_of blocks
  tool_calls_in k tail = elim (find tail k.toolcall_begin) [
    | none ↦ []
    | some i ↦ calls_of (blocks tokens (codes "call") (drop i tail))
  ]

-- `_think_is_open`
unfoldable pub think_is_open : Markers → Text → Option Bool → Bool
unfolding find
think_is_open k body (some reasoning) = reasoning
think_is_open k body none = not (
    is_some (find body k.response_begin)
    || (is_some (find body k.response_end) || is_some (find body k.toolcall_begin)))

-- `reasoning_content`, whether the think channel was closed, and the text behind it.
abbrev pub Thought : Type 0
Thought = Option Text × Bool × Text

unfoldable pub open_thought : Markers → Text → Bool → Thought
unfolding trim_partial removeprefix
open_thought k text true =
    (or_none (trim_partial (trimmed k) (removeprefix text k.think_begin)), false, [])
open_thought k text false = (none, false, text)

unfoldable pub thought_of : Markers → Text → Option Bool → Thought
unfolding find open_thought think_is_open removeprefix
thought_of k text reasoning = elim (find text k.think_end) [
  | none ↦ open_thought k text (think_is_open k text reasoning)
  | some i ↦ (
    or_none (removeprefix (take i text) k.think_begin),
    true,
    drop (length k.think_end) (drop i text),
  )
]

-- Where the answer starts.
unfoldable pub opened_content : Markers → Bool → Text → Text
unfolding find
opened_content k closed tail = elim (find tail k.response_begin) [
  | none ↦ if closed then [] else tail
  | some i ↦ drop (i + length k.response_begin) tail
]

-- Where it ends.
unfoldable pub closed_content : Markers → Text → Text
unfolding earliest trim_partial
closed_content k content = elim (earliest content (content_end k)) [
  | none ↦ trim_partial (trimmed k) content
  | some j ↦ take j content
]

unfoldable pub parse_completion :
    {Json : Type 0} → Python Json → Tokens → Text → Option Bool → Parsed Json
unfolding thought_of closed_content opened_content tool_calls_in markers_of
parse_completion py tokens text reasoning =
    let k = markers_of tokens in
    let (reasoning_content, closed, tail) = thought_of k text reasoning in
    record {
      reasoning_content = reasoning_content;
      content = closed_content k (opened_content k closed tail);
      tool_calls = tool_calls_in py tokens k tail;
    }
