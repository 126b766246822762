-- ===== src/Chat/Prompt.antt =====
-- shard/engines/kimi_k3/k3_tools.py, the render half: from messages to the ids of a prompt, and what is refused on the
-- way. The vendored renderer and the tokenizer are parameters. A role is its text, `none` for any other value; an id is
-- a natural number, so that `0 <= i` holds of it.
pub mod Ids
pub mod Checked
pub mod Guarded
use shard_glm_image.Base.{
  ℕ, zero, suc, ◌+◌, ◌==◌, Bool, true, false, not, ◌||◌, Option, none, some, List, [], ◌∷◌, ◌++◌,
  ltb, leb, if◌then◌else◌, length, take, map,
}
use shard_glm_image.Base.Sort.{sort_by}
use shard_glm_image.Base.Text.{Text, codes, is_blank}
use shard_glm_image.Chat.Markers.{Tokens}
use shard_glm_image.Chat.Splitter.{same_text}

-- The errors that a request meets.
pub data Refusal : Type 0 where
  -- `NotImplementedError`: `continue_final_message`
  prefill : Refusal
  -- `ValueError`: `reasoning_effort`
  effort : Text → Refusal
  -- `ValueError`: the messages that would be dropped
  unrenderable : List ℕ → Refusal
  -- `ValueError`: the messages without their thinking
  thoughtless : List ℕ → Refusal
  -- What the renderer itself raises.
  reference : Refusal
  -- `ValueError`: no `vocab_size`
  unbounded : Refusal
  -- `TypeError`: `allow_special_tokens` is ignored
  ignores_special : Refusal
  -- `TypeError`: no encoder that takes `allow_special_tokens`
  no_encoder : Refusal
  -- `K3VocabError`: the first ids that are out of range, and whether there are more
  out_of_vocab : List ℕ → Bool → Refusal

pub data Outcome (A : Type 0) : Type 0 where
  ok : A → Outcome A
  refused : Refusal → Outcome A

infixl 5 ◌>>=◌ ◌>>◌
abbrev pub ◌>>=◌ : {A B : Type 0} → Outcome A → (A → Outcome B) → Outcome B
ok a >>= f = f a
refused e >>= f = refused e

abbrev pub ◌>>◌ : {B : Type 0} → Outcome Unit → Outcome B → Outcome B
m >> k = m >>= λ _. k

-- A message, `rest` being what only the renderer reads.
pub record Message (Rest : Type 0) : Type 0 where
  pub role : Option Text
  pub reasoning_content : Option Text
  pub reasoning : Option Text
  pub rest : Rest

-- An entry of `messages`: a dictionary, a list (of a batched conversation) or anything else.
pub data Entry (Rest : Type 0) : Type 0 where
  dict : Message Rest → Entry Rest
  nested : Entry Rest
  other : Entry Rest

-- `RENDERABLE_ROLES`
unfoldable pub is_renderable_role : Option Text → Bool
unfolding same_text
is_renderable_role none = false
is_renderable_role (some role) =
    same_text role (codes "user")
    || (same_text role (codes "system")
        || (same_text role (codes "assistant") || same_text role (codes "tool")))

unfoldable pub is_renderable : {Rest : Type 0} → Entry Rest → Bool
unfolding is_renderable_role
is_renderable (dict m) = is_renderable_role m.role
is_renderable nested = false
is_renderable other = false

-- The places of the entries that fail a test, counted from `i`.
unfoldable pub places {ℓ} : {A : Type ℓ} → (A → Bool) → ℕ → List A → List ℕ
places is_good i [] = []
places is_good i (m ∷ ms) =
    if is_good m then places is_good (suc i) ms else i ∷ places is_good (suc i) ms

abbrev pub refuse_some : {A : Type 0} → (List ℕ → Refusal) → List ℕ → A → Outcome A
refuse_some why [] a = ok a
refuse_some why (i ∷ is) a = refused (why (i ∷ is))

abbrev pub renderable_list : {Rest : Type 0} → List (Entry Rest) → Outcome Unit
renderable_list ms = refuse_some unrenderable (places is_renderable 0 ms) tt

-- `_reject_unrenderable`
unfoldable pub reject_unrenderable : {Rest : Type 0} → List (Entry Rest) → Outcome Unit
unfolding places is_renderable
reject_unrenderable [] = ok tt
reject_unrenderable (nested ∷ ms) = ok tt
reject_unrenderable (dict m ∷ ms) = renderable_list (dict m ∷ ms)
reject_unrenderable (other ∷ ms) = renderable_list (other ∷ ms)

-- `m.get("reasoning_content") or m.get("reasoning") or ""`
abbrev pub thinking_of : {Rest : Type 0} → Message Rest → Text
thinking_of m = first_text m.reasoning_content (first_text m.reasoning [])
  where
    first_text : Option Text → Text → Text
    first_text none t = t
    first_text (some []) t = t
    first_text (some (c ∷ s)) t = c ∷ s

abbrev is_assistant : Option Text → Bool
unfolding same_text
is_assistant none = false
is_assistant (some role) = same_text role (codes "assistant")

-- Whether a message keeps the thinking history.
unfoldable pub keeps_thinking : {Rest : Type 0} → (ℕ → Bool) → Entry Rest → Bool
unfolding is_blank same_text
keeps_thinking is_space (dict m) =
    not (is_assistant m.role) || not (is_blank is_space (thinking_of m))
keeps_thinking is_space nested = true
keeps_thinking is_space other = true

unfoldable pub check_thinking_history : {Rest : Type 0} → (ℕ → Bool) → List (Entry Rest) → List ℕ
unfolding places keeps_thinking
check_thinking_history is_space ms = places (keeps_thinking is_space) 0 ms

-- What the renderer returns, and the arguments that only it reads.
pub record Segment : Type 0 where
  pub text : Text
  pub allow_special : Bool

pub record Request (Rest : Type 0) : Type 0 where
  pub messages : List (Entry Rest)
  pub thinking : Bool
  pub reasoning_effort : Option Text
  pub strict_thinking_history : Bool
  pub continue_final_message : Bool

-- The vendored renderer and its set of efforts, for the tools and the other arguments of a request.
pub record Renderer (Rest : Type 0) : Type 0 where
  pub valid_effort : Text → Bool
  pub build_chat_segments : List (Entry Rest) → Bool → Option Text → Option (List Segment)
  pub is_space : ℕ → Bool

-- An object's `encode`, and whether its signature has `allow_special_tokens`.
pub record Encoder : Type 0 where
  pub takes_allow_special : Bool
  pub encode : Text → Bool → List ℕ

pub record Tokenizer : Type 0 where
  pub encode_text_piece : Option (Text → Bool → List ℕ)
  pub encoder : Option Encoder
  pub vocab_size : Option ℕ
  pub added_vocab : List (Text × ℕ)

module _ {Rest : Type 0} (renderer : Renderer Rest) where
  unfoldable pub check_effort : Bool → Option Text → Outcome Unit
  check_effort true (some e) = if renderer.valid_effort e then ok tt else refused (effort e)
  check_effort true none = ok tt
  check_effort false e = ok tt

  unfoldable pub check_history : Bool → List (Entry Rest) → Outcome Unit
  unfolding check_thinking_history
  check_history false ms = ok tt
  check_history true ms = refuse_some thoughtless (check_thinking_history renderer.is_space ms) tt

  abbrev pub or_reference : Option (List Segment) → Outcome (List Segment)
  or_reference none = refused reference
  or_reference (some segments) = ok segments

  unfoldable pub render_segments : Request Rest → Outcome (List Segment)
  unfolding check_effort reject_unrenderable check_history
  render_segments r = do
    if r.continue_final_message then refused prefill else ok tt
    check_effort r.thinking r.reasoning_effort
    reject_unrenderable r.messages
    check_history r.strict_thinking_history r.messages
    or_reference (renderer.build_chat_segments r.messages r.thinking r.reasoning_effort)
