-- ===== src/Chat/Markers.antt =====
-- shard/engines/kimi_k3/k3_tools.py: the channel markers, the search for the earliest of several, and the
-- cut of a marker that has only begun. The control tokens come from the checkpoint's own encoder.
pub mod Held
pub mod Scan
pub mod Single
use shard_glm_image.Base.{
  ℕ, zero, suc, ◌-◌, Bool, true, false, ◌||◌, Option, none, some, List, [], ◌∷◌, ◌++◌, ltb,
  if◌then◌else◌, length, take, drop, min, max,
}
use shard_glm_image.Base.Text.{Text, codes, starts_with, find}

-- `OPEN_TOKEN`, `CLOSE_TOKEN`, `SEP_TOKEN` and `END_OF_MSG_TOKEN` of the checkpoint's encoder.
pub record Tokens : Type 0 where
  pub open_token : Text
  pub close_token : Text
  pub sep_token : Text
  pub end_of_msg_token : Text

pub record Markers : Type 0 where
  pub think_begin : Text
  pub think_end : Text
  pub response_begin : Text
  pub response_end : Text
  pub toolcall_begin : Text
  pub message_end : Text
  pub end_of_msg : Text

unfoldable pub markers_of : Tokens → Markers
markers_of t =
    let opened = λ (tag : Text). t.open_token ++ (tag ++ t.sep_token) in
    let closed = λ (tag : Text). t.close_token ++ (tag ++ t.sep_token) in
    record {
      think_begin = opened (codes "think");
      think_end = closed (codes "think");
      response_begin = opened (codes "response");
      response_end = closed (codes "response");
      toolcall_begin = opened (codes "tools");
      message_end = closed (codes "message");
      end_of_msg = t.end_of_msg_token;
    }

-- `_CONTENT_END`
abbrev pub content_end : Markers → List Text
content_end k = k.response_end ∷ k.toolcall_begin ∷ k.message_end ∷ k.end_of_msg ∷ []

-- The markers that `_trim_partial` knows.
abbrev pub trimmed : Markers → List Text
trimmed k =
    k.response_end ∷ k.toolcall_begin ∷ k.message_end ∷ k.end_of_msg ∷ k.response_begin
    ∷ k.think_begin ∷ k.think_end ∷ []

-- `StreamSplitter._MARKERS`
abbrev pub all_markers : Markers → List Text
all_markers k =
    k.think_begin ∷ k.think_end ∷ k.response_begin ∷ k.response_end ∷ k.toolcall_begin
    ∷ k.message_end ∷ k.end_of_msg ∷ []

unfoldable pub longest : List Text → ℕ
longest [] = 0
longest (m ∷ ms) = max (length m) (longest ms)

-- `i >= 0 and (best < 0 or i < best)`
unfoldable pub sooner : Option ℕ → Option ℕ → Option ℕ
sooner best none = best
sooner none (some i) = some i
sooner (some b) (some i) = if ltb i b then some i else some b

-- The loop of `_earliest`.
unfoldable pub earliest_from : Text → Option ℕ → List Text → Option ℕ
unfolding sooner
earliest_from text best [] = best
earliest_from text best (m ∷ ms) = earliest_from text (sooner best (find text m)) ms

unfoldable pub earliest : Text → List Text → Option ℕ
unfolding earliest_from
earliest text ms = earliest_from text none ms

-- The same with the marker that was found.
unfoldable pub closer : Option (ℕ × Text) → Option ℕ → Text → Option (ℕ × Text)
closer best none m = best
closer none (some i) m = some (i, m)
closer (some (b, hit)) (some i) m = if ltb i b then some (i, m) else some (b, hit)

unfoldable pub first_from : Text → Option (ℕ × Text) → List Text → Option (ℕ × Text)
unfolding closer
first_from text best [] = best
first_from text best (m ∷ ms) = first_from text (closer best (find text m) m) ms

-- `_first(*markers)`
unfoldable pub first : Text → List Text → Option (ℕ × Text)
unfolding first_from
first text ms = first_from text none ms

-- `any(m.startswith(s) for m in markers)`
unfoldable pub any_starts : List Text → Text → Bool
unfolding starts_with
any_starts [] s = false
any_starts (m ∷ ms) s = starts_with m s || any_starts ms s

-- The loop of `_trim_partial`, with `n` characters at most still to be dropped.
unfoldable pub trim_from : List Text → Text → ℕ → Text
unfolding any_starts
trim_from ms s zero = s
trim_from ms s (suc n) =
    if any_starts ms (drop (length s - suc n) s)
    then take (length s - suc n) s
    else trim_from ms s n

unfoldable pub trim_partial : List Text → Text → Text
unfolding trim_from longest
trim_partial ms s = trim_from ms s (min (length s) (longest ms - 1))

-- `s.removeprefix(prefix)`
unfoldable pub removeprefix : Text → Text → Text
unfolding starts_with
removeprefix s p = if starts_with s p then drop (length p) s else s
