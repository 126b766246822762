-- ===== src/Chat/Splitter.antt =====
-- shard/engines/kimi_k3/k3_tools.py `StreamSplitter`: the reasoning and the visible answer of a completion that
-- arrives in pieces.
pub mod Chunks
pub mod Empty
pub mod Held
pub mod Phases
pub mod Whole
use shard_glm_image.Base.{
  ℕ, zero, suc, ◌+◌, ◌-◌, ◌==◌, ◌&&◌, Bool, true, false, Option, none, some, List, [], ◌∷◌, ◌++◌,
  if◌then◌else◌, length, take, drop,
}
unfoldable pub use shard_glm_image.Base.Text.{same_text}
use shard_glm_image.Base.Text.{Text, starts_with, find}
use shard_glm_image.Chat.Markers.{
  Markers, content_end, trimmed, all_markers, longest, first, trim_partial, removeprefix,
}

-- Phases 0 to 3.
pub data Phase : Type 0 where
  reasoning between content finished : Phase

pub record StreamSplitter : Type 0 where
  pub phase : Phase
  pub buf : Text
  pub echo : Bool

-- `StreamSplitter.__init__`
unfoldable pub new_splitter : Bool → StreamSplitter
new_splitter reasoning_on = record {
  phase = if reasoning_on then reasoning else content;
  buf = [];
  echo = reasoning_on;
}

-- What `feed` returns, `(r, c)`, with the splitter after it.
abbrev pub Fed : Type 0
Fed = StreamSplitter × Text × Text

abbrev pub after_reasoning : Text → Fed → Fed
after_reasoning r (s, more, c) = (s, r ++ more, c)

module _ (k : Markers) where
  -- `_HOLD`
  unfoldable pub hold : ℕ
  unfolding longest
  hold = longest (all_markers k) - 1

  -- What is not held back: `len(self.buf) - self._HOLD`, where a take of 0 or less takes nothing.
  unfoldable pub safe : StreamSplitter → ℕ
  unfolding hold
  safe s = length s.buf - hold

  -- Phase 2.
  unfoldable pub in_content : StreamSplitter → Fed
  unfolding safe first
  in_content s = elim (first s.buf (content_end k)) [
    | none ↦ (record s { buf = drop (safe s) s.buf }, [], take (safe s) s.buf)
    | some (i, hit) ↦ (record s { phase = finished; buf = [] }, [], take i s.buf)
  ]

  -- `self.phase = 2 if hit == RESPONSE_BEGIN else 3`, and the next round of the loop.
  unfoldable pub after_gap : StreamSplitter → Bool → Fed
  unfolding in_content
  after_gap s true = in_content (record s { phase = content })
  after_gap s false = (record s { phase = finished }, [], [])

  -- Phase 1.
  unfoldable pub in_between : StreamSplitter → Fed
  unfolding safe first after_gap same_text
  in_between s = elim (first s.buf (k.response_begin ∷ k.toolcall_begin ∷ [])) [
    | none ↦ (record s { buf = drop (safe s) s.buf }, [], [])
    | some (i, hit) ↦
        after_gap (record s { buf = drop (i + length hit) s.buf }) (same_text hit k.response_begin)
  ]

  -- Phase 0.
  unfoldable pub in_reasoning : StreamSplitter → Fed
  unfolding safe find in_between
  in_reasoning s = elim (find s.buf k.think_end) [
    | none ↦ (record s { buf = drop (safe s) s.buf }, take (safe s) s.buf, [])
    | some i ↦
        after_reasoning (take i s.buf) (
          in_between (record s { phase = between; buf = drop (length k.think_end) (drop i s.buf) }))
  ]

  unfoldable pub in_phase : Phase → StreamSplitter → Fed
  unfolding in_reasoning in_between in_content
  in_phase reasoning s = in_reasoning s
  in_phase between s = in_between s
  in_phase content s = in_content s
  in_phase finished s = (s, [], [])

  -- The leading opener that a completion may repeat, and then the phases.
  unfoldable pub resolve : StreamSplitter → Bool → Fed
  unfolding in_phase starts_with
  resolve s false = in_phase s.phase s
  resolve s true =
      if starts_with s.buf k.think_begin
      then in_phase s.phase (record s { buf = drop (length k.think_begin) s.buf; echo = false })
      else if starts_with k.think_begin s.buf
      then (s, [], [])
      else in_phase s.phase (record s { echo = false })

  unfoldable pub feed : StreamSplitter → Text → Fed
  unfolding resolve
  feed s delta = resolve (record s { buf = s.buf ++ delta }) s.echo

  -- What `end` returns in each phase. The splitter that it leaves is empty.
  unfoldable pub last_of_phase : Phase → Bool → Text → Text × Text
  unfolding trim_partial removeprefix
  last_of_phase reasoning echo buf =
      (trim_partial (trimmed k) (if echo then removeprefix buf k.think_begin else buf), [])
  last_of_phase between echo buf = ([], [])
  last_of_phase content echo buf = ([], trim_partial (trimmed k) buf)
  last_of_phase finished echo buf = ([], [])

  unfoldable pub end : StreamSplitter → StreamSplitter × Text × Text
  unfolding last_of_phase
  end s = let (r, c) = last_of_phase s.phase s.echo s.buf in (record s { buf = [] }, r, c)

  -- All pieces of a completion, and its end: the reasoning and the answer that were sent, joined.
  unfoldable pub stream : StreamSplitter → List Text → Text × Text
  unfolding feed end
  stream s [] = let (s', r, c) = end s in (r, c)
  stream s (delta ∷ deltas) =
      let (s', r, c) = feed s delta in let (rs, cs) = stream s' deltas in (r ++ rs, c ++ cs)
