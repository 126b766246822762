-- ===== src/Chat/Splitter/Whole.antt =====
-- What a splitter makes of a text that arrives at once, by one scan for each channel
-- (shard/engines/kimi_k3/k3_tools.py `StreamSplitter`).
use shard_glm_image.Base.{
  ℕ, ◌+◌, ◌≡◌, Bool, true, false, Option, none, some, [], ◌∷◌, ◌++◌, if◌then◌else◌, length, take,
  drop,
}
use shard_glm_image.Base.Text.{Text, starts_with}
use shard_glm_image.Chat.Markers.{Markers, content_end, trimmed, trim_partial}
use shard_glm_image.Chat.Markers.Scan.{scan}
use shard_glm_image.Chat.Splitter.{
  Phase, reasoning, between, content, finished, StreamSplitter, same_text, last_of_phase, Fed,
}

-- Two pairs of texts, one behind the other.
abbrev pub join : Text × Text → Text × Text → Text × Text
join (r, c) (rs, cs) = (r ++ rs, c ++ cs)

module _ (k : Markers) where
  abbrev pub answer_upto : Text → Option (ℕ × Text) → Text
  answer_upto u none = trim_partial (trimmed k) u
  answer_upto u (some (i, m)) = take i u

  unfoldable pub whole_content : Text → Text
  unfolding scan
  whole_content u = answer_upto u (scan (content_end k) u)

  abbrev pub answer_behind : Text → Option (ℕ × Text) → Text
  answer_behind u none = []
  answer_behind u (some (i, m)) =
      if same_text m k.response_begin then whole_content (drop (i + length m) u) else []

  unfoldable pub whole_between : Text → Text
  unfolding scan whole_content same_text
  whole_between u = answer_behind u (scan (k.response_begin ∷ k.toolcall_begin ∷ []) u)

  abbrev pub thought_upto : Text → Option (ℕ × Text) → Text × Text
  thought_upto u none = (trim_partial (trimmed k) u, [])
  thought_upto u (some (i, m)) = (take i u, whole_between (drop (length k.think_end) (drop i u)))

  unfoldable pub whole_reasoning : Text → Text × Text
  unfolding scan whole_between
  whole_reasoning u = thought_upto u (scan (k.think_end ∷ []) u)

  unfoldable pub whole_phase : Phase → Text → Text × Text
  unfolding whole_reasoning whole_between whole_content
  whole_phase reasoning u = whole_reasoning u
  whole_phase between u = ([], whole_between u)
  whole_phase content u = ([], whole_content u)
  whole_phase finished u = ([], [])

  -- From a phase on, with or without the leading opener still to be resolved.
  unfoldable pub whole_from : Phase → Bool → Text → Text × Text
  unfolding whole_phase last_of_phase starts_with
  whole_from phase false u = whole_phase phase u
  whole_from phase true u =
      if starts_with u k.think_begin
      then whole_phase phase (drop (length k.think_begin) u)
      else if starts_with k.think_begin u
      then last_of_phase k phase true u
      else whole_phase phase u

  -- What a splitter has in its buffer is what it would say at the end.
  abbrev pub Settled : StreamSplitter → Type 0
  Settled s = whole_from s.phase s.echo s.buf ≡ last_of_phase k s.phase s.echo s.buf

  -- What was sent, and what is still to come for any further text.
  abbrev pub Splits : (Text → Text × Text) → Fed → Type 0
  Splits f (s, r, c) =
      ((t : Text) → f t ≡ join (r, c) (whole_from s.phase s.echo (s.buf ++ t))) × Settled s
