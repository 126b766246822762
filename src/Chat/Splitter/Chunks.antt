-- ===== src/Chat/Splitter/Chunks.antt =====
-- How a completion is cut into pieces makes no difference (shard/engines/kimi_k3/k3_tools.py `StreamSplitter`).
use mathlib.Core.List.{append_assoc, append-nil}
use shard_glm_image.Base.{
  ◌≡◌, ◌∙◌, refl, sym, ap, subst, Bool, true, false, Bool-cases, inl, inr, List, [], ◌∷◌, ◌++◌,
  length, drop,
}
use shard_glm_image.Base.Prefix.{drop-Extends}
use shard_glm_image.Base.Text.{Text, starts_with}
use shard_glm_image.Base.Text.Start.{starts_with-append, starts_with-le}
use shard_glm_image.Chat.Markers.{Markers, trimmed, trim_partial, removeprefix}
use shard_glm_image.Chat.Markers.Single.{differ, starts_with_empty, trim_partial_nil}
use shard_glm_image.Chat.Splitter.Empty.{
  drop_nil, removeprefix_nil, whole_content_nil, whole_reasoning_nil,
}
use shard_glm_image.Chat.Splitter.{
  Phase, reasoning, StreamSplitter, in_phase, resolve, feed, end, stream, last_of_phase,
  new_splitter,
}
use shard_glm_image.Chat.Splitter.Whole.{
  whole_reasoning, whole_phase, whole_from, Settled, Splits, join,
}
use shard_glm_image.Chat.Splitter.Phases.{IsClear, Splits-same, state, in_phase-Splits}

-- The pieces, joined.
abbrev pub concat : List Text → Text
concat [] = []
concat (d ∷ ds) = d ++ concat ds

module _ (k : Markers) (clear : IsClear k) where
  abbrev echoing : Phase → Text → StreamSplitter
  echoing phase buf = record { phase = phase; buf = buf; echo = true }

  pub whole_opened :
      (phase : Phase) (u : Text)
      → starts_with u k.think_begin ≡ true
      → whole_from k phase true u ≡ whole_phase k phase (drop (length k.think_begin) u)
  unfolding whole_from
  whole_opened phase u y = rw y refl

  pub whole_waiting :
      (phase : Phase) (u : Text)
      → starts_with u k.think_begin ≡ false
      → starts_with k.think_begin u ≡ true
      → whole_from k phase true u ≡ last_of_phase k phase true u
  unfolding whole_from
  whole_waiting phase u n y = rw (n, y) refl

  pub whole_other :
      (phase : Phase) (u : Text)
      → starts_with u k.think_begin ≡ false
      → starts_with k.think_begin u ≡ false
      → whole_from k phase true u ≡ whole_phase k phase u
  unfolding whole_from
  whole_other phase u n m = rw (n, m) refl

  resolve_opened :
      (phase : Phase) (v : Text)
      → starts_with v k.think_begin ≡ true
      → resolve k (echoing phase v) true
        ≡ in_phase k phase (state k clear phase (drop (length k.think_begin) v))
  unfolding resolve
  resolve_opened phase v y = rw y refl

  resolve_waiting :
      (phase : Phase) (v : Text)
      → starts_with v k.think_begin ≡ false
      → starts_with k.think_begin v ≡ true
      → resolve k (echoing phase v) true ≡ (echoing phase v, [], [])
  unfolding resolve
  resolve_waiting phase v n y = rw (n, y) refl

  resolve_other :
      (phase : Phase) (v : Text)
      → starts_with v k.think_begin ≡ false
      → starts_with k.think_begin v ≡ false
      → resolve k (echoing phase v) true ≡ in_phase k phase (state k clear phase v)
  unfolding resolve
  resolve_other phase v n m = rw (n, m) refl

  echo-Splits :
      (phase : Phase) (v : Text)
      → Splits k (λ t. whole_from k phase true (v ++ t)) (resolve k (echoing phase v) true)
  echo-Splits phase v = elim (Bool-cases (starts_with v k.think_begin)) [
    | inl y ↦
        let fits = starts_with-le v k.think_begin y in
        subst (Splits k (λ t. whole_from k phase true (v ++ t))) (sym (resolve_opened phase v y)) (
          Splits-same k clear (λ t. whole_from k phase true (v ++ t))
            (λ t. whole_phase k phase (drop (length k.think_begin) v ++ t))
            (in_phase k phase (state k clear phase (drop (length k.think_begin) v)))
            (λ t.
              whole_opened phase (v ++ t) (starts_with-append v t k.think_begin fits ∙ y)
              ∙ ap (whole_phase k phase) (drop-Extends (length k.think_begin) v t fits))
            (in_phase-Splits k clear phase (drop (length k.think_begin) v)))
    | inr n ↦ elim (Bool-cases (starts_with k.think_begin v)) [
      | inl y ↦
          subst (Splits k (λ t. whole_from k phase true (v ++ t)))
            (sym (resolve_waiting phase v n y)) ((λ t. refl), whole_waiting phase v n y)
      | inr m ↦
          subst (Splits k (λ t. whole_from k phase true (v ++ t))) (sym (resolve_other phase v n m))
            (Splits-same k clear (λ t. whole_from k phase true (v ++ t))
              (λ t. whole_phase k phase (v ++ t)) (in_phase k phase (state k clear phase v))
              (λ t. let (a, b) = differ v t k.think_begin n m in whole_other phase (v ++ t) a b)
              (in_phase-Splits k clear phase v))
    ]
  ]

  resolve-Splits :
      (phase : Phase) (v : Text) (echo : Bool)
      → Splits k
          (λ t. whole_from k phase echo (v ++ t))
          (resolve k (record { phase = phase; buf = v; echo = echo }) echo)
  unfolding resolve whole_from
  resolve-Splits phase v false = in_phase-Splits k clear phase v
  resolve-Splits phase v true = echo-Splits phase v

  feed-Splits :
      (s : StreamSplitter) (d : Text)
      → Splits k (λ t. whole_from k s.phase s.echo ((s.buf ++ d) ++ t)) (feed k s d)
  unfolding feed
  feed-Splits s d = resolve-Splits s.phase (s.buf ++ d) s.echo

  -- The pieces of a completion give what the whole gives.
  pub stream-whole_from :
      (s : StreamSplitter) (ds : List Text)
      → Settled k s
      → stream k s ds ≡ whole_from k s.phase s.echo (s.buf ++ concat ds)
  unfolding stream end
  stream-whole_from s [] rest = sym rest ∙ ap (whole_from k s.phase s.echo) (sym (append-nil s.buf))
  stream-whole_from s (d ∷ ds) rest =
      let (says, settled) = feed-Splits s d in
      let fed = feed k s d in
      ap (join (fed.1, fed.2)) (stream-whole_from fed.0 ds settled)
      ∙ sym (says (concat ds))
      ∙ ap (whole_from k s.phase s.echo) (append_assoc s.buf d (concat ds))

  nothing_left : trim_partial (trimmed k) (removeprefix [] k.think_begin) ≡ []
  nothing_left =
      ap (trim_partial (trimmed k)) (removeprefix_nil k.think_begin) ∙ trim_partial_nil (trimmed k)

  new_splitter-Settled : (reasoning_on : Bool) → Settled k (new_splitter reasoning_on)
  unfolding new_splitter whole_from whole_phase last_of_phase
  new_splitter-Settled true = elim (Bool-cases (starts_with [] k.think_begin)) [
    | inl y ↦
        whole_opened reasoning [] y
        ∙ ap (whole_reasoning k) (drop_nil (length k.think_begin))
        ∙ whole_reasoning_nil k
        ∙ sym (ap (λ (t : Text). (t, [])) nothing_left)
    | inr n ↦ whole_waiting reasoning [] n (starts_with_empty k.think_begin)
  ]
  new_splitter-Settled false =
      ap (λ (c : Text). ([], c)) (whole_content_nil k ∙ sym (trim_partial_nil (trimmed k)))

  -- What a new splitter makes of the pieces is what one scan makes of the whole.
  pub stream-new_splitter :
      (reasoning_on : Bool) (pieces : List Text)
      → stream k (new_splitter reasoning_on) pieces
        ≡ whole_from k (new_splitter reasoning_on).phase reasoning_on (concat pieces)
  unfolding new_splitter
  stream-new_splitter reasoning_on pieces =
      stream-whole_from (new_splitter reasoning_on) pieces (new_splitter-Settled reasoning_on)

  -- With markers that do not overlap, a splitter that is fed a completion in any pieces sends, joined, the same
  -- reasoning and the same answer as one that is fed the whole at once.
  pub stream-concat :
      (reasoning_on : Bool) (pieces : List Text)
      → stream k (new_splitter reasoning_on) pieces
        ≡ stream k (new_splitter reasoning_on) (concat pieces ∷ [])
  stream-concat reasoning_on pieces =
      stream-new_splitter reasoning_on pieces
      ∙ ap (whole_from k (new_splitter reasoning_on).phase reasoning_on)
          (sym (append-nil (concat pieces)))
      ∙ sym (stream-new_splitter reasoning_on (concat pieces ∷ []))
