-- ===== src/Chat/Completion/Agrees.antt =====
-- The stream and the final parse of a completion agree (shard/engines/kimi_k3/k3_tools.py).
use shard_glm_image.Base.{
  ℕ, ◌+◌, ◌≡◌, ◌∙◌, refl, sym, ap, subst, Bool, true, false, Bool-cases, Option, none, some,
  Option-cases, inl, inr, List, [], ◌∷◌, ◌++◌, length, take, drop,
}
use shard_glm_image.Base.Text.{Text, starts_with, find}
use shard_glm_image.Chat.Markers.{Tokens, Markers, markers_of, trimmed, trim_partial, removeprefix}
use shard_glm_image.Chat.Markers.Scan.{scan, place, find-scan}
use shard_glm_image.Chat.Markers.Held.{drop_past, take_past, starts_with_grows}
use shard_glm_image.Chat.Markers.Single.{
  starts_with-split, starts_with_own, Apart, find-Apart, find_within, find_empty_none, further,
}
use shard_glm_image.Base.Prefix.{take-drop}
use shard_glm_image.Chat.Splitter.Empty.{drop_nil, whole_content_nil}
use shard_glm_image.Chat.Splitter.{new_splitter, stream, reasoning, last_of_phase}
use shard_glm_image.Chat.Splitter.Whole.{
  whole_between, whole_reasoning, whole_phase, whole_from, thought_upto,
}
use shard_glm_image.Chat.Splitter.Phases.{IsClear}
use shard_glm_image.Chat.Splitter.Chunks.{
  concat, stream-new_splitter, whole_opened, whole_waiting, whole_other,
}
use shard_glm_image.Chat.Completion.{
  Python, parse_completion, thought_of, open_thought, think_is_open, opened_content, closed_content,
  or_none,
}
use shard_glm_image.Chat.Completion.Answers.{
  or_nothing, or_nothing_none, closed-whole_content, ToolsLast, answer_agrees,
}

module _ (k : Markers) where
  -- What a message shows of a thought and the text behind it.
  abbrev shows : Option Text × Bool × Text → Text × Text
  shows (r, closed, tail) = (or_nothing r, closed_content k (opened_content k closed tail))

  thought_none :
      (t : Text)
      → find t k.think_end ≡ none
      → thought_of k t (some true)
        ≡ (or_none (trim_partial (trimmed k) (removeprefix t k.think_begin)), false, [])
  unfolding thought_of open_thought think_is_open
  thought_none t e = rw (e, thought_of) refl

  thought_some :
      (t : Text) (i : ℕ)
      → find t k.think_end ≡ some i
      → thought_of k t (some true) ≡ (
        or_none (removeprefix (take i t) k.think_begin),
        true,
        drop (length k.think_end) (drop i t),
      )
  unfolding thought_of
  thought_some t i e = rw (e, thought_of) refl

  nothing_opened : closed_content k (opened_content k false []) ≡ []
  unfolding opened_content
  nothing_opened =
      ap (closed_content k) (opens (find [] k.response_begin))
      ∙ closed-whole_content k []
      ∙ whole_content_nil k
    where
      opens :
          (o : Option ℕ)
          → elim o as (λ x. Text) [ none ↦ [] | some i ↦ drop (i + length k.response_begin) [] ]
            ≡ []
      opens none = refl
      opens (some i) = drop_nil (i + length k.response_begin)

  -- An open thought.
  open_shows :
      (t : Text)
      → find t k.think_end ≡ none
      → shows (thought_of k t (some true))
        ≡ (trim_partial (trimmed k) (removeprefix t k.think_begin), [])
  open_shows t e =
      ap shows (thought_none t e)
      ∙ ap (λ (r : Text). (r, closed_content k (opened_content k false []))) (or_nothing_none _)
      ∙ ap (λ (c : Text). (trim_partial (trimmed k) (removeprefix t k.think_begin), c))
          nothing_opened

  -- A closed one.
  closed_shows :
      (t : Text) (i : ℕ)
      → find t k.think_end ≡ some i
      → ToolsLast k ((thought_of k t (some true)).2)
      → shows (thought_of k t (some true)) ≡ (
        removeprefix (take i t) k.think_begin,
        whole_between k (drop (length k.think_end) (drop i t)),
      )
  closed_shows t i e ordered =
      let n = length k.think_end in
      ap shows (thought_some t i e)
      ∙ ap (λ (r : Text). (r, closed_content k (opened_content k true (drop n (drop i t)))))
          (or_nothing_none _)
      ∙ ap (λ (c : Text). (removeprefix (take i t) k.think_begin, c))
          (answer_agrees k (drop n (drop i t)) (
            subst (ToolsLast k) (ap (λ (h : Option Text × Bool × Text). h.2) (thought_some t i e))
              ordered))

  removed :
      (t : Text)
      → starts_with t k.think_begin ≡ true
      → removeprefix t k.think_begin ≡ drop (length k.think_begin) t
  unfolding removeprefix
  removed t y = rw y refl

  unremoved : (t : Text) → starts_with t k.think_begin ≡ false → removeprefix t k.think_begin ≡ t
  unfolding removeprefix
  unremoved t n = rw n refl

  drop_own : (m u : Text) → drop (length m) (m ++ u) ≡ u
  drop_own [] u = refl
  drop_own (c ∷ m) u = drop_own m u

  module _ (apart : Apart k.think_begin k.think_end) where
    -- The search of the thought's end behind the opener that is repeated.
    find_opened :
        (t : Text)
        → starts_with t k.think_begin ≡ true
        → find t k.think_end
          ≡ further (length k.think_begin) (find (drop (length k.think_begin) t) k.think_end)
    find_opened t y =
        ap (λ (u : Text). find u k.think_end) (starts_with-split t k.think_begin y)
        ∙ find-Apart k.think_begin (drop (length k.think_begin) t) k.think_end apart

    -- What is removed from the text before the end of the thought.
    removed_take :
        (t : Text) (j : ℕ)
        → starts_with t k.think_begin ≡ true
        → removeprefix (take (length k.think_begin + j) t) k.think_begin
          ≡ take j (drop (length k.think_begin) t)
    removed_take t j y =
        let n = length k.think_begin in
        let u = drop n t in
        let e =
          ap (take (n + j)) (starts_with-split t k.think_begin y) ∙ take_past k.think_begin u j in
        ap (λ (v : Text). removeprefix v k.think_begin) e
        ∙ removed (k.think_begin ++ take j u) (starts_with_own k.think_begin (take j u))
        ∙ drop_own k.think_begin (take j u)

    opened_agrees :
        (t : Text)
        → starts_with t k.think_begin ≡ true
        → ToolsLast k ((thought_of k t (some true)).2)
        → shows (thought_of k t (some true)) ≡ whole_reasoning k (drop (length k.think_begin) t)
    unfolding whole_reasoning
    opened_agrees t y ordered =
        let n = length k.think_begin in
        let u = drop n t in
        elim (Option-cases (scan (k.think_end ∷ []) u)) [
          | inl e ↦
              let none_here =
                find_opened t y ∙ ap (further n) (find-scan u k.think_end ∙ ap place e) in
              open_shows t none_here
              ∙ ap (λ (r : Text). (trim_partial (trimmed k) r, [])) (removed t y)
              ∙ sym (ap (thought_upto k u) e)
          | inr ((j, m), e) ↦
              let at = find_opened t y ∙ ap (further n) (find-scan u k.think_end ∙ ap place e) in
              let behind : drop (n + j) t ≡ drop j u =
                ap (drop (n + j)) (starts_with-split t k.think_begin y)
                ∙ drop_past k.think_begin u j in
              closed_shows t (n + j) at ordered
              ∙ ap (λ (r : Text). (r, whole_between k (drop (length k.think_end) (drop (n + j) t))))
                  (removed_take t j y)
              ∙ ap (λ (v : Text). (take j u, whole_between k (drop (length k.think_end) v))) behind
              ∙ sym (ap (thought_upto k u) e)
        ]

    other_agrees :
        (t : Text)
        → starts_with t k.think_begin ≡ false
        → ToolsLast k ((thought_of k t (some true)).2)
        → shows (thought_of k t (some true)) ≡ whole_reasoning k t
    unfolding whole_reasoning
    other_agrees t n ordered = elim (Option-cases (scan (k.think_end ∷ []) t)) [
      | inl e ↦
          open_shows t (find-scan t k.think_end ∙ ap place e)
          ∙ ap (λ (r : Text). (trim_partial (trimmed k) r, [])) (unremoved t n)
          ∙ sym (ap (thought_upto k t) e)
      | inr ((j, m), e) ↦
          closed_shows t j (find-scan t k.think_end ∙ ap place e) ordered
          ∙ ap (λ (r : Text). (r, whole_between k (drop (length k.think_end) (drop j t))))
              (unremoved (take j t) (shorter t j n))
          ∙ sym (ap (thought_upto k t) e)
    ]
      where
        shorter :
            (u : Text) (j : ℕ)
            → starts_with u k.think_begin ≡ false
            → starts_with (take j u) k.think_begin ≡ false
        shorter u j no_start = elim (Bool-cases (starts_with (take j u) k.think_begin)) [
          | inr good ↦ good
          | inl y ↦ absurd (
              cc (
                sym
                  (ap (λ (v : Text). starts_with v k.think_begin) (sym (take-drop j u)) ∙ no_start)
                ∙ starts_with_grows (take j u) (drop j u) k.think_begin y))
        ]

    -- A beginning of the opener holds no end of a thought.
    waiting_none :
        (t : Text)
        → starts_with t k.think_begin ≡ false
        → starts_with k.think_begin t ≡ true
        → find t k.think_end ≡ none
    waiting_none t n y =
        find_within t (drop (length t) k.think_begin) k.think_end
          (subst (λ (a : Text). Apart a k.think_end) (starts_with-split k.think_begin t y) apart)
          (find_empty_none k.think_begin k.think_end t apart n)

    shows-whole_from :
        (t : Text)
        → IsClear k
        → ToolsLast k ((thought_of k t (some true)).2)
        → shows (thought_of k t (some true)) ≡ whole_from k reasoning true t
    unfolding whole_phase last_of_phase
    shows-whole_from t clear ordered = elim (Bool-cases (starts_with t k.think_begin)) [
      | inl y ↦ opened_agrees t y ordered ∙ sym (whole_opened k clear reasoning t y)
      | inr n ↦ elim (Bool-cases (starts_with k.think_begin t)) [
        | inl y ↦ open_shows t (waiting_none t n y) ∙ sym (whole_waiting k clear reasoning t n y)
        | inr n2 ↦ other_agrees t n ordered ∙ sym (whole_other k clear reasoning t n n2)
      ]
    ]

-- With control tokens whose markers do not overlap, however a completion with reasoning is cut into pieces, the reasoning
-- and the answer that the splitter sends, joined, are those that `parse_completion` finds in the whole, if
-- behind the end of the thought no tool block comes before an opener of the answer.
pub stream-parse_completion :
    {Json : Type 0} (py : Python Json) (tokens : Tokens) (pieces : List Text)
    → IsClear (markers_of tokens)
    → Apart (markers_of tokens).think_begin (markers_of tokens).think_end
    → ToolsLast (markers_of tokens) ((thought_of (markers_of tokens) (concat pieces) (some true)).2)
    → stream (markers_of tokens) (new_splitter true) pieces ≡ (
      or_nothing (parse_completion py tokens (concat pieces) (some true)).reasoning_content,
      (parse_completion py tokens (concat pieces) (some true)).content,
    )
unfolding parse_completion new_splitter
stream-parse_completion py tokens pieces clear apart ordered =
    let k = markers_of tokens in
    stream-new_splitter k clear true pieces
    ∙ sym (shows-whole_from k apart (concat pieces) clear ordered)
