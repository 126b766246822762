-- ===== src/Chat/Splitter/Phases.antt =====
-- Each phase of the splitter sends what can no longer change (shard/engines/kimi_k3/k3_tools.py
-- `StreamSplitter`).
use mathlib.Core.List.{append_assoc, append-nil}
use shard_glm_image.Base.{
  ℕ, ◌+◌, ◌-◌, ◌≡◌, ◌∙◌, refl, sym, ap, subst, Bool, true, false, Option, none, some, Option-cases,
  inl, inr, List, [], ◌∷◌, ◌++◌, if◌then◌else◌, length, take, drop, arith,
}
use shard_glm_image.Base.Prefix.{take-append, drop-Extends, take-drop, length-drop}
use shard_glm_image.Base.Text.{Text, find}
use shard_glm_image.Base.Text.Start.{find-le}
use shard_glm_image.Chat.Markers.{Markers, content_end}
use shard_glm_image.Chat.Markers.Scan.{scan, first-scan, find-scan, place}
use shard_glm_image.Chat.Markers.Held.{Separate, scan_stays, scan_behind, scan-le}
use shard_glm_image.Chat.Splitter.{
  Phase, reasoning, between, content, finished, StreamSplitter, hold, safe, in_content, in_between,
  in_reasoning, after_gap, in_phase, last_of_phase, after_reasoning, Fed, same_text,
}
use shard_glm_image.Chat.Splitter.Held.{
  kept, whole_content_held, whole_between_held, whole_reasoning_held,
}
use shard_glm_image.Chat.Splitter.Whole.{
  whole_content, whole_between, whole_reasoning, whole_phase, whole_from, Splits, join, answer_upto,
  answer_behind, thought_upto,
}

-- The markers that one channel looks for do not overlap.
pub record IsClear (k : Markers) : Type 0 where
  pub in_thought : Separate (k.think_end ∷ []) (k.think_end ∷ [])
  pub in_gap :
      Separate (k.response_begin ∷ k.toolcall_begin ∷ []) (k.response_begin ∷ k.toolcall_begin ∷ [])
  pub in_answer : Separate (content_end k) (content_end k)

module _ (k : Markers) (clear : IsClear k) where
  abbrev pub state : Phase → Text → StreamSplitter
  state phase buf = record { phase = phase; buf = buf; echo = false }

  -- How much is let go of a buffer.
  abbrev loose : Text → ℕ
  loose v = length v - hold k

  in_content-none :
      (v : Text)
      → scan (content_end k) v ≡ none
      → in_content k (state content v) ≡ (state content (drop (loose v) v), [], take (loose v) v)
  unfolding in_content safe
  in_content-none v e = rw (first-scan v (content_end k) ∙ e, in_content) refl

  in_content-some :
      (v : Text) (i : ℕ) (m : Text)
      → scan (content_end k) v ≡ some (i, m)
      → in_content k (state content v) ≡ (state finished [], [], take i v)
  unfolding in_content
  in_content-some v i m e = rw (first-scan v (content_end k) ∙ e, in_content) refl

  -- The part that is let go, and the part that stays.
  content_loose :
      (v t : Text)
      → scan (content_end k) v ≡ none
      → whole_content k (v ++ t) ≡ take (loose v) v ++ whole_content k (drop (loose v) v ++ t)
  content_loose v t e = elim (kept (hold k) v) [
    | inl z ↦ sym (ap (λ (n : ℕ). take n v ++ whole_content k (drop n v ++ t)) z)
    | inr l ↦
        let split = take-drop (loose v) v in
        ap (λ (u : Text). whole_content k (u ++ t)) split
        ∙ ap (whole_content k) (append_assoc (take (loose v) v) (drop (loose v) v) t)
        ∙ whole_content_held k (take (loose v) v) (drop (loose v) v) t l
            (ap (scan (content_end k)) (sym split) ∙ e)
  ]

  -- Phase 2.
  in_content-Splits :
      (v : Text) → Splits k (λ t. whole_phase k content (v ++ t)) (in_content k (state content v))
  unfolding whole_phase whole_from last_of_phase whole_content
  in_content-Splits v = elim (Option-cases (scan (content_end k) v)) [
    | inl e ↦ subst (Splits k (λ t. whole_phase k content (v ++ t))) (sym (in_content-none v e)) (
      (λ t. ap (λ (c : Text). ([], c)) (content_loose v t e)),
      ap (λ (o : Option (ℕ × Text)). ([], answer_upto k (drop (loose v) v) o))
          (scan_behind (content_end k) (take (loose v) v) (drop (loose v) v)
            (ap (scan (content_end k)) (sym (take-drop (loose v) v)) ∙ e)),
    )
    | inr ((i, m), e) ↦
        subst (Splits k (λ t. whole_phase k content (v ++ t))) (sym (in_content-some v i m e)) (
          (λ t.
              ap (λ (c : Text). ([], c))
                (ap (answer_upto k (v ++ t))
                    (scan_stays (content_end k) v t (i, m) clear.in_answer e)
                  ∙ take-append i v t (omega (arith, scan-le (content_end k) v i m e))
                  ∙ sym (append-nil (take i v)))),
          refl,
        )
  ]

  -- Two readings of what is to come that agree.
  pub Splits-same :
      (f g : Text → Text × Text) (fed : Fed)
      → ((t : Text) → f t ≡ g t)
      → Splits k g fed
      → Splits k f fed
  Splits-same f g (s, r, c) same (says, rest) = ((λ t. same t ∙ says t), rest)

  abbrev gap : List Text
  gap = k.response_begin ∷ k.toolcall_begin ∷ []

  in_between-none :
      (v : Text)
      → scan gap v ≡ none
      → in_between k (state between v) ≡ (state between (drop (loose v) v), [], [])
  unfolding in_between safe
  in_between-none v e = rw (first-scan v gap ∙ e, in_between) refl

  in_between-some :
      (v : Text) (i : ℕ) (m : Text)
      → scan gap v ≡ some (i, m)
      → in_between k (state between v)
        ≡ after_gap k (state between (drop (i + length m) v)) (same_text m k.response_begin)
  unfolding in_between
  in_between-some v i m e = rw (first-scan v gap ∙ e, in_between) refl

  between_loose :
      (v t : Text)
      → scan gap v ≡ none
      → whole_between k (v ++ t) ≡ whole_between k (drop (loose v) v ++ t)
  between_loose v t e = elim (kept (hold k) v) [
    | inl z ↦ sym (ap (λ (n : ℕ). whole_between k (drop n v ++ t)) z)
    | inr l ↦
        let split = take-drop (loose v) v in
        ap (λ (u : Text). whole_between k (u ++ t)) split
        ∙ ap (whole_between k) (append_assoc (take (loose v) v) (drop (loose v) v) t)
        ∙ whole_between_held k (take (loose v) v) (drop (loose v) v) t l
            (ap (scan gap) (sym split) ∙ e)
  ]

  after_gap-Splits :
      (u : Text) (answers : Bool)
      → Splits k
          (λ t. ([], if answers then whole_content k (u ++ t) else []))
          (after_gap k (state between u) answers)
  unfolding after_gap whole_phase whole_from last_of_phase
  after_gap-Splits u true = in_content-Splits u
  after_gap-Splits u false = ((λ t. refl), refl)

  -- Phase 1.
  in_between-Splits :
      (v : Text) → Splits k (λ t. whole_phase k between (v ++ t)) (in_between k (state between v))
  unfolding whole_phase whole_from last_of_phase whole_between
  in_between-Splits v = elim (Option-cases (scan gap v)) [
    | inl e ↦ subst (Splits k (λ t. whole_phase k between (v ++ t))) (sym (in_between-none v e)) (
      (λ t. ap (λ (c : Text). ([], c)) (between_loose v t e)),
      ap (λ (o : Option (ℕ × Text)). ([], answer_behind k (drop (loose v) v) o))
          (scan_behind gap (take (loose v) v) (drop (loose v) v)
            (ap (scan gap) (sym (take-drop (loose v) v)) ∙ e)),
    )
    | inr ((i, m), e) ↦
        subst (Splits k (λ t. whole_phase k between (v ++ t))) (sym (in_between-some v i m e)) (
          Splits-same (λ t. whole_phase k between (v ++ t))
            (λ t. (
              [],
              if same_text m k.response_begin
                  then whole_content k (drop (i + length m) v ++ t)
                  else [],
            ))
            (after_gap k (state between (drop (i + length m) v)) (same_text m k.response_begin))
            (λ t.
              ap (λ (c : Text). ([], c))
                (ap (answer_behind k (v ++ t)) (scan_stays gap v t (i, m) clear.in_gap e)
                  ∙ ap
                      (λ (u : Text). if same_text m k.response_begin then whole_content k u else [])
                      (drop-Extends (i + length m) v t (scan-le gap v i m e))))
            (after_gap-Splits (drop (i + length m) v) (same_text m k.response_begin)))
  ]

  abbrev thought : List Text
  thought = k.think_end ∷ []

  in_reasoning-none :
      (v : Text)
      → find v k.think_end ≡ none
      → in_reasoning k (state reasoning v)
        ≡ (state reasoning (drop (loose v) v), take (loose v) v, [])
  unfolding in_reasoning safe
  in_reasoning-none v e = rw (e, in_reasoning) refl

  in_reasoning-some :
      (v : Text) (i : ℕ)
      → find v k.think_end ≡ some i
      → in_reasoning k (state reasoning v)
        ≡ after_reasoning
            (take i v)
            (in_between k (state between (drop (length k.think_end) (drop i v))))
  unfolding in_reasoning
  in_reasoning-some v i e = rw (e, in_reasoning) refl

  reasoning_loose :
      (v t : Text)
      → scan thought v ≡ none
      → whole_reasoning k (v ++ t)
        ≡ join (take (loose v) v, []) (whole_reasoning k (drop (loose v) v ++ t))
  reasoning_loose v t e = elim (kept (hold k) v) [
    | inl z ↦ sym (ap (λ (n : ℕ). join (take n v, []) (whole_reasoning k (drop n v ++ t))) z)
    | inr l ↦
        let split = take-drop (loose v) v in
        ap (λ (u : Text). whole_reasoning k (u ++ t)) split
        ∙ ap (whole_reasoning k) (append_assoc (take (loose v) v) (drop (loose v) v) t)
        ∙ whole_reasoning_held k (take (loose v) v) (drop (loose v) v) t l
            (ap (scan thought) (sym split) ∙ e)
  ]

  after_reasoning-Splits :
      (r : Text) (g : Text → Text × Text) (fed : Fed)
      → Splits k g fed
      → Splits k (λ t. join (r, []) (g t)) (after_reasoning r fed)
  after_reasoning-Splits r g (s, more, c) (says, rest) = (
    λ t.
        ap (join (r, [])) (says t)
        ∙ ap (λ (u : Text). (u, c ++ (whole_from k s.phase s.echo (s.buf ++ t)).1))
            (sym (append_assoc r more (whole_from k s.phase s.echo (s.buf ++ t)).0)),
    rest,
  )

  -- Phase 0.
  in_reasoning-Splits :
      (v : Text)
      → Splits k (λ t. whole_phase k reasoning (v ++ t)) (in_reasoning k (state reasoning v))
  unfolding whole_phase whole_from last_of_phase whole_reasoning
  in_reasoning-Splits v = elim (Option-cases (scan thought v)) [
    | inl e ↦
        subst (Splits k (λ t. whole_phase k reasoning (v ++ t)))
          (sym (in_reasoning-none v (find-scan v k.think_end ∙ ap place e)))
          (
            (λ t. reasoning_loose v t e),
            ap (thought_upto k (drop (loose v) v)) (
                scan_behind thought (take (loose v) v) (drop (loose v) v)
                  (ap (scan thought) (sym (take-drop (loose v) v)) ∙ e)),
          )
    | inr ((i, m), e) ↦
        let at : find v k.think_end ≡ some i = find-scan v k.think_end ∙ ap place e in
        let n = length k.think_end in
        let inside = find-le v k.think_end i at in
        let rest = drop n (drop i v) in
        subst (Splits k (λ t. whole_phase k reasoning (v ++ t))) (sym (in_reasoning-some v i at)) (
          Splits-same (λ t. whole_phase k reasoning (v ++ t))
            (λ t. join (take i v, []) (whole_phase k between (rest ++ t)))
            (after_reasoning (take i v) (in_between k (state between rest)))
            (λ t.
              ap (thought_upto k (v ++ t)) (scan_stays thought v t (i, m) clear.in_thought e)
              ∙ ap (λ (r : Text). (r, whole_between k (drop n (drop i (v ++ t)))))
                  (take-append i v t (omega (arith, inside)) ∙ sym (append-nil (take i v)))
              ∙ ap (λ (u : Text). (take i v ++ [], whole_between k u))
                  (ap (drop n) (drop-Extends i v t (omega (arith, inside)))
                    ∙ drop-Extends n (drop i v) t (omega (arith, inside, length-drop i v))))
            (after_reasoning-Splits (take i v) (λ t. whole_phase k between (rest ++ t))
              (in_between k (state between rest)) (in_between-Splits rest)))
  ]

  pub in_phase-Splits :
      (phase : Phase) (v : Text)
      → Splits k (λ t. whole_phase k phase (v ++ t)) (in_phase k phase (state phase v))
  unfolding in_phase whole_phase whole_from last_of_phase
  in_phase-Splits reasoning v = in_reasoning-Splits v
  in_phase-Splits between v = in_between-Splits v
  in_phase-Splits content v = in_content-Splits v
  in_phase-Splits finished v = ((λ t. refl), refl)
