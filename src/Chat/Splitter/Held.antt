-- ===== src/Chat/Splitter/Held.antt =====
-- The characters that a splitter holds back are enough (shard/engines/kimi_k3/k3_tools.py `StreamSplitter`).
use shard_glm_image.Base.{
  ℕ, ◌+◌, ◌-◌, ◌≤◌, ◌≡◌, ◌∙◌, refl, ap, Option, none, some, inl, inr, ◌⊎◌, List, [], ◌∷◌, ◌++◌,
  length, take, drop, All, arith, length-append, zero, suc, if◌then◌else◌,
}
use shard_glm_image.Base.Prefix.{length-drop}
use shard_glm_image.Base.Text.{Text}
use shard_glm_image.Chat.Markers.{Markers, content_end, trimmed, all_markers, longest}
use shard_glm_image.Chat.Markers.Scan.{scan, shift}
use shard_glm_image.Chat.Markers.Held.{scan_held, drop_past, take_past, trim_partial_held}
use shard_glm_image.Chat.Splitter.{hold, same_text}
use shard_glm_image.Chat.Splitter.Whole.{
  whole_content, whole_between, whole_reasoning, answer_upto, answer_behind, thought_upto, join,
}

-- Nothing was let go, or as much was held back as can be.
pub kept : (h : ℕ) (v : Text) → (length v - h ≡ 0) ⊎ (length (drop (length v - h) v) ≡ h)
kept h v = cases (length v - h) refl
  where
    cases : (n : ℕ) → length v - h ≡ n → (n ≡ 0) ⊎ (length (drop n v) ≡ h)
    cases zero e = inl refl
    cases (suc n) e = inr (omega (arith, length-drop (suc n) v))

longest_above : (n : ℕ) (ms : List Text) → longest ms ≤ n → All (λ m. length m ≤ n) ms
unfolding longest
longest_above n [] h = tt
longest_above n (m ∷ ms) h = (omega (arith, h), longest_above n ms (omega (arith, h)))

longest_below : (n : ℕ) (ms : List Text) → All (λ m. length m ≤ n) ms → longest ms ≤ n
unfolding longest
longest_below n [] h = omega arith
longest_below n (m ∷ ms) h = omega (arith, h.0, longest_below n ms h.1)

module _ (k : Markers) where
  lengths : (n : ℕ) → n ≡ hold k → All (λ m. length m ≤ suc n) (all_markers k)
  unfolding hold
  lengths n e = longest_above (suc n) (all_markers k) (omega (arith, e))

  pub trimmed-hold : longest (trimmed k) - 1 ≤ hold k
  trimmed-hold =
      let (tb, (te, (rb, (re, (tcb, (me, (eom, end))))))) = lengths (hold k) refl in
      omega (
        arith,
        longest_below (suc (hold k)) (trimmed k) (re, (tcb, (me, (eom, (rb, (tb, (te, tt))))))),
      )

  pub content_end-hold : (n : ℕ) → n ≡ hold k → All (λ m. length m ≤ suc n) (content_end k)
  content_end-hold n e =
      let (tb, (te, (rb, (re, (tcb, (me, (eom, end))))))) = lengths n e in
      (re, (tcb, (me, (eom, tt))))

  pub between_hold :
      (n : ℕ) → n ≡ hold k → All (λ m. length m ≤ suc n) (k.response_begin ∷ k.toolcall_begin ∷ [])
  between_hold n e =
      let (tb, (te, (rb, (re, (tcb, (me, (eom, end))))))) = lengths n e in (rb, (tcb, tt))

  pub think_end_hold : (n : ℕ) → n ≡ hold k → All (λ m. length m ≤ suc n) (k.think_end ∷ [])
  think_end_hold n e = let (tb, (te, (rb, (re, (tcb, (me, (eom, end))))))) = lengths n e in (te, tt)

  upto_held :
      (a u : Text) (o : Option (ℕ × Text))
      → hold k ≤ length u
      → answer_upto k (a ++ u) (shift (length a) o) ≡ a ++ answer_upto k u o
  upto_held a u none h = trim_partial_held (trimmed k) a u (omega (arith, h, trimmed-hold))
  upto_held a u (some (i, m)) h = take_past a u i

  -- What was let go of an answer, and the rest.
  pub whole_content_held :
      (a b t : Text)
      → length b ≡ hold k
      → scan (content_end k) (a ++ b) ≡ none
      → whole_content k (a ++ (b ++ t)) ≡ a ++ whole_content k (b ++ t)
  unfolding whole_content
  whole_content_held a b t e clear =
      ap (answer_upto k (a ++ (b ++ t)))
        (scan_held (content_end k) a b t (content_end-hold (length b) e) clear)
      ∙ upto_held a (b ++ t) (scan (content_end k) (b ++ t)) (omega (arith, e, length-append b t))

  behind_held :
      (a u : Text) (o : Option (ℕ × Text))
      → answer_behind k (a ++ u) (shift (length a) o) ≡ answer_behind k u o
  behind_held a u none = refl
  behind_held a u (some (i, m)) =
      let e : length a + i + length m ≡ length a + (i + length m) = omega arith in
      ap (λ (v : Text). if same_text m k.response_begin then whole_content k v else [])
        (ap (λ (j : ℕ). drop j (a ++ u)) e ∙ drop_past a u (i + length m))

  pub whole_between_held :
      (a b t : Text)
      → length b ≡ hold k
      → scan (k.response_begin ∷ k.toolcall_begin ∷ []) (a ++ b) ≡ none
      → whole_between k (a ++ (b ++ t)) ≡ whole_between k (b ++ t)
  unfolding whole_between
  whole_between_held a b t e clear =
      let ms : List Text = k.response_begin ∷ k.toolcall_begin ∷ [] in
      ap (answer_behind k (a ++ (b ++ t))) (scan_held ms a b t (between_hold (length b) e) clear)
      ∙ behind_held a (b ++ t) (scan ms (b ++ t))

  thought_held :
      (a u : Text) (o : Option (ℕ × Text))
      → hold k ≤ length u
      → thought_upto k (a ++ u) (shift (length a) o) ≡ join (a, []) (thought_upto k u o)
  thought_held a u none h =
      ap (λ (r : Text). (r, []))
        (trim_partial_held (trimmed k) a u (omega (arith, h, trimmed-hold)))
  thought_held a u (some (i, m)) h =
      ap
        (λ (r : Text).
          (r, whole_between k (drop (length k.think_end) (drop (length a + i) (a ++ u)))))
        (take_past a u i)
      ∙ ap (λ (v : Text). (a ++ take i u, whole_between k (drop (length k.think_end) v)))
          (drop_past a u i)

  pub whole_reasoning_held :
      (a b t : Text)
      → length b ≡ hold k
      → scan (k.think_end ∷ []) (a ++ b) ≡ none
      → whole_reasoning k (a ++ (b ++ t)) ≡ join (a, []) (whole_reasoning k (b ++ t))
  unfolding whole_reasoning
  whole_reasoning_held a b t e clear =
      ap (thought_upto k (a ++ (b ++ t)))
        (scan_held (k.think_end ∷ []) a b t (think_end_hold (length b) e) clear)
      ∙ thought_held a (b ++ t) (scan (k.think_end ∷ []) (b ++ t))
          (omega (arith, e, length-append b t))
