-- ===== src/Chat/Completion/Answers.antt =====
-- The answer behind a thought, as it is parsed and as it is streamed (shard/engines/kimi_k3/k3_tools.py).
use shard_glm_image.Base.{
  ℕ, ◌+◌, ◌≡◌, ◌∙◌, ◌⊎◌, refl, sym, ap, Bool, true, false, Bool-cases, Option, none, some,
  Option-cases, inl, inr, List, [], ◌∷◌, if◌then◌else◌, length, take, drop, arith,
}
use shard_glm_image.Base.Text.{Text, find}
use shard_glm_image.Chat.Markers.{Markers, content_end, trimmed, first, trim_partial}
use shard_glm_image.Chat.Markers.Scan.{scan, place, first-scan, earliest-scan, find-scan}
use shard_glm_image.Chat.Markers.Single.{scan_alone_none, scan_alone_some, scan_of_two}
use shard_glm_image.Chat.Splitter.Empty.{whole_content_nil}
use shard_glm_image.Chat.Splitter.{same_text}
use shard_glm_image.Chat.Splitter.Whole.{whole_content, whole_between, answer_upto, answer_behind}
use shard_glm_image.Chat.Completion.{opened_content, closed_content, or_none}

-- `x or ""`, of what a message says.
abbrev pub or_nothing : Option Text → Text
or_nothing none = []
or_nothing (some t) = t

pub or_nothing_none : (t : Text) → or_nothing (or_none t) ≡ t
or_nothing_none [] = refl
or_nothing_none (c ∷ t) = refl

pub same_text_refl : (t : Text) → same_text t t ≡ true
unfolding same_text
same_text_refl [] = refl
same_text_refl (c ∷ t) = ground (arith, same_text_refl t)

pub same_text-eq : (s t : Text) → same_text s t ≡ true → s ≡ t
unfolding same_text
same_text-eq [] [] h = refl
same_text-eq [] (b ∷ t) h = cc
same_text-eq (a ∷ s) [] h = cc
same_text-eq (a ∷ s) (b ∷ t) h = ground (arith, same_text-eq s t (ground (arith, h)))

module _ (k : Markers) where
  pub closed-whole_content : (u : Text) → closed_content k u ≡ whole_content k u
  unfolding closed_content whole_content
  closed-whole_content u =
      rw (earliest-scan u (content_end k), closed_content) (cut (scan (content_end k) u))
    where
      cut :
          (o : Option (ℕ × Text))
          → elim (place o) as (λ x. Text) [ none ↦ trim_partial (trimmed k) u | some j ↦ take j u ]
            ≡ answer_upto k u o
      cut none = refl
      cut (some (i, m)) = refl

  abbrev pub gap : List Text
  gap = k.response_begin ∷ k.toolcall_begin ∷ []

  -- Tool calls that come before the answer, with an opener of the answer behind them, do not occur.
  abbrev pub ToolsLast : Text → Type 0
  ToolsLast u = (i : ℕ) → first u gap ≡ some (i, k.toolcall_begin) → find u k.response_begin ≡ none

  pub opened_none : (u : Text) → find u k.response_begin ≡ none → opened_content k true u ≡ []
  unfolding opened_content
  opened_none u e = rw (e, opened_content) refl

  pub opened_some :
      (u : Text) (i : ℕ)
      → find u k.response_begin ≡ some i
      → opened_content k true u ≡ drop (i + length k.response_begin) u
  unfolding opened_content
  opened_some u i e = rw (e, opened_content) refl

  -- The answer behind a closed think channel.
  pub answer_agrees :
      (u : Text) → ToolsLast u → closed_content k (opened_content k true u) ≡ whole_between k u
  unfolding whole_between
  answer_agrees u ordered = elim (Option-cases (scan gap u)) [
    | inl e ↦
        let nothing =
          find-scan u k.response_begin
          ∙ ap place (scan_alone_none k.response_begin (k.toolcall_begin ∷ []) u e) in
        ap (closed_content k) (opened_none u nothing)
        ∙ closed-whole_content []
        ∙ whole_content_nil k
        ∙ sym (ap (answer_behind k u) e)
    | inr ((i, m), e) ↦ elim (Bool-cases (same_text m k.response_begin)) [
      | inl y ↦
          let is : m ≡ k.response_begin = same_text-eq m k.response_begin y in
          let alone =
            scan_alone_some k.response_begin (k.toolcall_begin ∷ []) u i
              (e ∙ ap (λ (n : Text). some (i, n)) is) in
          let at = find-scan u k.response_begin ∙ ap place alone in
          ap (closed_content k) (opened_some u i at)
          ∙ closed-whole_content (drop (i + length k.response_begin) u)
          ∙ ap (λ (n : Text). whole_content k (drop (i + length n) u)) (sym is)
          ∙ sym (ap (λ (b : Bool). if b then whole_content k (drop (i + length m) u) else []) y)
          ∙ sym (ap (answer_behind k u) e)
      | inr n ↦
          let is : m ≡ k.toolcall_begin =
            other m (scan_of_two k.response_begin k.toolcall_begin u i m e) n in
          let nothing = ordered i (first-scan u gap ∙ e ∙ ap (λ (t : Text). some (i, t)) is) in
          ap (closed_content k) (opened_none u nothing)
          ∙ closed-whole_content []
          ∙ whole_content_nil k
          ∙ sym (ap (λ (b : Bool). if b then whole_content k (drop (i + length m) u) else []) n)
          ∙ sym (ap (answer_behind k u) e)
    ]
  ]
    where
      other :
          (m : Text)
          → (m ≡ k.response_begin) ⊎ (m ≡ k.toolcall_begin)
          → same_text m k.response_begin ≡ false
          → m ≡ k.toolcall_begin
      other m (inl p) n = absurd (
          cc (
            sym
              (ap (λ (t : Text). same_text t k.response_begin) p ∙ same_text_refl k.response_begin)
            ∙ n))
      other m (inr p) n = p
