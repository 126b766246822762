-- ===== src/Chat/Splitter/Empty.antt =====
-- Nothing is made of the empty text (shard/engines/kimi_k3/k3_tools.py).
use shard_glm_image.Base.{
  ℕ, zero, suc, ◌+◌, ◌≡◌, ◌∙◌, refl, ap, Bool, true, false, Bool-cases, Option, none, some, inl,
  inr, [], ◌∷◌, if◌then◌else◌, length, take, drop,
}
use shard_glm_image.Base.Text.{Text, starts_with}
use shard_glm_image.Chat.Markers.{Markers, content_end, trimmed, removeprefix}
use shard_glm_image.Chat.Markers.Scan.{scan}
use shard_glm_image.Chat.Markers.Single.{trim_partial_nil}
use shard_glm_image.Chat.Splitter.{same_text}
use shard_glm_image.Chat.Splitter.Whole.{
  whole_content, whole_between, whole_reasoning, answer_upto, answer_behind, thought_upto,
}

take_nil : (n : ℕ) → ◌≡◌ {A = Text} (take n []) []
take_nil zero = refl
take_nil (suc n) = refl

pub drop_nil : (n : ℕ) → ◌≡◌ {A = Text} (drop n []) []
drop_nil zero = refl
drop_nil (suc n) = refl

pub removeprefix_nil : (m : Text) → removeprefix [] m ≡ []
unfolding removeprefix
removeprefix_nil m = elim (Bool-cases (starts_with [] m)) [
  | inl y ↦ rw y (drop_nil (length m))
  | inr n ↦ rw n refl
]

module _ (k : Markers) where
  pub whole_content_nil : whole_content k [] ≡ []
  unfolding whole_content
  whole_content_nil = upto (scan (content_end k) [])
    where
      upto : (o : Option (ℕ × Text)) → answer_upto k [] o ≡ []
      upto none = trim_partial_nil (trimmed k)
      upto (some (i, m)) = take_nil i

  whole_between_nil : whole_between k [] ≡ []
  unfolding whole_between
  whole_between_nil = behind (scan (k.response_begin ∷ k.toolcall_begin ∷ []) [])
    where
      choose : (b : Bool) (u : Text) → u ≡ [] → (if b then whole_content k u else []) ≡ []
      choose true u e = ap (whole_content k) e ∙ whole_content_nil
      choose false u e = refl

      behind : (o : Option (ℕ × Text)) → answer_behind k [] o ≡ []
      behind none = refl
      behind (some (i, m)) =
          choose (same_text m k.response_begin) (drop (i + length m) []) (drop_nil (i + length m))

  pub whole_reasoning_nil : whole_reasoning k [] ≡ ([], [])
  unfolding whole_reasoning
  whole_reasoning_nil = upto (scan (k.think_end ∷ []) [])
    where
      upto : (o : Option (ℕ × Text)) → thought_upto k [] o ≡ ([], [])
      upto none = ap (λ (t : Text). (t, [])) (trim_partial_nil (trimmed k))
      upto (some (i, m)) =
          ap (λ (t : Text). (t, whole_between k (drop (length k.think_end) (drop i []))))
            (take_nil i)
          ∙ ap (λ (u : Text). ([], whole_between k (drop (length k.think_end) u))) (drop_nil i)
          ∙ ap (λ (u : Text). ([], whole_between k u)) (drop_nil (length k.think_end))
          ∙ ap (λ (c : Text). ([], c)) whole_between_nil
