-- ===== src/Chat/Completion/Attrs/Escaped.antt =====
-- Attribute values are unescaped to what was escaped (shard/engines/kimi_k3/k3_tools.py `_unescape_attr`).
use shard_glm_image.Base.{
  ℕ, ◌==◌, ◌≡◌, ◌∙◌, refl, ap, false, Bool-cases, inl, inr, [], ◌∷◌, ◌++◌, arith,
}
use shard_glm_image.Base.Text.{Text, codes, starts_with}
use shard_glm_image.Chat.Completion.Attrs.{replace_from, replace, unescape_attr, quote, ampersand}

-- `&` as `&amp;`, then `"` as `&quot;`.
abbrev escaped : Text → Text
escaped v = replace (replace v (ampersand ∷ []) (codes "&amp;")) (quote ∷ []) (codes "&quot;")

escaped-ampersand : (t : Text) → escaped (ampersand ∷ t) ≡ codes "&amp;" ++ escaped t
unfolding replace replace_from starts_with
escaped-ampersand t = refl

escaped-quote : (t : Text) → escaped (quote ∷ t) ≡ codes "&quot;" ++ escaped t
unfolding replace replace_from starts_with
escaped-quote t = refl

escaped_other :
    (c : ℕ) (t : Text)
    → (c == ampersand) ≡ false
    → (c == quote) ≡ false
    → escaped (c ∷ t) ≡ c ∷ escaped t
unfolding replace replace_from starts_with
escaped_other c t a q = rw a (rw q refl)

unescape_ampersand : (t : Text) → unescape_attr (codes "&amp;" ++ t) ≡ ampersand ∷ unescape_attr t
unfolding unescape_attr replace replace_from starts_with
unescape_ampersand t = refl

unescape_quote : (t : Text) → unescape_attr (codes "&quot;" ++ t) ≡ quote ∷ unescape_attr t
unfolding unescape_attr replace replace_from starts_with
unescape_quote t = refl

unescape_other :
    (c : ℕ) (t : Text) → (c == ampersand) ≡ false → unescape_attr (c ∷ t) ≡ c ∷ unescape_attr t
unfolding unescape_attr replace replace_from starts_with
unescape_other c t h = rw h (rw h refl)

-- A value in which `&` was written `&amp;` and then `"` as `&quot;` is read back as it was, whatever entities the value
-- itself spells out.
pub unescape_attr-replace :
    (v : Text)
    → unescape_attr
        (replace (replace v (ampersand ∷ []) (codes "&amp;")) (quote ∷ []) (codes "&quot;"))
      ≡ v
unfolding unescape_attr replace replace_from
unescape_attr-replace [] = refl
unescape_attr-replace (c ∷ t) = elim (Bool-cases (c == ampersand)) [
  | inl yes_a ↦
      let here : c ≡ ampersand = ground (arith, yes_a) in
      ap (λ (d : ℕ). unescape_attr (escaped (d ∷ t))) here
      ∙ ap unescape_attr (escaped-ampersand t)
      ∙ unescape_ampersand (escaped t)
      ∙ cc (here, unescape_attr-replace t)
  | inr no_a ↦ elim (Bool-cases (c == quote)) [
    | inl yes_q ↦
        let here : c ≡ quote = ground (arith, yes_q) in
        ap (λ (d : ℕ). unescape_attr (escaped (d ∷ t))) here
        ∙ ap unescape_attr (escaped-quote t)
        ∙ unescape_quote (escaped t)
        ∙ cc (here, unescape_attr-replace t)
    | inr no_q ↦
        ap unescape_attr (escaped_other c t no_a no_q)
        ∙ unescape_other c (escaped t) no_a
        ∙ ap (◌∷◌ c) (unescape_attr-replace t)
  ]
]
