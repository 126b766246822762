-- ===== src/Coordinate/Stream/Visible.antt =====
-- The visible slice of a text only grows when the text does (shard/shard/coordinate.py `_visible`).
use shard_glm_image.Base.{
  ℕ, ◌+◌, ◌≡◌, refl, Option, none, some, List, [], ◌∷◌, ◌++◌, length, drop, arith, Bool, Bool-cases,
  Option-cases, inl, inr, ◌==◌,
}
use shard_glm_image.Base.Text.Start.{find-le, find-append}
use shard_glm_image.Coordinate.Stream.{
  find, next, skip_newlines, newline, Marker, locate, slice_from, first_eos, cap_at,
}
use shard_glm_image.Base.Prefix.{Extends, Extends-nil, Extends-cons, drop-Extends}

skip_newlines-Extends :
    (text more : List ℕ) → Extends (skip_newlines text) (skip_newlines (text ++ more))
unfolding skip_newlines
skip_newlines-Extends [] more = Extends-nil (skip_newlines more)
skip_newlines-Extends (a ∷ text) more = elim (Bool-cases (a == newline)) [
  | inl e ↦ rw e (skip_newlines-Extends text more)
  | inr e ↦ rw e (more, refl)
]

-- The visible slice of a text, by a fresh search.
abbrev pub shown : Marker → List ℕ → List ℕ
shown marker text = slice_from marker (locate marker none text) text

shown-miss : (sub text : List ℕ) → find text sub ≡ none → shown (some sub) text ≡ []
unfolding locate slice_from
shown-miss sub text h = ground arith

shown-hit :
    (sub text : List ℕ) (j : ℕ)
    → find text sub ≡ some j
    → shown (some sub) text ≡ skip_newlines (drop (j + length sub) text)
unfolding locate slice_from
shown-hit sub text j h = ground arith

pub shown-append :
    (marker : Marker) (text more : List ℕ)
    → Extends (shown marker text) (shown marker (text ++ more))
unfolding locate slice_from
shown-append none text more = (more, refl)
shown-append (some sub) text more = elim (Option-cases (find text sub)) [
  | inl miss ↦ rw (shown-miss sub text miss) (Extends-nil _)
  | inr (j, hit) ↦
      rw
        (
          shown-hit sub text j hit,
          shown-hit sub (text ++ more) j (find-append text more sub j hit),
          drop-Extends (j + length sub) text more (find-le text sub j hit),
        )
        (skip_newlines-Extends (drop (j + length sub) text) more)
]

cap-next : (o : Option ℕ) (t : ℕ) (out : List ℕ) → cap_at (next o) (t ∷ out) ≡ t ∷ cap_at o out
unfolding cap_at
cap-next none t out = refl
cap-next (some i) t out = refl

-- Cutting at the first end token keeps the order of growth.
pub cap-append :
    (is_eos : ℕ → Bool) (out more : List ℕ)
    → Extends
        (cap_at (first_eos is_eos out) out)
        (cap_at (first_eos is_eos (out ++ more)) (out ++ more))
unfolding first_eos cap_at
cap-append is_eos [] more = Extends-nil _
cap-append is_eos (t ∷ out) more = elim (Bool-cases (is_eos t)) [
  | inl e ↦ rw e (Extends-nil _)
  | inr e ↦
      rw
        (
          e,
          cap-next (first_eos is_eos out) t out,
          cap-next (first_eos is_eos (out ++ more)) t (out ++ more),
        )
        (Extends-cons t _ _ (cap-append is_eos out more))
]

-- The first end token of an output is the first of every longer one.
pub first_eos-append :
    (is_eos : ℕ → Bool) (out more : List ℕ) (i : ℕ)
    → first_eos is_eos out ≡ some i
    → first_eos is_eos (out ++ more) ≡ some i
unfolding first_eos
first_eos-append is_eos [] more i h = cc
first_eos-append is_eos (t ∷ out) more i h = elim (Option-cases (first_eos is_eos out)) [
  | inl miss ↦ ground arith
  | inr (k, hit) ↦ ground (arith, first_eos-append is_eos out more k hit)
]
