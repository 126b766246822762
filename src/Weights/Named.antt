-- ===== src/Weights/Named.antt =====
-- The number of a layer is read back from the names of its tensors (shard/shard/weightkeys.py `layer_of`).
use shard_glm_image.Base.{
  ℕ, zero, suc, ◌+◌, ◌-◌, ◌*◌, ◌/◌, ◌%◌, ◌≤◌, ◌<◌, ◌≡◌, ◌∙◌, ◌==◌, refl, ap, true, false,
  Bool-cases, Option, none, some, inl, inr, List, [], ◌∷◌, ◌++◌, All, arith, ltb, length,
}
use shard_glm_image.Base.Text.{Text, codes, same_text, decimal, decimal_from}
use shard_glm_image.Weights.{
  split_dots, join_dots, is_digit, number_from, number_of, layer_at, layer_of, one_on,
}

number_from-digit :
    (acc d : ℕ) (later : Text)
    → d < 10
    → number_from acc ((b'0' + d) ∷ later) ≡ number_from (acc * 10 + d) later
unfolding number_from is_digit
number_from-digit acc d later h =
    let digit : is_digit (b'0' + d) ≡ true = ground (arith, h) in
    let value : acc * 10 + ((b'0' + d) - b'0') ≡ acc * 10 + d = omega arith in
    rw digit (ap (λ (a : ℕ). number_from a later) value)

number_from-decimal_from :
    (fuel n : ℕ) (later : Text)
    → n < fuel
    → number_from 0 (decimal_from fuel n later) ≡ number_from n later
unfolding decimal_from
number_from-decimal_from zero n later h = absurd (omega (arith, h))
number_from-decimal_from (suc fuel) n later h = elim (Bool-cases (ltb n 10)) [
  | inl small ↦
      let value : 0 * 10 + n % 10 ≡ n = ground (arith, small) in
      rw small (
        number_from-digit 0 (n % 10) later (omega arith)
        ∙ ap (λ (a : ℕ). number_from a later) value)
  | inr large ↦
      let value : n / 10 * 10 + n % 10 ≡ n = omega arith in
      let less : n / 10 < fuel = ground (arith, large, h) in
      rw large (
        number_from-decimal_from fuel (n / 10) ((b'0' + n % 10) ∷ later) less
        ∙ number_from-digit (n / 10) (n % 10) later (omega arith)
        ∙ ap (λ (a : ℕ). number_from a later) value)
]

length-decimal_from :
    (fuel n : ℕ) (later : Text) → length later ≤ length (decimal_from fuel n later)
unfolding decimal_from
length-decimal_from zero n later = omega arith
length-decimal_from (suc fuel) n later = elim (Bool-cases (ltb n 10)) [
  | inl small ↦ rw small (omega arith)
  | inr large ↦
      rw large (omega (arith, length-decimal_from fuel (n / 10) ((b'0' + n % 10) ∷ later)))
]

length-decimal : (n : ℕ) → 0 < length (decimal n)
unfolding decimal decimal_from
length-decimal n = elim (Bool-cases (ltb n 10)) [
  | inl small ↦ rw small (omega arith)
  | inr large ↦ rw large (omega (arith, length-decimal_from n (n / 10) ((b'0' + n % 10) ∷ [])))
]

number_of-decimal : (n : ℕ) → number_of (decimal n) ≡ some n
unfolding number_of decimal
number_of-decimal n = some_digits (decimal n) (length-decimal n) (whole n)
  where
    some_digits : (t : Text) → 0 < length t → number_from 0 t ≡ some n → number_of t ≡ some n
    some_digits [] long h = absurd (omega (arith, long))
    some_digits (c ∷ t) long h = h

    whole : (n : ℕ) → number_from 0 (decimal n) ≡ some n
    whole n = number_from-decimal_from (suc n) n [] (omega arith)

-- Components without dots.
abbrev pub IsPart : Text → Type 0
IsPart part = All (λ c. (c == b'.') ≡ false) part

split_dots-part : (part : Text) → IsPart part → split_dots part ≡ part ∷ []
unfolding split_dots
split_dots-part [] h = refl
split_dots-part (c ∷ part) (plain, h) = rw (plain, split_dots-part part h) refl

split_dots-cons :
    (part t : Text) → IsPart part → split_dots (part ++ b'.' ∷ t) ≡ part ∷ split_dots t
unfolding split_dots
split_dots-cons [] t h = refl
split_dots-cons (c ∷ part) t (plain, h) = rw (plain, split_dots-cons part t h) refl

split_dots-join_dots :
    (part : Text) (parts : List Text)
    → IsPart part
    → All IsPart parts
    → split_dots (join_dots (part ∷ parts)) ≡ part ∷ parts
unfolding join_dots
split_dots-join_dots part [] h a = split_dots-part part h
split_dots-join_dots part (next ∷ parts) h (plain, a) =
    split_dots-cons part (join_dots (next ∷ parts)) h
    ∙ ap (◌∷◌ part) (split_dots-join_dots next parts plain a)

layer_at-cons :
    (a : Text) (parts : List Text)
    → same_text a (codes "layers") ≡ false
    → layer_at (a ∷ parts) ≡ one_on (layer_at parts)
unfolding layer_at
layer_at-cons a [] h = refl
layer_at-cons a (b ∷ []) h = refl
layer_at-cons a (b ∷ c ∷ parts) h = rw h refl

-- No component of a path is `layers`.
abbrev pub HasNoLayers : List Text → Type 0
HasNoLayers parts = All (λ part. same_text part (codes "layers") ≡ false) parts

decimal_from-IsPart :
    (fuel n : ℕ) (later : Text) → IsPart later → IsPart (decimal_from fuel n later)
unfolding decimal_from
decimal_from-IsPart zero n later h = h
decimal_from-IsPart (suc fuel) n later h =
    let digit : (b'0' + n % 10 == b'.') ≡ false = ground arith in
    elim (Bool-cases (ltb n 10)) [
      | inl small ↦ rw small (digit, h)
      | inr large ↦
          rw large (decimal_from-IsPart fuel (n / 10) ((b'0' + n % 10) ∷ later) (digit, h))
    ]

decimal-IsPart : (n : ℕ) → IsPart (decimal n)
unfolding decimal
decimal-IsPart n = decimal_from-IsPart (suc n) n [] tt

layers-IsPart : IsPart (codes "layers")
layers-IsPart = (refl, (refl, (refl, (refl, (refl, (refl, tt))))))

-- The components of a layer's tensor.
abbrev pub layer_parts : List Text → ℕ → Text → List Text → List Text
layer_parts path n part parts = path ++ codes "layers" ∷ decimal n ∷ part ∷ parts

layer_parts-IsPart :
    (path : List Text) (n : ℕ) (part : Text) (parts : List Text)
    → All IsPart path
    → IsPart part
    → All IsPart parts
    → split_dots (join_dots (layer_parts path n part parts)) ≡ layer_parts path n part parts
layer_parts-IsPart [] n part parts a plain b =
    split_dots-join_dots (codes "layers") (decimal n ∷ part ∷ parts) layers-IsPart
      (decimal-IsPart n, (plain, b))
layer_parts-IsPart (p ∷ path) n part parts (here, a) plain b =
    split_dots-join_dots p (layer_parts path n part parts) here (all_parts path a)
  where
    all_parts : (path : List Text) → All IsPart path → All IsPart (layer_parts path n part parts)
    all_parts [] a = (layers-IsPart, (decimal-IsPart n, (plain, b)))
    all_parts (q ∷ path) (here, a) = (here, all_parts path a)

layer_at-layer_parts :
    (path : List Text) (n : ℕ) (part : Text) (parts : List Text)
    → HasNoLayers path
    → layer_at (layer_parts path n part parts) ≡ some (length path, n)
unfolding layer_at same_text
layer_at-layer_parts [] n part parts a = rw (number_of-decimal n) refl
layer_at-layer_parts (p ∷ path) n part parts (other, a) =
    layer_at-cons p (layer_parts path n part parts) other
    ∙ ap one_on (layer_at-layer_parts path n part parts a)

-- Under any path of components none of which is `layers`, the tensors named `layers.<n>.` and more belong to layer n,
-- for every number n.
pub layer_of-join_dots :
    (path : List Text) (n : ℕ) (part : Text) (parts : List Text)
    → All IsPart path
    → HasNoLayers path
    → IsPart part
    → All IsPart parts
    → layer_of (join_dots (path ++ codes "layers" ∷ decimal n ∷ part ∷ parts)) ≡ some n
unfolding layer_of
layer_of-join_dots path n part parts a others plain b = ap number (
    ap layer_at (layer_parts-IsPart path n part parts a plain b)
    ∙ layer_at-layer_parts path n part parts others)
  where
    number : Option (ℕ × ℕ) → Option ℕ
    number o = elim o [ none ↦ none | some (i, m) ↦ some m ]
