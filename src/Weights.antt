-- ===== src/Weights.antt =====
-- shard/shard/weightkeys.py: which layer or which end of the model a tensor belongs to, by its name, and where a
-- checkpoint puts its layers. A match of one of the patterns is of whole components between dots, and a digit is one of
-- ASCII.
pub mod Layout
pub mod Named
use shard_glm_image.Base.{
  ℕ, zero, suc, ◌+◌, ◌-◌, ◌*◌, ◌==◌, Bool, true, false, not, ◌&&◌, ◌||◌, Option, none, some, List,
  [], ◌∷◌, ◌++◌, ltb, leb, if◌then◌else◌, length, take, map,
}
use shard_glm_image.Base.Sort.{sort_by}
use shard_glm_image.Base.Text.{Text, codes, starts_with, same_text}

-- The components of a name, at its dots.
unfoldable pub split_dots : Text → List Text
split_dots [] = [] ∷ []
split_dots (c ∷ t) = if c == b'.' then [] ∷ split_dots t else onto c (split_dots t)
  where
    onto : ℕ → List Text → List Text
    onto c [] = (c ∷ []) ∷ []
    onto c (part ∷ parts) = (c ∷ part) ∷ parts

unfoldable pub join_dots : List Text → Text
join_dots [] = []
join_dots (part ∷ []) = part
join_dots (part ∷ next ∷ parts) = part ++ b'.' ∷ join_dots (next ∷ parts)

unfoldable pub is_digit : ℕ → Bool
is_digit c = leb b'0' c && leb c b'9'

-- `\d+`, all of a component, and `int` of it.
unfoldable pub number_from : ℕ → Text → Option ℕ
unfolding is_digit
number_from acc [] = some acc
number_from acc (c ∷ t) =
    let rest = number_from (acc * 10 + (c - b'0')) t in if is_digit c then rest else none

unfoldable pub number_of : Text → Option ℕ
unfolding number_from
number_of [] = none
number_of (c ∷ t) = number_from 0 (c ∷ t)

-- A place of a name and the number there.
abbrev pub one_on : Option (ℕ × ℕ) → Option (ℕ × ℕ)
one_on none = none
one_on (some (i, n)) = some (suc i, n)

abbrev pub here_or : Option ℕ → Option (ℕ × ℕ) → Option (ℕ × ℕ)
here_or none other = other
here_or (some n) other = some (0, n)

-- `_LAYER_RE.search`, in the components: where `layers` stands before a number that is not the last component.
unfoldable pub layer_at : List Text → Option (ℕ × ℕ)
unfolding same_text number_of
layer_at [] = none
layer_at (a ∷ []) = none
layer_at (a ∷ b ∷ []) = none
layer_at (a ∷ b ∷ c ∷ parts) =
    let later = one_on (layer_at (b ∷ c ∷ parts)) in
    if same_text a (codes "layers") then here_or (number_of b) later else later

-- `_EMBED_RE.search`, `_NORM_RE.search` and `_HEAD_RE.search`, in the components.
unfoldable pub part_at : Text → List Text → Option ℕ
unfolding same_text
part_at word [] = none
part_at word (a ∷ parts) =
    let later : Option ℕ = elim (part_at word parts) [ none ↦ none | some i ↦ some (suc i) ] in
    if same_text a word then some 0 else later

unfoldable pub layer_of : Text → Option ℕ
unfolding layer_at split_dots
layer_of tensor = elim (layer_at (split_dots tensor)) [ none ↦ none | some (i, n) ↦ some n ]

pub data Boundary : Type 0 where
  embed norm lm_head : Boundary

abbrev pub word_of : Boundary → Text
word_of embed = codes "embed_tokens"
word_of norm = codes "norm"
word_of lm_head = codes "lm_head"

-- The first of the boundaries that is a component, with its place.
unfoldable pub first_boundary : List Boundary → List Text → Option (Boundary × ℕ)
unfolding part_at
first_boundary [] parts = none
first_boundary (b ∷ bs) parts =
    let later = first_boundary bs parts in
    elim (part_at (word_of b) parts) [ none ↦ later | some i ↦ some (b, i) ]

abbrev pub boundaries : List Boundary
boundaries = embed ∷ norm ∷ lm_head ∷ []

abbrev pub boundary_at : List Text → Option (Boundary × ℕ)
unfolding layer_at first_boundary
boundary_at parts = elim (layer_at parts) [
  | some found ↦ none
  | none ↦ first_boundary boundaries parts
]

unfoldable pub boundary_of : Text → Option Boundary
unfolding boundary_at split_dots layer_at first_boundary
boundary_of tensor = elim (boundary_at (split_dots tensor)) [ none ↦ none | some (b, i) ↦ some b ]

-- `_path_at`, of a match that ends with the component at `i`.
unfoldable pub path_at : List Text → ℕ → Text
unfolding join_dots
path_at parts i = join_dots (take (suc i) parts)
