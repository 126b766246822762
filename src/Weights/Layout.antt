-- ===== src/Weights/Layout.antt =====
-- shard/shard/weightkeys.py `namespace`: where a checkpoint puts its layers and its ends. A set of paths is a list
-- without repetitions.
use shard_glm_image.Base.{
  ℕ, ◌+◌, ◌-◌, ◌==◌, Bool, true, false, ◌&&◌, ◌||◌, Option, none, some, List, [], ◌∷◌, ◌++◌, ltb,
  if◌then◌else◌, length, take,
}
use shard_glm_image.Base.Sort.{sort_by}
use shard_glm_image.Base.Text.{Text, codes, starts_with, same_text}
use shard_glm_image.Weights.{
  Boundary, embed, norm, lm_head, split_dots, join_dots, layer_at, path_at, boundaries,
  first_boundary,
}

abbrev pub is_path : Text → List Text → Bool
is_path path [] = false
is_path path (p ∷ paths) = same_text p path || is_path path paths

-- `set.add`
unfoldable pub add_path : Text → List Text → List Text
unfolding same_text
add_path path paths = if is_path path paths then paths else paths ++ path ∷ []

-- `towers`, each path with its layers, and `edges`.
pub record Found : Type 0 where
  pub towers : List (Text × List ℕ)
  pub embeds : List Text
  pub norms : List Text
  pub heads : List Text

abbrev pub is_number : ℕ → List ℕ → Bool
is_number n [] = false
is_number n (m ∷ ms) = m == n || is_number n ms

-- `towers.setdefault(path, set()).add(n)`
unfoldable pub add_layer : Text → ℕ → List (Text × List ℕ) → List (Text × List ℕ)
unfolding same_text
add_layer path n [] = (path, n ∷ []) ∷ []
add_layer path n ((q, ns) ∷ towers) =
    if same_text q path
    then (q, if is_number n ns then ns else n ∷ ns) ∷ towers
    else (q, ns) ∷ add_layer path n towers

abbrev pub add_edge : Found → Boundary → Text → Found
unfolding add_path
add_edge f embed path = record f { embeds = add_path path f.embeds }
add_edge f norm path = record f { norms = add_path path f.norms }
add_edge f lm_head path = record f { heads = add_path path f.heads }

-- One name of the loop of `namespace`.
abbrev pub add_boundary : Found → List Text → Option (Boundary × ℕ) → Found
unfolding add_path path_at
add_boundary f parts none = f
add_boundary f parts (some (b, i)) = add_edge f b (path_at parts i)

unfoldable pub add_name : Found → Text → Found
unfolding layer_at first_boundary split_dots path_at add_layer add_boundary
add_name f tensor =
    let parts = split_dots tensor in
    elim (layer_at parts) [
      | some (i, n) ↦ record f { towers = add_layer (path_at parts i) n f.towers }
      | none ↦ add_boundary f parts (first_boundary boundaries parts)
    ]

unfoldable pub add_names : Found → List Text → Found
unfolding add_name
add_names f [] = f
add_names f (tensor ∷ names) = add_names (add_name f tensor) names

-- `path.rsplit(".", 1)[0] if "." in path else ""`
unfoldable pub parent : Text → Text
unfolding split_dots join_dots
parent path = let parts = split_dots path in join_dots (take (length parts - 1) parts)

abbrev pub under_it : Text → List Text → Bool
unfolding parent same_text
under_it inner [] = false
under_it inner (c ∷ cs) = same_text (parent c) inner || under_it inner cs

abbrev pub vote : Bool → ℕ
vote true = 1
vote false = 0

-- `score` of `_decoder_tower`.
unfoldable pub score : Found → Text × List ℕ → ℕ × ℕ
unfolding parent same_text under_it
score f (path, layers) =
    let inner = parent path in
    (vote (under_it inner f.embeds) + vote (under_it inner f.norms), length layers)

abbrev pub less_score : ℕ × ℕ → ℕ × ℕ → Bool
less_score (v, n) (w, m) = ltb v w || (v == w && ltb n m)

-- `max` with a key: the first of the largest.
unfoldable pub decoder_tower : Found → Text × List ℕ → List (Text × List ℕ) → Text
unfolding score
decoder_tower f (path, layers) [] = path
decoder_tower f best (tower ∷ towers) =
    let other = decoder_tower f tower towers in
    let same = decoder_tower f best towers in
    if less_score (score f best) (score f tower) then other else same

-- `<=` on texts.
unfoldable pub le_text : Text → Text → Bool
le_text [] t = true
le_text (a ∷ s) [] = false
le_text (a ∷ s) (b ∷ t) = ltb a b || (a == b && le_text s t)

unfoldable pub inside : Text → List Text → List Text
unfolding starts_with
inside [] paths = paths
inside (u ∷ under) [] = []
inside (u ∷ under) (c ∷ paths) =
    let rest = inside (u ∷ under) paths in
    if starts_with c ((u ∷ under) ++ b'.' ∷ []) then c ∷ rest else rest

abbrev pub first_of : List Text → Text → Text
first_of [] other = other
first_of (c ∷ paths) other = c

-- `t.lstrip(".")`
unfoldable pub lstrip_dots : Text → Text
lstrip_dots [] = []
lstrip_dots (c ∷ t) = let rest = lstrip_dots t in if c == b'.' then rest else c ∷ t

-- `(inside or found or [default.lstrip(".")])[0]`
unfoldable pub pick : Text → Text → List Text → Text
unfolding inside sort_by le_text lstrip_dots
pick under word paths =
    let found = sort_by le_text paths in
    first_of (inside under found) (first_of found (lstrip_dots (under ++ b'.' ∷ word)))

pub record Layout : Type 0 where
  pub inner : Text
  pub layers : Text
  pub embed : Text
  pub norm : Text
  pub lm_head : Text

-- `HF_LAYOUT`
abbrev pub hf_layout : Layout
hf_layout = record {
  inner = codes "model";
  layers = codes "model.layers";
  embed = codes "model.embed_tokens";
  norm = codes "model.norm";
  lm_head = codes "lm_head";
}

unfoldable pub layout_of : Found → Option Layout
unfolding decoder_tower parent pick
layout_of f = elim f.towers [
  | [] ↦ none
  | tower ∷ towers ↦
      let layers = decoder_tower f tower towers in
      let inner = parent layers in
      some (record {
        inner = inner;
        layers = layers;
        embed = pick inner (codes "embed_tokens") f.embeds;
        norm = pick inner (codes "norm") f.norms;
        lm_head = pick (parent inner) (codes "lm_head") f.heads;
      })
]

-- `namespace`, with `none` for the `ValueError`.
unfoldable pub namespace : List Text → Option Layout
unfolding add_names layout_of
namespace [] = some hf_layout
namespace (tensor ∷ names) =
    layout_of
      (add_names (record { towers = []; embeds = []; norms = []; heads = [] }) (tensor ∷ names))
