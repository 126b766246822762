-- ===== src/Tests/Names.antt =====
-- Names of tensors, and where two checkpoints put their layers (shard/shard/weightkeys.py).
use shard_glm_image.Base.{◌≡◌, refl, none, some, List, [], ◌∷◌, ◌++◌, All, arith}
use shard_glm_image.Base.Sort.{insert_by, sort_by}
use shard_glm_image.Base.Text.{Text, codes, starts_with, same_text, decimal, decimal_from}
use shard_glm_image.Weights.{
  split_dots, join_dots, is_digit, number_from, number_of, layer_at, part_at, layer_of, embed,
  first_boundary, boundary_of, path_at,
}
use shard_glm_image.Weights.Layout.{
  add_path, add_layer, add_name, add_names, parent, score, decoder_tower, le_text, inside,
  lstrip_dots, pick, layout_of, namespace,
}
use shard_glm_image.Weights.Named.{IsPart, HasNoLayers, layer_of-join_dots}

program : Unit {0}
unfolding insert_by sort_by starts_with same_text decimal decimal_from split_dots join_dots is_digit
    number_from number_of layer_at part_at layer_of first_boundary boundary_of path_at add_path
    add_layer add_name add_names parent score decoder_tower le_text inside lstrip_dots pick
    layout_of namespace
program = tt

abbrev path : List Text
path = codes "language_model" ∷ codes "model" ∷ []

path-IsPart : All IsPart path
unfolding program
path-IsPart = ground arith

path-HasNoLayers : HasNoLayers path
unfolding program
path-HasNoLayers = (refl, (refl, tt))

mlp_parts : IsPart (codes "mlp") × All IsPart (codes "weight" ∷ [])
mlp_parts = ground arith

layer_of-join_dots_example :
    layer_of (join_dots (path ++ codes "layers" ∷ decimal 31 ∷ codes "mlp" ∷ codes "weight" ∷ []))
    ≡ some 31
layer_of-join_dots_example =
    layer_of-join_dots path 31 (codes "mlp") (codes "weight" ∷ []) path-IsPart path-HasNoLayers
      mlp_parts.0 mlp_parts.1

-- The number of an expert is not a layer.
expert : layer_of (codes "model.layers.3.experts.7.w1.weight") ≡ some 3
unfolding program
expert = refl

no_layer : layer_of (codes "model.experts.7.w1.weight") ≡ none
unfolding program
no_layer = refl

tied : boundary_of (codes "language_model.model.embed_tokens.weight") ≡ some embed
unfolding program
tied = refl

-- The names of a small checkpoint whose text stack stands beside a deeper encoder.
abbrev names : List Text
names =
    codes "audio.layers.0.w"
    ∷ codes "audio.layers.1.w"
    ∷ codes "text.model.layers.0.w"
    ∷ codes "text.model.embed_tokens.weight"
    ∷ codes "text.model.norm.weight"
    ∷ []

placed :
    namespace names
    ≡ some (record {
      inner = codes "text.model";
      layers = codes "text.model.layers";
      embed = codes "text.model.embed_tokens";
      norm = codes "text.model.norm";
      lm_head = codes "text.lm_head";
    })
unfolding program
placed = refl

unread : namespace (codes "visual.stem" ∷ []) ≡ none
unfolding program
unread = refl
