-- ===== src/Transport/Codec/Shapes.antt =====
-- Shapes and blobs are read back (shard/shard/transport.py).
use shard_glm_image.Base.{
  ℕ, zero, suc, ◌≤◌, ◌<◌, ◌≡◌, ◌∙◌, refl, sym, ap, Option, none, some, List, [], ◌∷◌, ◌++◌, arith,
  length, take, drop, get_elem?, length-append, All, ltb, Bool-cases, inl, inr,
}
use shard_glm_image.Transport.Bytes.{
  Bytes, pack_be, unpack_be, unpack_be-pack_be, length-pack_be, limit,
}
use shard_glm_image.Transport.Sending.{concat}
use shard_glm_image.Transport.Codec.{shape_json, dims_of, blob_parts, split_blobs}

pub dims_of-shape_json : (shape : List ℕ) → dims_of (shape_json shape) ≡ some shape
unfolding dims_of shape_json
dims_of-shape_json [] = refl
dims_of-shape_json (d ∷ shape) = rw (dims_of-shape_json shape) refl

pub get_elem?-append :
    (pre post : List Bytes) (b : Bytes) → get_elem? (pre ++ b ∷ post) (length pre) ≡ some b
get_elem?-append [] post b = refl
get_elem?-append (a ∷ pre) post b = get_elem?-append pre post b

-- The first part of a text, by its length, and the rest.
pub take_self : (xs ys : Bytes) → take (length xs) (xs ++ ys) ≡ xs
take_self [] ys = refl
take_self (x ∷ xs) ys = ap (◌∷◌ x) (take_self xs ys)

pub drop_self : (xs ys : Bytes) → drop (length xs) (xs ++ ys) ≡ ys
drop_self [] ys = refl
drop_self (x ∷ xs) ys = drop_self xs ys

-- A length of `width` bytes in front of other bytes.
pub take-pack_be : (width n : ℕ) (ys : Bytes) → take width (pack_be width n ++ ys) ≡ pack_be width n
take-pack_be width n ys =
    ap (λ (k : ℕ). take k (pack_be width n ++ ys)) (sym (length-pack_be width n))
    ∙ take_self (pack_be width n) ys

pub drop-pack_be : (width n : ℕ) (ys : Bytes) → drop width (pack_be width n ++ ys) ≡ ys
drop-pack_be width n ys =
    ap (λ (k : ℕ). drop k (pack_be width n ++ ys)) (sym (length-pack_be width n))
    ∙ drop_self (pack_be width n) ys

-- The step of the loop that finds a blob.
abbrev found : Bytes → Option (List Bytes) → Option (List Bytes)
found b none = none
found b (some bs) = some (b ∷ bs)

split_step :
    (fuel : ℕ) (bytes : Bytes)
    → 8 ≤ length bytes
    → split_blobs (suc fuel) bytes
      ≡ found
          (take (unpack_be 0 (take 8 bytes)) (drop 8 bytes))
          (split_blobs fuel (drop (unpack_be 0 (take 8 bytes)) (drop 8 bytes)))
unfolding split_blobs
split_step fuel [] h = absurd (omega arith)
split_step fuel (b ∷ bytes) h = elim (Bool-cases (ltb (suc (length bytes)) 8)) [
  | inl y ↦ absurd (ground (arith, y))
  | inr n ↦ rw n refl
]

-- Blobs that each fit their length prefix are split apart again.
pub split_blobs-blob_parts :
    (bs : List Bytes) (fuel : ℕ)
    → All (λ b. length b < limit 8) bs
    → length (concat (blob_parts bs)) ≤ fuel
    → split_blobs fuel (concat (blob_parts bs)) ≡ some bs
unfolding blob_parts split_blobs
split_blobs-blob_parts [] fuel h e = refl
split_blobs-blob_parts (b ∷ bs) zero h e = absurd (omega arith)
split_blobs-blob_parts (b ∷ bs) (suc fuel) h e =
    let n = length b in
    let rest = concat (blob_parts bs) in
    let bytes = pack_be 8 n ++ (b ++ rest) in
    split_step fuel bytes (omega arith)
    ∙ ap
        (λ (p : Bytes).
          found (take (unpack_be 0 p) (drop 8 bytes))
            (split_blobs fuel (drop (unpack_be 0 p) (drop 8 bytes))))
        (take-pack_be 8 n (b ++ rest))
    ∙ ap (λ (k : ℕ). found (take k (drop 8 bytes)) (split_blobs fuel (drop k (drop 8 bytes))))
        (unpack_be-pack_be 8 n h.0)
    ∙ ap (λ (body : Bytes). found (take n body) (split_blobs fuel (drop n body)))
        (drop-pack_be 8 n (b ++ rest))
    ∙ ap (λ (x : Bytes). found x (split_blobs fuel (drop n (b ++ rest)))) (take_self b rest)
    ∙ ap (λ (x : Bytes). found b (split_blobs fuel x)) (drop_self b rest)
    ∙ ap (found b) (split_blobs-blob_parts bs fuel h.1 (omega (arith, e, length-append b rest)))
