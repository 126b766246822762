-- ===== src/Transport/Codec/Roundtrip.antt =====
-- A message that is packed is unpacked to itself (shard/shard/transport.py).
use mathlib.Core.List.{append_assoc, append-nil}
use shard_glm_image.Base.{
  ℕ, ◌+◌, ◌*◌, ◌≤◌, ◌<◌, ◌≡◌, ◌≢◌, ◌∙◌, refl, sym, ap, String, Option, none, some, List, [], ◌∷◌,
  ◌++◌, arith, length, take, drop, get_elem?, length-append, All, ltb, text_discrete, if_neg,
  Bool-cases, inl, inr,
}
use shard_glm_image.Transport.Bytes.{
  Bytes, pack_be, unpack_be, unpack_be-pack_be, length-pack_be, limit,
}
use shard_glm_image.Transport.Sending.{concat}
use shard_glm_image.Transport.Codec.{
  Json, Message, value, tensor, seq, dict, Items, none_left, item, Fields, no_field, field, encode,
  encode_items, encode_fields, find_key, blob_at, shape_of, numel, seq_of, dict_of, item_of,
  field_of, blob_parts, split_blobs, sized, tensor_of, object_of, decode, decode_items,
  decode_fields, pack_parts, opened, unpack,
}
use shard_glm_image.Transport.Codec.Shapes.{
  dims_of-shape_json, get_elem?-append, take_self, drop_self, take-pack_be, drop-pack_be,
  split_blobs-blob_parts,
}

module _ (dsize : String → Option ℕ) where
  -- A message that the codec carries: its tensors have known dtypes and exactly the bytes of their
  -- shape, and no key of a dictionary is the codec's own.
  unfoldable mutual
    pub IsPlain : Message → Type 0
    IsPlain (value a) = Unit
    IsPlain (tensor dtype shape blob) =
        (size : ℕ) × (dsize dtype ≡ some size) × (numel shape * size ≡ length blob)
    IsPlain (seq xs) = ArePlain xs
    IsPlain (dict fs) = HasPlain fs

    pub ArePlain : Items → Type 0
    ArePlain none_left = Unit
    ArePlain (item x xs) = IsPlain x × ArePlain xs

    pub HasPlain : Fields → Type 0
    HasPlain no_field = Unit
    HasPlain (field k x fs) = (k ≢ "__t__") × IsPlain x × HasPlain fs

  -- No member of an encoded dictionary has the codec's key.
  find_key-plain :
      (n : ℕ) (fs : Fields) → HasPlain fs → find_key (encode_fields n fs).0 "__t__" ≡ none
  unfolding find_key encode HasPlain
  find_key-plain n no_field h = refl
  find_key-plain n (field k x fs) (ne, p, ps) =
      if_neg (text_discrete k "__t__") ne _ _ ∙ find_key-plain (n + length (encode n x).1) fs ps

  sized-lem :
      (dtype : String) (size : ℕ) (shape : List ℕ) (blob : Bytes)
      → numel shape * size ≡ length blob
      → sized dsize dtype (some size) (some shape) (some blob) ≡ some (tensor dtype shape blob)
  unfolding sized
  sized-lem dtype size shape blob h = ground (arith, h)

  mutual
    unfolding decode encode IsPlain tensor_of object_of find_key text_discrete blob_at shape_of

    decode-encode :
        (m : Message) (n : ℕ) (pre post blobs : List Bytes)
        → IsPlain m
        → n ≡ length pre
        → blobs ≡ pre ++ ((encode n m).1 ++ post)
        → decode dsize blobs (encode n m).0 ≡ some m
    decode-encode (value a) n pre post blobs p c e = refl
    decode-encode (tensor dtype shape blob) n pre post blobs (size, known, fits) c e =
        let found : get_elem? blobs n ≡ some blob =
          ap (λ (b : List Bytes). get_elem? b n) e
          ∙ ap (get_elem? (pre ++ blob ∷ post)) c
          ∙ get_elem?-append pre post blob in
        rw (known, dims_of-shape_json shape, found) (sized-lem dtype size shape blob fits)
    decode-encode (seq xs) n pre post blobs p c e =
        ap seq_of (decode_items-encode xs n pre post blobs p c e)
    decode-encode (dict fs) n pre post blobs p c e =
        let ms = (encode_fields n fs).0 in
        ap
          (λ (o : Option Json).
            object_of dsize blobs o (find_key ms "dtype") (find_key ms "shape")
              (dict_of (decode_fields dsize blobs ms)))
          (find_key-plain n fs p)
        ∙ ap dict_of (decode_fields-encode fs n pre post blobs p c e)

    decode_items-encode :
        (xs : Items) (n : ℕ) (pre post blobs : List Bytes)
        → ArePlain xs
        → n ≡ length pre
        → blobs ≡ pre ++ ((encode_items n xs).1 ++ post)
        → decode_items dsize blobs (encode_items n xs).0 ≡ some xs
    decode_items-encode none_left n pre post blobs p c e = refl
    decode_items-encode (item x xs) n pre post blobs (p, ps) c e =
        let bs = (encode n x).1 in
        let bs' = (encode_items (n + length bs) xs).1 in
        let e' = e ∙ ap (λ (r : List Bytes). pre ++ r) (append_assoc bs bs' post) in
        let rest =
          decode_items-encode xs (n + length bs) (pre ++ bs) post blobs ps
            (omega (arith, c, length-append pre bs))
            (e' ∙ sym (append_assoc pre bs (bs' ++ post))) in
        ap
          (λ (o : Option Message).
            item_of o (decode_items dsize blobs (encode_items (n + length bs) xs).0))
          (decode-encode x n pre (bs' ++ post) blobs p c e')
        ∙ ap (item_of (some x)) rest

    decode_fields-encode :
        (fs : Fields) (n : ℕ) (pre post blobs : List Bytes)
        → HasPlain fs
        → n ≡ length pre
        → blobs ≡ pre ++ ((encode_fields n fs).1 ++ post)
        → decode_fields dsize blobs (encode_fields n fs).0 ≡ some fs
    decode_fields-encode no_field n pre post blobs p c e = refl
    decode_fields-encode (field k x fs) n pre post blobs (ne, p, ps) c e =
        let bs = (encode n x).1 in
        let bs' = (encode_fields (n + length bs) fs).1 in
        let e' = e ∙ ap (λ (r : List Bytes). pre ++ r) (append_assoc bs bs' post) in
        let rest =
          decode_fields-encode fs (n + length bs) (pre ++ bs) post blobs ps
            (omega (arith, c, length-append pre bs))
            (e' ∙ sym (append_assoc pre bs (bs' ++ post))) in
        ap
          (λ (o : Option Message).
            field_of k o (decode_fields dsize blobs (encode_fields (n + length bs) fs).0))
          (decode-encode x n pre (bs' ++ post) blobs p c e')
        ∙ ap (field_of k (some x)) rest

  module _ (dumps : Json → Bytes) (loads : Bytes → Option Json) where
    abbrev pub head_of : Message → Bytes
    head_of m = dumps (encode 0 m).0

    -- The bytes that the segments of a message join to.
    abbrev pub frame_of : Message → Bytes
    frame_of m = concat (pack_parts dsize dumps loads m)

    blob_sizes :
        (bs : List Bytes) (n : ℕ) → length (concat (blob_parts bs)) ≤ n → All (λ b. length b ≤ n) bs
    unfolding blob_parts
    blob_sizes [] n h = tt
    blob_sizes (b ∷ bs) n h =
        let rest = concat (blob_parts bs) in
        let size = length-append b rest in
        let whole = length-append (pack_be 8 (length b)) (b ++ rest) in
        (omega (arith, h, size, whole), blob_sizes bs n (omega (arith, h, size, whole)))

    fits_below :
        (bs : List Bytes) (n m : ℕ)
        → n < m
        → All (λ b. length b ≤ n) bs
        → All (λ b. length b < m) bs
    fits_below [] n m h a = tt
    fits_below (b ∷ bs) n m h a = (omega (arith, h, a.0), fits_below bs n m h a.1)

    unpack_long :
        (buf : Bytes)
        → 4 ≤ length buf
        → unpack dsize dumps loads buf
          ≡ opened dsize dumps loads
              (loads (take (unpack_be 0 (take 4 buf)) (drop 4 buf)))
              (split_blobs (length buf) (drop (unpack_be 0 (take 4 buf)) (drop 4 buf)))
    unfolding unpack
    unpack_long buf h = elim (Bool-cases (ltb (length buf) 4)) [
      | inl y ↦ absurd (ground (arith, y))
      | inr n ↦ rw n refl
    ]

    pub unpack-pack :
        (m : Message)
        → loads (head_of m) ≡ some (encode 0 m).0
        → IsPlain m
        → length (head_of m) < limit 4
        → length (frame_of m) < limit 8
        → unpack dsize dumps loads (frame_of m) ≡ some m
    unfolding pack_parts opened
    unpack-pack m sound p small fits =
        let blobs = (encode 0 m).1 in
        let head = head_of m in
        let tail = concat (blob_parts blobs) in
        let frame = (pack_be 4 (length head) ++ head) ++ tail in
        let prefix = append_assoc (pack_be 4 (length head)) head tail in
        let body : drop 4 frame ≡ head ++ tail =
          ap (drop 4) prefix ∙ drop-pack_be 4 (length head) (head ++ tail) in
        let size : unpack_be 0 (take 4 frame) ≡ length head =
          ap (unpack_be 0) (ap (take 4) prefix ∙ take-pack_be 4 (length head) (head ++ tail))
          ∙ unpack_be-pack_be 4 (length head) small in
        let h = length head in
        let n = length frame in
        let open_with = opened dsize dumps loads in
        let parts = length-append (pack_be 4 h ++ head) tail in
        let front = length-append (pack_be 4 h) head in
        let width = length-pack_be 4 h in
        unpack_long frame (omega (arith, parts, front, width))
        ∙ ap
            (λ (k : ℕ).
              open_with (loads (take k (drop 4 frame))) (split_blobs n (drop k (drop 4 frame))))
            size
        ∙ ap (λ (b : Bytes). open_with (loads (take h b)) (split_blobs n (drop h b))) body
        ∙ ap (λ (b : Bytes). open_with (loads b) (split_blobs n (drop h (head ++ tail))))
            (take_self head tail)
        ∙ ap (λ (o : Option Json). open_with o (split_blobs n (drop h (head ++ tail)))) sound
        ∙ ap (λ (b : Bytes). open_with (some (encode 0 m).0) (split_blobs n b))
            (drop_self head tail)
        ∙ ap (open_with (some (encode 0 m).0)) (
            split_blobs-blob_parts blobs n
              (fits_below blobs n (limit 8) fits (blob_sizes blobs n (omega (arith, parts))))
              (omega (arith, parts)))
        ∙ decode-encode m 0 [] [] blobs p refl (sym (append-nil blobs))
