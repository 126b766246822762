-- ===== src/Transport/Codec.antt =====
-- `_pack_parts` and `_unpack` (shard/shard/transport.py): a message as a JSON header and the bytes of its
-- tensors. A tensor is its dtype, its shape and the bytes of its storage.
pub mod Shapes
pub mod Roundtrip
pub mod Delivery
use mathlib.Core.List.{append_assoc}
use shard_glm_image.Base.{
  ℕ, zero, suc, ◌+◌, ◌-◌, ◌*◌, String, ite, if◌then◌else◌, Option, none, some, List, [], ◌∷◌, ◌++◌,
  Bool, true, false, ltb, ◌==◌, length, take, drop, get_elem?, text_discrete,
}
use shard_glm_image.Base.Int.{ℤ, pos, negsuc}
use shard_glm_image.Transport.Bytes.{Bytes, pack_be, unpack_be}

-- What JSON writes as it stands.
pub data Atom : Type 0 where
  null : Atom
  flag : Bool → Atom
  int : ℤ → Atom
  real : ℕ → Atom
  text : String → Atom

mutual
  pub data Json : Type 0 where
    atom : Atom → Json
    arr : Jsons → Json
    obj : Members → Json

  pub data Jsons : Type 0 where
    nil : Jsons
    cons : Json → Jsons → Jsons

  pub data Members : Type 0 where
    end : Members
    member : String → Json → Members → Members

mutual
  pub data Message : Type 0 where
    value : Atom → Message
    tensor : String → List ℕ → Bytes → Message
    seq : Items → Message
    dict : Fields → Message

  pub data Items : Type 0 where
    none_left : Items
    item : Message → Items → Items

  pub data Fields : Type 0 where
    no_field : Fields
    field : String → Message → Fields → Fields

-- `list(t.shape)`
unfoldable pub shape_json : List ℕ → Jsons
shape_json [] = nil
shape_json (d ∷ shape) = cons (atom (int (pos d))) (shape_json shape)

-- The node that stands for the blob with number `n`.
abbrev pub reference : ℕ → String → List ℕ → Json
reference n dtype shape = obj (
    member "__t__" (atom (int (pos n)))
      (member "dtype" (atom (text dtype)) (member "shape" (arr (shape_json shape)) end)))

-- `encode`, after `n` blobs: the JSON, and the blobs that it adds.
unfoldable mutual
  unfolding shape_json

  pub encode : ℕ → Message → Json × List Bytes
  encode n (value a) = (atom a, [])
  encode n (tensor dtype shape blob) = (reference n dtype shape, blob ∷ [])
  encode n (seq xs) = let (js, bs) = encode_items n xs in (arr js, bs)
  encode n (dict fs) = let (ms, bs) = encode_fields n fs in (obj ms, bs)

  pub encode_items : ℕ → Items → Jsons × List Bytes
  encode_items n none_left = (nil, [])
  encode_items n (item x xs) =
      let (j, bs) = encode n x in
      let (js, bs') = encode_items (n + length bs) xs in (cons j js, bs ++ bs')

  pub encode_fields : ℕ → Fields → Members × List Bytes
  encode_fields n no_field = (end, [])
  encode_fields n (field k x fs) =
      let (j, bs) = encode n x in
      let (ms, bs') = encode_fields (n + length bs) fs in (member k j ms, bs ++ bs')

-- `node[key]`
unfoldable pub find_key : Members → String → Option Json
unfolding text_discrete
find_key end key = none
find_key (member k j ms) key = ite (text_discrete k key) (some j) (find_key ms key)

-- `blobs[i]`: a negative index counts from the end.
unfoldable pub blob_at : List Bytes → Json → Option Bytes
blob_at blobs (atom (int (pos i))) = get_elem? blobs i
blob_at blobs (atom (int (negsuc n))) =
    if ltb n (length blobs) then get_elem? blobs (length blobs - suc n) else none
blob_at blobs (atom (flag false)) = get_elem? blobs 0
blob_at blobs (atom (flag true)) = get_elem? blobs 1
blob_at blobs other = none

-- The dims of a shape: each an `int` that is not negative.
unfoldable pub dims_of : Jsons → Option (List ℕ)
dims_of nil = some []
dims_of (cons (atom (int (pos d))) js) = elim (dims_of js) [ none ↦ none | some ds ↦ some (d ∷ ds) ]
dims_of (cons (atom (flag b)) js) = elim (dims_of js) [
  | none ↦ none
  | some ds ↦ some ((if b then 1 else 0) ∷ ds)
]
dims_of (cons other js) = none

unfoldable pub shape_of : Json → Option (List ℕ)
unfolding dims_of
shape_of (arr js) = dims_of js
shape_of other = none

unfoldable pub numel : List ℕ → ℕ
numel [] = 1
numel (d ∷ shape) = d * numel shape

-- `blob_parts`: each blob after its length.
unfoldable pub blob_parts : List Bytes → List Bytes
unfolding pack_be
blob_parts [] = []
blob_parts (b ∷ bs) = pack_be 8 (length b) ∷ b ∷ blob_parts bs

-- The loop of `_unpack` over the blobs, with the number of bytes as fuel.
unfoldable pub split_blobs : ℕ → Bytes → Option (List Bytes)
unfolding unpack_be
split_blobs fuel [] = some []
split_blobs zero (b ∷ bytes) = none
split_blobs (suc fuel) (b ∷ bytes) =
    let size = unpack_be 0 (take 8 (b ∷ bytes)) in
    let body = drop 8 (b ∷ bytes) in
    let rest = split_blobs fuel (drop size body) in
    if ltb (length (b ∷ bytes)) 8
    then none
    else elim rest [ none ↦ none | some bs ↦ some (take size body ∷ bs) ]

-- What `decode` builds of its parts, if they decode.
abbrev pub seq_of : Option Items → Option Message
seq_of none = none
seq_of (some xs) = some (seq xs)

abbrev pub dict_of : Option Fields → Option Message
dict_of none = none
dict_of (some fs) = some (dict fs)

abbrev pub item_of : Option Message → Option Items → Option Items
item_of (some x) (some xs) = some (item x xs)
item_of (some x) none = none
item_of none xs = none

abbrev pub field_of : String → Option Message → Option Fields → Option Fields
field_of k (some x) (some fs) = some (field k x fs)
field_of k (some x) none = none
field_of k none fs = none

-- `dsize` is `_DTYPES` with `_DSIZE`: the bytes of one element of a known dtype, as torch has them.
module _ (dsize : String → Option ℕ) where
  -- A tensor is read only if its shape needs exactly the bytes of its blob.
  unfoldable pub sized : String → Option ℕ → Option (List ℕ) → Option Bytes → Option Message
  unfolding numel
  sized dtype (some size) (some shape) (some blob) =
      if numel shape * size == length blob then some (tensor dtype shape blob) else none
  sized dtype size shape blob = none

  unfoldable pub tensor_of : List Bytes → Json → Option Json → Option Json → Option Message
  unfolding sized shape_of blob_at
  tensor_of blobs i (some (atom (text dtype))) (some shape) =
      sized dtype (dsize dtype) (shape_of shape) (blob_at blobs i)
  tensor_of blobs i dtype shape = none

  -- `if "__t__" in node`
  unfoldable pub object_of :
      List Bytes → Option Json → Option Json → Option Json → Option Message → Option Message
  unfolding tensor_of
  object_of blobs none dtype shape fields = fields
  object_of blobs (some i) dtype shape fields = tensor_of blobs i dtype shape

  -- `decode`
  unfoldable mutual
    unfolding object_of find_key

    pub decode : List Bytes → Json → Option Message
    decode blobs (atom a) = some (value a)
    decode blobs (arr js) = seq_of (decode_items blobs js)
    decode blobs (obj ms) =
        let fields = dict_of (decode_fields blobs ms) in
        object_of blobs (find_key ms "__t__") (find_key ms "dtype") (find_key ms "shape") fields

    pub decode_items : List Bytes → Jsons → Option Items
    decode_items blobs nil = some none_left
    decode_items blobs (cons j js) = item_of (decode blobs j) (decode_items blobs js)

    pub decode_fields : List Bytes → Members → Option Fields
    decode_fields blobs end = some no_field
    decode_fields blobs (member k j ms) = field_of k (decode blobs j) (decode_fields blobs ms)

  -- `json.dumps(..).encode()` and `json.loads`.
  module _ (dumps : Json → Bytes) (loads : Bytes → Option Json) where
    unfoldable pub pack_parts : Message → List Bytes
    unfolding encode blob_parts pack_be
    pack_parts m =
        let (j, blobs) = encode 0 m in
        let head = dumps j in (pack_be 4 (length head) ++ head) ∷ blob_parts blobs

    -- A header and the blobs, if both can be read.
    unfoldable pub opened : Option Json → Option (List Bytes) → Option Message
    unfolding decode
    opened none blobs = none
    opened (some head) none = none
    opened (some head) (some blobs) = decode blobs head

    unfoldable pub unpack : Bytes → Option Message
    unfolding split_blobs unpack_be opened
    unpack buf =
        let size = unpack_be 0 (take 4 buf) in
        let body = drop 4 buf in
        let message = opened (loads (take size body)) (split_blobs (length buf) (drop size body)) in
        if ltb (length buf) 4 then none else message
