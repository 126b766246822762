-- ===== src/Tests/Messages.antt =====
-- A message with a tensor, sent and received in pieces (shard/shard/transport.py).
use shard_glm_image.Base.{
  ℕ, zero, suc, ◌<◌, ◌≡◌, refl, String, Option, none, some, List, [], ◌∷◌, ◌++◌, arith, All,
  text_discrete, ite, replicate,
}
use shard_glm_image.Base.Int.{pos}
use shard_glm_image.Transport.Bytes.{Bytes, pack_be, unpack_be}
use shard_glm_image.Transport.Sending.{
  concat, nonempty, advance, taken, send_loop, sendall_vectored, sendall_vectored-concat,
}
use shard_glm_image.Transport.Receiving.{recv_into, read_exact, read_body, read_frame, Left}
use shard_glm_image.Transport.Codec.{
  int, Json, Message, value, tensor, dict, no_field, field, shape_json, encode, find_key, blob_at,
  dims_of, shape_of, numel, blob_parts, split_blobs, sized, tensor_of, object_of, decode,
  pack_parts, opened, unpack,
}
use shard_glm_image.Transport.Codec.Roundtrip.{IsPlain, frame_of}
use shard_glm_image.Transport.Codec.Delivery.{send_msg, parsed, recv_msg, recv_msg-send_msg}

program : Unit {0}
unfolding pack_be unpack_be nonempty advance taken send_loop sendall_vectored recv_into read_exact
    read_body read_frame shape_json encode find_key blob_at dims_of shape_of numel blob_parts
    split_blobs sized tensor_of object_of decode pack_parts opened unpack send_msg parsed recv_msg
    IsPlain text_discrete
program = tt

abbrev dsize : String → Option ℕ
unfolding text_discrete
dsize dtype = ite (text_discrete dtype "torch.float16") (some 2) none

-- `{"op": 3, "h": tensor of shape [1, 2]}`
abbrev message : Message
message = dict (
    field "op" (value (int (pos 3)))
      (field "h" (tensor "torch.float16" (1 ∷ 2 ∷ []) (1 ∷ 2 ∷ 3 ∷ 4 ∷ [])) no_field))

abbrev header : Json
unfolding program
header = (encode 0 message).0

-- JSON, as far as this header needs it.
abbrev dumps : Json → Bytes
dumps j = 123 ∷ 125 ∷ []

abbrev loads : Bytes → Option Json
unfolding program
loads bytes = some (encode 0 message).0

abbrev frame : Bytes
unfolding program
frame = frame_of dsize dumps loads message

frame_lem :
    frame ≡ (0 ∷ 0 ∷ 0 ∷ 2 ∷ 123 ∷ 125 ∷ []) ++ (0 ∷ 0 ∷ 0 ∷ 0 ∷ 0 ∷ 0 ∷ 0 ∷ 4 ∷ 1 ∷ 2 ∷ 3 ∷ 4 ∷ [])
unfolding program
frame_lem = refl

-- The kernel takes five bytes at a time.
abbrev answers : List ℕ
answers = replicate 26 5

positive : (n : ℕ) → All (λ k. 0 < k) (replicate n 5)
positive zero = tt
positive (suc n) = (omega arith, positive n)

-- What arrives: the stream in three pieces, with the start of another frame behind.
abbrev pieces : List Bytes
pieces =
    (0 ∷ 0 ∷ 0 ∷ [])
    ∷ (0 ∷ 0 ∷ 0 ∷ 0 ∷ 18 ∷ 0 ∷ 0 ∷ 0 ∷ 2 ∷ 123 ∷ [])
    ∷ (125 ∷ 0 ∷ 0 ∷ 0 ∷ 0 ∷ 0 ∷ 0 ∷ 0 ∷ 4 ∷ 1 ∷ 2 ∷ 3 ∷ 4 ∷ 0 ∷ [])
    ∷ []

wire_lem : concat pieces ≡ (send_msg dsize dumps loads answers message).0 ++ 0 ∷ []
unfolding program
wire_lem = refl

sendall_vectored-concat_example :
    ((sendall_vectored (replicate 27 5) pieces).0 ≡ concat pieces)
    × ((sendall_vectored (replicate 27 5) pieces).1 ≡ [])
sendall_vectored-concat_example =
    sendall_vectored-concat (replicate 27 5) pieces (positive 27) (omega arith)

message-IsPlain : IsPlain dsize message
unfolding program
message-IsPlain = ((λ p. cc), tt, ((λ p. cc), (2, refl, refl), tt))

recv_msg-send_msg_example : Left message (0 ∷ []) (recv_msg dsize dumps loads 256 pieces)
unfolding program
recv_msg-send_msg_example =
    recv_msg-send_msg dsize dumps loads message 256 answers (0 ∷ []) pieces refl message-IsPlain
      (omega arith) (omega arith) (omega arith) (positive 26) (omega arith)
      (omega arith, (omega arith, (omega arith, tt))) wire_lem
