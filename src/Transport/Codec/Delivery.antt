-- ===== src/Transport/Codec/Delivery.antt =====
-- `send_msg` and `recv_msg` (shard/shard/transport.py): a message that is sent is received.
use shard_glm_image.Base.{
  ℕ, ◌+◌, ◌≤◌, ◌<◌, ◌≡◌, ◌∙◌, ap, String, Option, none, some, List, ◌∷◌, ◌++◌, arith, length, All,
  length-append,
}
use shard_glm_image.Transport.Bytes.{Bytes, pack_be, limit, length-pack_be}
use shard_glm_image.Transport.Sending.{concat, sendall_vectored, sendall_vectored-concat}
use shard_glm_image.Transport.Receiving.{
  Received, got, connection_error, read_frame, Arriving, Left, read_frame-framed,
}
use shard_glm_image.Transport.Codec.{Json, Message, encode, pack_parts, unpack}
use shard_glm_image.Transport.Codec.Roundtrip.{IsPlain, head_of, frame_of, unpack-pack}

module _ (dsize : String → Option ℕ) (dumps : Json → Bytes) (loads : Bytes → Option Json) where
  -- `send_msg`: what goes on the wire, and what the kernel has not taken.
  unfoldable pub send_msg : List ℕ → Message → Bytes × List Bytes
  send_msg answers m =
      let parts = pack_parts dsize dumps loads m in
      sendall_vectored answers (pack_be 8 (length (concat parts)) ∷ parts)

  -- A frame that is no message is a dead edge.
  abbrev pub message_of : Option Message → List Bytes → Received Message
  message_of none rest = connection_error
  message_of (some m) rest = got m rest

  unfoldable pub parsed : Received Bytes → Received Message
  parsed connection_error = connection_error
  parsed (got frame rest) = message_of (unpack dsize dumps loads frame) rest

  unfoldable pub recv_msg : ℕ → List Bytes → Received Message
  unfolding parsed
  recv_msg max_frame pieces = parsed (read_frame max_frame pieces)

  -- A message that is sent is received as it is, however the kernel cuts the stream on either side,
  -- and what follows it on the stream is left for the next call. It holds for every message that the
  -- codec carries and whose header JSON reads back, if its frame is within the receiver's cap and both lengths fit their prefixes.
  pub recv_msg-send_msg :
      (m : Message) (max_frame : ℕ) (answers : List ℕ) (others : Bytes) (pieces : List Bytes)
      → loads (head_of dsize dumps loads m) ≡ some (encode 0 m).0
      → IsPlain dsize m
      → length (head_of dsize dumps loads m) < limit 4
      → length (frame_of dsize dumps loads m) < limit 8
      → length (frame_of dsize dumps loads m) ≤ max_frame
      → All (λ k. 0 < k) answers
      → 8 + length (frame_of dsize dumps loads m) ≤ length answers
      → Arriving pieces
      → concat pieces ≡ (send_msg answers m).0 ++ others
      → Left m others (recv_msg max_frame pieces)
  unfolding send_msg recv_msg parsed
  recv_msg-send_msg m max_frame answers others pieces sound plain small fits capped a enough
        arriving e =
      let frame = frame_of dsize dumps loads m in
      let parts = pack_parts dsize dumps loads m in
      let (wire, done) = sendall_vectored-concat answers (pack_be 8 (length frame) ∷ parts) a (
        omega (
          arith,
          enough,
          length-pack_be 8 (length frame),
          length-append (pack_be 8 (length frame)) frame,
        )) in
      let (rest, found, arriving', e') =
        read_frame-framed max_frame frame others pieces capped fits arriving
          (e ∙ ap (λ (b : Bytes). b ++ others) wire) in
      (
        rest,
        ap parsed found
            ∙ ap (λ (o : Option Message). message_of o rest)
                (unpack-pack dsize dumps loads m sound plain small fits),
        arriving',
        e',
      )
