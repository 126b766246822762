-- ===== src/Transport/Receiving.antt =====
-- `_read_exact` and the reading of a frame by `recv_msg` (shard/shard/transport.py), over a stream that
-- arrives in pieces of any size.
use mathlib.Core.List.{append_assoc, append-nil}
use shard_glm_image.Base.{
  ℕ, zero, suc, ◌-◌, ◌≤◌, ◌<◌, ◌≡◌, ◌∙◌, refl, sym, ap, subst, List, [], ◌∷◌, ◌++◌, arith, length,
  take, drop, ltb, leb, ◌==◌, if◌then◌else◌, Bool-cases, inl, inr, All,
}
use shard_glm_image.Transport.Bytes.{
  Bytes, pack_be, unpack_be, unpack_be-pack_be, length-pack_be, limit,
}
use shard_glm_image.Transport.Sending.{concat}

pub data Received (A : Type 0) : Type 0 where
  -- what is received, and the pieces that are still to be read
  got : A → List Bytes → Received A
  connection_error : Received A

-- One call of `recv_into` for at most `n` bytes: what it gives of the next piece, and the pieces left.
-- An empty piece is the end of the stream.
unfoldable pub recv_into : ℕ → List Bytes → Bytes × List Bytes
recv_into n [] = ([], [])
recv_into n (p ∷ pieces) = if leb (length p) n then (p, pieces) else (take n p, drop n p ∷ pieces)

abbrev pub after : Bytes → Received Bytes → Received Bytes
after buf (got rest pieces) = got (buf ++ rest) pieces
after buf connection_error = connection_error

-- `_read_exact`, on one more than `n` as fuel: each call gives at least one byte.
unfoldable pub read_exact : ℕ → ℕ → List Bytes → Received Bytes
unfolding recv_into
read_exact fuel zero pieces = got [] pieces
read_exact zero (suc n) pieces = connection_error
read_exact (suc fuel) (suc n) pieces =
    let (r, pieces') = recv_into (suc n) pieces in
    let rest = read_exact fuel (suc n - length r) pieces' in
    if length r == 0 then connection_error else after r rest

-- The frame behind its length, which is refused if it is over the cap.
unfoldable pub read_body : ℕ → Received Bytes → Received Bytes
unfolding read_exact
read_body max_frame connection_error = connection_error
read_body max_frame (got prefix rest) =
    let n = unpack_be 0 prefix in
    let frame = read_exact n n rest in if ltb max_frame n then connection_error else frame

-- What `recv_msg` reads.
unfoldable pub read_frame : ℕ → List Bytes → Received Bytes
unfolding read_body
read_frame max_frame pieces = read_body max_frame (read_exact 8 8 pieces)

-- The bytes of `send_msg`: the length in front of the frame.
abbrev pub framed : Bytes → Bytes
framed frame = pack_be 8 (length frame) ++ frame

-- Pieces of which none is empty, as a stream that is still open gives them.
abbrev pub Arriving : List Bytes → Type 0
Arriving pieces = All (λ p. 0 < length p) pieces

-- `want` is received, and what is still to be read is `others`.
abbrev pub Left : {A : Type 0} → A → Bytes → Received A → Type 0
Left want others r =
    (pieces : List Bytes) × (r ≡ got want pieces) × Arriving pieces × (concat pieces ≡ others)

split_short :
    (p c want others : Bytes)
    → p ++ c ≡ want ++ others
    → length p ≤ length want
    → (want ≡ p ++ drop (length p) want) × (c ≡ drop (length p) want ++ others)
split_short [] c want others e h = (refl, e)
split_short (x ∷ p) c [] others e h = absurd (omega arith)
split_short (x ∷ p) c (w ∷ want) others e h =
    ground (arith, e, split_short p c want others (ground (arith, e)) (omega arith))

split_long :
    (p c want others : Bytes)
    → p ++ c ≡ want ++ others
    → length want ≤ length p
    → (take (length want) p ≡ want) × (drop (length want) p ++ c ≡ others)
split_long p c [] others e h = (refl, e)
split_long [] c (w ∷ want) others e h = absurd (omega arith)
split_long (x ∷ p) c (w ∷ want) others e h =
    ground (arith, e, split_long p c want others (ground (arith, e)) (omega arith))

length-drop : (k : ℕ) (xs : Bytes) → length (drop k xs) ≡ length xs - k
length-drop zero xs = omega arith
length-drop (suc k) [] = omega arith
length-drop (suc k) (x ∷ xs) = omega (arith, length-drop k xs)

read_step :
    (fuel n : ℕ) (pieces : List Bytes) (r : Bytes) (pieces' : List Bytes)
    → recv_into (suc n) pieces ≡ (r, pieces')
    → 0 < length r
    → read_exact (suc fuel) (suc n) pieces ≡ after r (read_exact fuel (suc n - length r) pieces')
unfolding read_exact
read_step fuel n pieces r pieces' e h = rw (e, read_exact) (ground (arith, h))

recv_short : (n : ℕ) (p : Bytes) (ps : List Bytes) → length p ≤ n → recv_into n (p ∷ ps) ≡ (p, ps)
unfolding recv_into
recv_short n p ps h = ground (arith, h)

recv_long :
    (n : ℕ) (p : Bytes) (ps : List Bytes)
    → n < length p
    → recv_into n (p ∷ ps) ≡ (take n p, drop n p ∷ ps)
unfolding recv_into
recv_long n p ps h = ground (arith, h)

read_exact-Left :
    (fuel : ℕ) (want others : Bytes) (pieces : List Bytes)
    → length want ≤ fuel
    → Arriving pieces
    → concat pieces ≡ want ++ others
    → Left want others (read_exact fuel (length want) pieces)
unfolding read_exact
read_exact-Left fuel [] others pieces h a e = (pieces, refl, a, e)
read_exact-Left zero (w ∷ want) others pieces h a e = absurd (omega arith)
read_exact-Left (suc fuel) (w ∷ want) others [] h a e = absurd (ground (arith, e))
read_exact-Left (suc fuel) (w ∷ want) others (p ∷ pieces) h (some_bytes, a) e =
    let n = length want in
    elim (Bool-cases (leb (length p) (suc n))) [
      | inl y ↦
          let (first, second) =
            split_short p (concat pieces) (w ∷ want) others e (ground (arith, y)) in
          let rest = drop (length p) (w ∷ want) in
          let size : length rest ≡ suc n - length p = length-drop (length p) (w ∷ want) in
          let (left, found, a', e') =
            read_exact-Left fuel rest others pieces (omega (arith, size, some_bytes, h)) a second in
          (
            left,
            read_step fuel n (p ∷ pieces) p pieces (recv_short (suc n) p pieces (ground (arith, y)))
                  some_bytes
                ∙ ap (λ (k : ℕ). after p (read_exact fuel k pieces)) (sym size)
                ∙ ap (after p) found
                ∙ ap (λ (b : Bytes). got b left) (sym first),
            a',
            e',
          )
      | inr big ↦
          let (first, second) =
            split_long p (concat pieces) (w ∷ want) others e (ground (arith, big)) in
          let r = take (suc n) p in
          let size : length r ≡ suc n = ap length first in
          let zero_left : suc n - length r ≡ 0 = omega (arith, size) in
          let behind = drop (suc n) p ∷ pieces in
          (
            behind,
            read_step fuel n (p ∷ pieces) r behind
                  (recv_long (suc n) p pieces (ground (arith, big))) (omega (arith, size))
                ∙ ap (λ (k : ℕ). after r (read_exact fuel k behind)) zero_left
                ∙ ap (λ (b : Bytes). got b behind) (append-nil r ∙ first),
            (ground (arith, big, length-drop (suc n) p), a),
            second,
          )
    ]

read_body-prefix :
    (max_frame n : ℕ) (rest : List Bytes)
    → n < limit 8
    → n ≤ max_frame
    → read_body max_frame (got (pack_be 8 n) rest) ≡ read_exact n n rest
unfolding read_body
read_body-prefix max_frame n rest fits small =
    rw (unpack_be-pack_be 8 n fits) (ground (arith, small))

read_body-oversize :
    (max_frame n : ℕ) (rest : List Bytes)
    → n < limit 8
    → max_frame < n
    → read_body max_frame (got (pack_be 8 n) rest) ≡ connection_error
unfolding read_body
read_body-oversize max_frame n rest fits big = rw (unpack_be-pack_be 8 n fits) (ground (arith, big))

-- A frame that was sent is received, whatever pieces the stream arrives in: `recv_msg` reads exactly
-- its bytes and leaves exactly what was sent after it, if the frame is no longer than the cap and its
-- length fits in the 8 bytes of the prefix.
pub read_frame-framed :
    (max_frame : ℕ) (frame others : Bytes) (pieces : List Bytes)
    → length frame ≤ max_frame
    → length frame < limit 8
    → Arriving pieces
    → concat pieces ≡ framed frame ++ others
    → Left frame others (read_frame max_frame pieces)
unfolding read_frame
read_frame-framed max_frame frame others pieces small fits a e =
    let prefix = pack_be 8 (length frame) in
    let width : length prefix ≡ 8 = length-pack_be 8 (length frame) in
    let (rest, found, a', e') =
      read_exact-Left 8 prefix (frame ++ others) pieces (omega (arith, width)) a
        (e ∙ append_assoc prefix frame others) in
    let (left, found', a'', e'') =
      read_exact-Left (length frame) frame others rest (omega arith) a' e' in
    let found8 : read_exact 8 8 pieces ≡ got prefix rest =
      subst (λ (k : ℕ). read_exact 8 k pieces ≡ got prefix rest) width found in
    (
      left,
      ap (read_body max_frame) found8
          ∙ read_body-prefix max_frame (length frame) rest fits small
          ∙ found',
      a'',
      e'',
    )

-- A frame that claims more than the cap is refused before any of it is read.
pub read_frame_oversize :
    (max_frame n : ℕ) (others : Bytes) (pieces : List Bytes)
    → max_frame < n
    → n < limit 8
    → Arriving pieces
    → concat pieces ≡ pack_be 8 n ++ others
    → read_frame max_frame pieces ≡ connection_error
unfolding read_frame
read_frame_oversize max_frame n others pieces big fits a e =
    let prefix = pack_be 8 n in
    let width : length prefix ≡ 8 = length-pack_be 8 n in
    let (rest, found, a', e') = read_exact-Left 8 prefix others pieces (omega (arith, width)) a e in
    let found8 : read_exact 8 8 pieces ≡ got prefix rest =
      subst (λ (k : ℕ). read_exact 8 k pieces ≡ got prefix rest) width found in
    ap (read_body max_frame) found8 ∙ read_body-oversize max_frame n rest fits big
