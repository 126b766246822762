-- ===== src/Transport/Bytes.antt =====
-- `struct.pack` and `struct.unpack` of big-endian lengths, "!I" with 4 bytes and "!Q" with 8
-- (shard/shard/transport.py).
use shard_glm_image.Base.{
  ℕ, zero, suc, ◌+◌, ◌*◌, ◌/◌, ◌%◌, ◌<◌, ◌≡◌, ◌∙◌, refl, List, [], ◌∷◌, ◌++◌, arith, length,
  length-append,
}

abbrev pub Bytes : Type 0
Bytes = List ℕ

-- The `width` bytes of `n`, the last of which is `n % 256`; a number that does not fit is cut.
unfoldable pub pack_be : ℕ → ℕ → Bytes
pack_be zero n = []
pack_be (suc width) n = pack_be width (n / 256) ++ n % 256 ∷ []

-- The number whose bytes are read after those that gave `acc`.
unfoldable pub unpack_be : ℕ → Bytes → ℕ
unpack_be acc [] = acc
unpack_be acc (b ∷ bs) = unpack_be (acc * 256 + b) bs

-- `256 ^ width`, the first number that does not fit.
abbrev pub limit : ℕ → ℕ
limit zero = 1
limit (suc width) = limit width * 256

pub length-pack_be : (width n : ℕ) → length (pack_be width n) ≡ width
unfolding pack_be
length-pack_be zero n = refl
length-pack_be (suc width) n =
    omega (
      arith,
      length-append (pack_be width (n / 256)) (n % 256 ∷ []),
      length-pack_be width (n / 256),
    )

unpack_be-append :
    (acc : ℕ) (xs ys : Bytes) → unpack_be acc (xs ++ ys) ≡ unpack_be (unpack_be acc xs) ys
unfolding unpack_be
unpack_be-append acc [] ys = refl
unpack_be-append acc (x ∷ xs) ys = unpack_be-append (acc * 256 + x) xs ys

-- A length that fits in `width` bytes is read back.
pub unpack_be-pack_be : (width n : ℕ) → n < limit width → unpack_be 0 (pack_be width n) ≡ n
unfolding pack_be unpack_be
unpack_be-pack_be zero n h = omega arith
unpack_be-pack_be (suc width) n h =
    unpack_be-append 0 (pack_be width (n / 256)) (n % 256 ∷ [])
    ∙ rw (unpack_be-pack_be width (n / 256) (omega arith)) (omega arith)
