-- ===== src/Speculation/Ngram/Length.antt =====
-- A draft has exactly the length that the verify chunk is made for (shard/phase0/ngram_draft.py).
use shard_glm_image.Base.{
  ℕ, zero, suc, ◌-◌, ◌≤◌, ◌≡◌, Option, none, some, List, [], ◌∷◌, arith, length, take, drop,
  replicate, length-append, length-replicate,
}
use shard_glm_image.Speculation.Ngram.{NgramDrafter, last_token, pad, choose, sync, propose}

length-take : (k : ℕ) (xs : List ℕ) → length (take k xs) ≤ k
length-take zero xs = omega arith
length-take (suc k) [] = omega arith
length-take (suc k) (x ∷ xs) = omega (arith, length-take k xs)

length-pad : (seq cont : List ℕ) (k : ℕ) → length cont ≤ k → length (pad seq cont k) ≡ k
unfolding pad
length-pad seq [] k h = length-replicate k (last_token seq)
length-pad seq (t ∷ cont) k h = omega (
  arith,
  length-append (t ∷ cont) (replicate (k - length (t ∷ cont)) (last_token (t ∷ cont))),
  length-replicate (k - length (t ∷ cont)) (last_token (t ∷ cont)),
  h,
)

length-choose :
    (d : NgramDrafter) (seq : List ℕ) (k : ℕ) (best : Option (ℕ × ℕ))
    → length (choose d seq k best).1 ≡ k
unfolding choose
length-choose d seq k none = length-replicate k (last_token seq)
length-choose d seq k (some (p, len)) =
    length-pad seq (take k (drop p seq)) k (length-take k (drop p seq))

-- `propose` returns exactly `k` tokens, whatever the table holds and however short the text is: a
-- match that runs off the end is padded, and without a match the last token is repeated.
pub length-propose : (d : NgramDrafter) (seq : List ℕ) (k : ℕ) → length (propose d seq k).1 ≡ k
unfolding propose
length-propose d seq k = length-choose (sync d seq) seq k _
