-- ===== src/Speculation/Ngram/Simulated.antt =====
-- The offline bound on the tokens per traversal (shard/phase0/ngram_draft.py `simulate_g`).
use shard_glm_image.Base.{
  ℕ, zero, suc, ◌+◌, ◌-◌, ◌*◌, ◌≤◌, ◌≡◌, List, [], ◌∷◌, arith, length, take, drop, Bool-cases, inl,
  inr, ltb, ltb→lt, min,
}
use shard_glm_image.Speculation.Ngram.{NgramDrafter, accepted, simulate, propose}

accepted_le : (ds truth : List ℕ) (j : ℕ) → accepted ds truth j ≤ j
unfolding accepted
accepted_le ds truth zero = omega arith
accepted_le [] truth (suc j) = omega arith
accepted_le (d ∷ ds) [] (suc j) = omega arith
accepted_le (d ∷ ds) (t ∷ truth) (suc j) = ground (arith, accepted_le ds truth j)

-- From a position inside the text, with fuel for its rest, the simulation ends exactly at the end of
-- the text; each traversal commits at least one token and at most `k + 1`, so g lies between 1 and
-- `k + 1`.
pub simulate-bounds :
    (d : NgramDrafter) (seq : List ℕ) (k fuel i : ℕ)
    → i ≤ length seq
    → length seq ≤ i + fuel
    → ((simulate d seq k fuel i).1 ≡ length seq)
      × ((simulate d seq k fuel i).0 ≤ length seq - i)
      × (length seq - i ≤ (simulate d seq k fuel i).0 * (k + 1))
unfolding simulate
simulate-bounds d seq k zero i inside enough = ground arith
simulate-bounds d seq k (suc fuel) i inside enough = elim (Bool-cases (ltb i (length seq))) [
  | inl y ↦
      let acc = accepted (propose d (take i seq) k).1 (drop i seq) (min k (length seq - i - 1)) in
      let bound =
        accepted_le (propose d (take i seq) k).1 (drop i seq) (min k (length seq - i - 1)) in
      let rest =
        simulate-bounds (propose d (take i seq) k).0 seq k fuel (i + (acc + 1))
          (ground (arith, bound, y)) (omega (arith, enough)) in
      let before = ltb→lt i (length seq) y in
      rw y (rest.0, omega (arith, rest.1, bound, before), omega (arith, rest.2, bound, before))
  | inr n ↦ ground (arith, n)
]
