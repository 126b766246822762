-- ===== src/Speculation/Ngram.antt =====
-- shard/phase0/ngram_draft.py: drafts copied from earlier text.
pub mod Length
pub mod Copied
pub mod Simulated
use shard_glm_image.Base.{
  ℕ, zero, suc, ◌+◌, ◌-◌, if◌then◌else◌, Option, none, some, List, [], ◌∷◌, ◌++◌, Bool, true, false,
  ◌&&◌, ◌||◌, not, ltb, leb, ◌==◌, length, take, drop, get_elem?, replicate, reverse, max, min,
}

pub record NgramDrafter : Type 0 where
  pub ng : ℕ
  pub max_ext : ℕ
  pub max_cand : ℕ
  pub margin : ℕ
  pub min_match : ℕ
  pub indexed : ℕ
  pub table : List (List ℕ × List ℕ)
  pub matched : Bool

-- `a == b` on tuples of tokens.
unfoldable pub same : List ℕ → List ℕ → Bool
same [] [] = true
same (a ∷ x) (b ∷ y) = a == b && same x y
same [] (b ∷ y) = false
same (a ∷ x) [] = false

-- `tbl.setdefault(key, []).append(p)`
unfoldable pub append_at : List (List ℕ × List ℕ) → List ℕ → ℕ → List (List ℕ × List ℕ)
unfolding same
append_at [] key p = (key, p ∷ []) ∷ []
append_at ((k, ps) ∷ tbl) key p =
    let rest = append_at tbl key p in if same k key then (k, ps ++ p ∷ []) ∷ tbl else (k, ps) ∷ rest

-- `table.get(key)`, where a missing key is as good as no candidate.
unfoldable pub lookup : List (List ℕ × List ℕ) → List ℕ → List ℕ
unfolding same
lookup [] key = []
lookup ((k, ps) ∷ tbl) key = let rest = lookup tbl key in if same k key then ps else rest

-- `seq[from:to]`
abbrev pub slice : List ℕ → ℕ → ℕ → List ℕ
slice seq from to = take (to - from) (drop from seq)

-- The loop of `_sync`, for `count` positions from `p` on.
unfoldable pub index_from : ℕ → List ℕ → ℕ → ℕ → List (List ℕ × List ℕ) → List (List ℕ × List ℕ)
unfolding append_at
index_from ng seq p zero tbl = tbl
index_from ng seq p (suc count) tbl =
    index_from ng seq (p + 1) count (append_at tbl (slice seq (p - ng) p) p)

-- `_sync`: it changes nothing if there is nothing new to index.
unfoldable pub sync : NgramDrafter → List ℕ → NgramDrafter
unfolding index_from
sync d seq =
    let stable = length seq - d.margin in
    let first = max d.indexed d.ng in
    let done = leb stable d.indexed in
    record d {
      indexed = if done then d.indexed else stable;
      table = if done then d.table else index_from d.ng seq first (stable - first) d.table;
    }

-- `seq[i]`, of an index inside the text.
abbrev pub at : List ℕ → ℕ → ℕ
at seq i = elim (get_elem? seq i) [ none ↦ 0 | some t ↦ t ]

-- `seq[-1] if seq else 0`
unfoldable pub last_token : List ℕ → ℕ
last_token seq = at seq (length seq - 1)

-- The inner loop: how far the text before `a` agrees with the text before `b`, up to `room` tokens,
-- both read backwards. It stops where `a` reaches the start of the text.
unfoldable pub extend : List ℕ → ℕ → ℕ → ℕ → ℕ
extend seq zero a b = 0
extend seq (suc room) zero b = 0
extend seq (suc room) (suc a) zero = 0
extend seq (suc room) (suc a) (suc b) =
    let rest = extend seq room a b in if at seq a == at seq b then suc rest else 0

-- `L > best_len`, from a `best_len` of -1.
unfoldable pub beats : ℕ → Option (ℕ × ℕ) → Bool
beats len none = true
beats len (some b) = ltb b.1 len

-- The loop over the candidates, the most recent first: the best position and its length so far.
unfoldable pub best_of : ℕ → ℕ → List ℕ → List ℕ → Option (ℕ × ℕ) → Option (ℕ × ℕ)
unfolding extend beats
best_of ng max_ext seq [] best = best
best_of ng max_ext seq (p ∷ cands) best =
    let n = length seq in
    let len = extend seq max_ext (p - ng) (n - ng) in
    let better = beats len best in
    let best' = if ltb p n && better then some (p, len) else best in
    let rest = best_of ng max_ext seq cands best' in
    if ltb p n && better && len == max_ext then best' else rest

-- `cands[-max_cand:][::-1]`; a `max_cand` of 0 keeps them all.
unfoldable pub recent : ℕ → List ℕ → List ℕ
recent zero cands = reverse cands
recent (suc m) cands = reverse (drop (length cands - suc m) cands)

-- `cont + [cont[-1] if cont else seq[-1]] * (k - len(cont))`
unfoldable pub pad : List ℕ → List ℕ → ℕ → List ℕ
unfolding last_token
pad seq [] k = replicate k (last_token seq)
pad seq (t ∷ cont) k = (t ∷ cont) ++ replicate (k - length (t ∷ cont)) (last_token (t ∷ cont))

-- The part of `propose` after the candidates are looked up.
unfoldable pub choose : NgramDrafter → List ℕ → ℕ → Option (ℕ × ℕ) → NgramDrafter × List ℕ
unfolding last_token pad
choose d seq k none = (record d { matched = false }, replicate k (last_token seq))
choose d seq k (some (p, len)) =
    (record d { matched = leb d.min_match len }, pad seq (take k (drop p seq)) k)

unfoldable pub propose : NgramDrafter → List ℕ → ℕ → NgramDrafter × List ℕ
unfolding sync lookup recent best_of choose
propose d0 seq k =
    let d = sync d0 seq in
    let n = length seq in
    let cands = recent d.max_cand (lookup d.table (drop (n - d.ng) seq)) in
    let best = best_of d.ng d.max_ext seq cands none in
    choose d seq k (if ltb n d.ng then none else best)

-- `simulate_g`: how many of the proposed tokens are right.
unfoldable pub accepted : List ℕ → List ℕ → ℕ → ℕ
accepted ds truth zero = 0
accepted [] truth (suc j) = 0
accepted (d ∷ ds) [] (suc j) = 0
accepted (d ∷ ds) (t ∷ truth) (suc j) =
    let rest = accepted ds truth j in if d == t then suc rest else 0

-- The loop of `simulate_g` from position `i`, on fuel: the traversals it takes, and where it ends.
unfoldable pub simulate : NgramDrafter → List ℕ → ℕ → ℕ → ℕ → ℕ × ℕ
unfolding propose accepted
simulate d seq k zero i = (0, i)
simulate d seq k (suc fuel) i =
    let (d', ds) = propose d (take i seq) k in
    let acc = accepted ds (drop i seq) (min k (length seq - i - 1)) in
    let (traversals, last) = simulate d' seq k fuel (i + (acc + 1)) in
    if ltb i (length seq) then (suc traversals, last) else (0, i)
