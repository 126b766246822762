-- ===== src/Speculation/Tree.antt =====
-- shard/phase0/tree.py: a tree of proposed tokens, verified in one traversal. Node 0 is the root.
pub mod Greedy
pub mod Causal
use mathlib.Core.List.{dec_mem}
use shard_glm_image.Base.{
  ℕ, zero, suc, ◌+◌, ◌-◌, if◌then◌else◌, Option, none, some, List, [], ◌∷◌, ◌++◌, Bool, true, false,
  ◌&&◌, ◌||◌, ltb, ◌==◌, ℕ_discrete, map, reverse,
}

-- The flattened tree: `par` has no parent where the source has -1.
pub record Tree : Type 0 where
  pub tok : ℕ → ℕ
  pub par : ℕ → Option ℕ
  pub dep : ℕ → ℕ
  pub children : ℕ → List ℕ

-- `ancestors`, with the number of nodes on the way up as fuel.
unfoldable pub climb : (ℕ → Option ℕ) → ℕ → ℕ → List ℕ
climb par zero i = []
climb par (suc fuel) i = elim (par i) [ none ↦ i ∷ [] | some p ↦ i ∷ climb par fuel p ]

unfoldable pub ancestors : Tree → ℕ → List ℕ
unfolding climb
ancestors t i = climb t.par (suc (t.dep i)) i

-- `(not window) or (pos_i - pos_j) < window`, where `pos_j` may lie behind `pos_i`.
unfoldable pub in_window : ℕ → ℕ → ℕ → Bool
in_window window pos_i pos_j = window == 0 || ltb pos_i (pos_j + window)

unfoldable pub member : List ℕ → ℕ → Bool
member [] k = false
member (a ∷ more) k = a == k || member more k

-- Whether `m[i, key]` is 0: key `key` of the committed prefix, or of the tree.
unfoldable pub attends : Tree → ℕ → ℕ → ℕ → ℕ → Bool
unfolding ancestors in_window member
attends t prefix_len window i key =
    if ltb key prefix_len
    then in_window window (prefix_len + t.dep i) key
    else member (ancestors t i) (key - prefix_len)
      && in_window window (prefix_len + t.dep i) (prefix_len + t.dep (key - prefix_len))

-- The first child that carries the wanted token.
unfoldable pub matching : (ℕ → ℕ) → ℕ → List ℕ → Option ℕ
matching tok want [] = none
matching tok want (c ∷ cs) = if tok c == want then some c else matching tok want cs

-- The loop of `accept_tree` from a node that is kept: the tokens committed, and the nodes kept below
-- it; `none` if the fuel runs out.
unfoldable pub descend : Tree → (ℕ → ℕ) → ℕ → ℕ → Option (List ℕ × List ℕ)
unfolding matching
descend t targ zero node = none
descend t targ (suc fuel) node = elim (matching t.tok (targ node) (t.children node)) [
  | none ↦ some (targ node ∷ [], [])
  | some c ↦ elim (descend t targ fuel c) [ none ↦ none | some r ↦ some (targ node ∷ r.0, c ∷ r.1) ]
]

unfoldable pub accept_tree : Tree → (ℕ → ℕ) → ℕ → Option (List ℕ × List ℕ)
unfolding descend
accept_tree t targ fuel = elim (descend t targ fuel 0) [
  | none ↦ none
  | some r ↦ some (r.0, 0 ∷ r.1)
]
