-- ===== src/Speculation/Tree/Causal.antt =====
-- The mask of a tree is causal (shard/phase0/tree.py).
use shard_glm_image.Base.{
  ℕ, zero, suc, ◌+◌, ◌-◌, ◌≤◌, ◌≡◌, some, List, [], ◌∷◌, true, arith, All, Option-cases, inl, inr,
  Bool-cases, ltb, ◌==◌, subst, if◌then◌else◌,
}
use shard_glm_image.Speculation.Tree.{Tree, climb, ancestors, member, attends}

-- Where a key stands: of the committed prefix at its own place, of the tree by its depth.
abbrev pub position : Tree → ℕ → ℕ → ℕ
position t prefix_len key =
    if ltb key prefix_len then key else prefix_len + t.dep (key - prefix_len)

member-All : (P : ℕ → Type 0) (ks : List ℕ) (k : ℕ) → All P ks → member ks k ≡ true → P k
unfolding member
member-All P [] k h m = absurd (ground arith)
member-All P (a ∷ ks) k (p, ps) m = elim (Bool-cases (a == k)) [
  | inl y ↦ subst P (ground (arith, y)) p
  | inr n ↦ member-All P ks k ps (ground (arith, n))
]

module _ (t : Tree) (deeper : (c n : ℕ) → t.par c ≡ some n → t.dep c ≡ suc (t.dep n)) where
  climb-shallow : (fuel i top : ℕ) → t.dep i ≤ top → All (λ a. t.dep a ≤ top) (climb t.par fuel i)
  unfolding climb
  climb-shallow zero i top h = tt
  climb-shallow (suc fuel) i top h = elim (Option-cases (t.par i)) [
    | inl root ↦ rw (root, climb) (h, tt)
    | inr (p, up) ↦ rw (up, climb) (h, climb-shallow fuel p top (omega (arith, deeper i p up, h)))
  ]

  -- No node attends a key that stands behind it, whatever the window: keys of the prefix stand before
  -- every node of the tree, and the ancestors of a node are no deeper than the node.
  pub attends-causal :
      (prefix_len window i key : ℕ)
      → attends t prefix_len window i key ≡ true
      → position t prefix_len key ≤ prefix_len + t.dep i
  unfolding attends ancestors
  attends-causal prefix_len window i key h = elim (Bool-cases (ltb key prefix_len)) [
    | inl before ↦ rw before (ground (arith, before))
    | inr inside ↦ rw inside (
        omega (
          arith,
          member-All (λ a. t.dep a ≤ t.dep i) (climb t.par (suc (t.dep i)) i) (key - prefix_len)
              (climb-shallow (suc (t.dep i)) i (t.dep i) (omega arith)) (ground (arith, inside)),
        ))
  ]
