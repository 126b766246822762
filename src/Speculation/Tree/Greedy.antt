-- ===== src/Speculation/Tree/Greedy.antt =====
-- What a tree commits is what plain greedy decoding commits (shard/phase0/tree.py).
use mathlib.Core.List.{append_assoc, append-nil}
use shard_glm_image.Base.{
  ℕ, zero, suc, ◌+◌, ◌≤◌, ◌<◌, ◌≡◌, ◌∙◌, refl, sym, ap, subst, Option, none, some, List, [], ◌∷◌,
  ◌++◌, arith, length, All, Option-cases, inl, inr, Bool-cases, ◌==◌,
}
use shard_glm_image.Speculation.Tree.{Tree, climb, ancestors, matching, descend, accept_tree}

-- Plain greedy decoding: `n` tokens after `ctx`, by the target's own choice.
abbrev pub greedy : (List ℕ → ℕ) → List ℕ → ℕ → List ℕ
greedy next ctx zero = []
greedy next ctx (suc n) = next ctx ∷ greedy next (ctx ++ next ctx ∷ []) n

-- A tree as `children` and `dep` are built from `par`, of height at most `height`.
pub record IsTree (t : Tree) (height : ℕ) : Type 0 where
  pub root : t.par 0 ≡ none
  pub top : t.dep 0 ≡ 0
  pub up :
      (n : ℕ)
      → All
          (λ c. (t.par c ≡ some n) × (t.dep c ≡ suc (t.dep n)) × (t.dep c ≤ height))
          (t.children n)

-- The tokens from the root, which is not among them, down to a node.
abbrev pub spine : (ℕ → ℕ) → List ℕ → List ℕ
spine tok [] = []
spine tok (i ∷ []) = []
spine tok (i ∷ p ∷ up) = spine tok (p ∷ up) ++ tok i ∷ []

abbrev pub path_of : Tree → ℕ → List ℕ
path_of t i = spine t.tok (ancestors t i)

matching-lem :
    (P : ℕ → Type 0) (tok : ℕ → ℕ) (want : ℕ) (cs : List ℕ) (c : ℕ)
    → All P cs
    → matching tok want cs ≡ some c
    → (tok c ≡ want) × P c
unfolding matching
matching-lem P tok want [] c h e = cc
matching-lem P tok want (d ∷ cs) c (p, ps) e = elim (Bool-cases (tok d == want)) [
  | inl y ↦ subst (λ (k : ℕ). (tok k ≡ want) × P k) (ground arith) (ground (arith, y), p)
  | inr n ↦ matching-lem P tok want cs c ps (ground arith)
]

climb-child :
    (par : ℕ → Option ℕ) (fuel c n : ℕ)
    → par c ≡ some n
    → climb par (suc fuel) c ≡ c ∷ climb par fuel n
unfolding climb
climb-child par fuel c n e = ground arith

spine-climb :
    (tok : ℕ → ℕ) (par : ℕ → Option ℕ) (fuel c n : ℕ)
    → spine tok (c ∷ climb par (suc fuel) n) ≡ spine tok (climb par (suc fuel) n) ++ tok c ∷ []
unfolding climb
spine-climb tok par fuel c n = elim (Option-cases (par n)) [
  | inl top ↦ rw (top, climb) refl
  | inr (p, up) ↦ rw (up, climb) refl
]

module _ (t : Tree) (height : ℕ) (tree : IsTree t height) where
  path_of-child :
      (c n : ℕ)
      → t.par c ≡ some n
      → t.dep c ≡ suc (t.dep n)
      → path_of t c ≡ path_of t n ++ t.tok c ∷ []
  unfolding ancestors
  path_of-child c n e d =
      rw (d, climb-child t.par (suc (t.dep n)) c n e) (spine-climb t.tok t.par (t.dep n) c n)

  path_of-root : path_of t 0 ≡ []
  unfolding ancestors climb
  path_of-root =
      subst
        (λ (up : Option ℕ).
          spine t.tok (elim up [ none ↦ 0 ∷ [] | some p ↦ 0 ∷ climb t.par (t.dep 0) p ]) ≡ [])
        (sym tree.root) refl

  module _ (next : List ℕ → ℕ) (ctx : List ℕ) (targ : ℕ → ℕ)
      (target : (i : ℕ) → targ i ≡ next (ctx ++ path_of t i)) where
    -- What is returned from a node on: as many greedy tokens as nodes are kept, the node included.
    abbrev Greedy : ℕ → List ℕ × List ℕ → Type 0
    Greedy node r =
        (r.0 ≡ greedy next (ctx ++ path_of t node) (length r.0)) × (length r.0 ≡ suc (length r.1))

    context-child :
        (c n : ℕ)
        → t.tok c ≡ targ n
        → t.par c ≡ some n
        → t.dep c ≡ suc (t.dep n)
        → ctx ++ path_of t c ≡ (ctx ++ path_of t n) ++ targ n ∷ []
    context-child c n same up below =
        ap (λ (p : List ℕ). ctx ++ p) (path_of-child c n up below)
        ∙ ap (λ (w : ℕ). ctx ++ (path_of t n ++ w ∷ [])) same
        ∙ sym (append_assoc ctx (path_of t n) (targ n ∷ []))

    descend-Greedy :
        (fuel node : ℕ)
        → height < t.dep node + fuel
        → t.dep node ≤ height
        → (r : List ℕ × List ℕ) × (descend t targ fuel node ≡ some r) × Greedy node r
    unfolding descend
    descend-Greedy zero node enough low = absurd (omega arith)
    descend-Greedy (suc fuel) node enough low =
        elim (Option-cases (matching t.tok (targ node) (t.children node))) [
          | inl miss ↦
              ((targ node ∷ [], []), rw (miss, descend) refl, (rw (target node) refl, refl))
          | inr (c, hit) ↦
              let (same, (up, below, fits)) =
                matching-lem _ t.tok (targ node) (t.children node) c (tree.up node) hit in
              let (r, found, (tokens, sizes)) =
                descend-Greedy fuel c (omega (arith, below, enough)) fits in
              (
                (targ node ∷ r.0, c ∷ r.1),
                rw (hit, found, descend) refl,
                (
                  ap (◌∷◌ (targ node)) (
                        tokens
                        ∙ ap (λ (k : List ℕ). greedy next k (length r.0))
                            (context-child c node same up below))
                      ∙ ap
                          (λ (w : ℕ).
                            w ∷ greedy next ((ctx ++ path_of t node) ++ w ∷ []) (length r.0))
                          (target node),
                  omega (arith, sizes),
                ),
              )
        ]

    -- A tree of height at most `height`, verified by a target that sees of each node just its
    -- ancestors, commits exactly what plain greedy decoding commits in as many steps, whatever was
    -- proposed; there is one token for each node that is kept, so at least one; and a fuel above the
    -- height is enough.
    pub accept_tree-greedy :
        (fuel : ℕ)
        → height < fuel
        → (r : List ℕ × List ℕ) × (accept_tree t targ fuel ≡ some r)
          × (r.0 ≡ greedy next ctx (length r.0))
          × (length r.0 ≡ length r.1)
          × (0 < length r.0)
    unfolding accept_tree
    accept_tree-greedy fuel enough =
        let (r, found, (tokens, sizes)) =
          descend-Greedy fuel 0 (omega (arith, tree.top, enough)) (omega (arith, tree.top)) in
        (
          (r.0, 0 ∷ r.1),
          rw (found, accept_tree) refl,
          subst (λ (k : List ℕ). r.0 ≡ greedy next k (length r.0))
              (ap (λ (p : List ℕ). ctx ++ p) path_of-root ∙ append-nil ctx) tokens,
          sizes,
          omega (arith, sizes),
        )
