-- ===== src/Tests/Drafts.antt =====
-- A tree of drafts, and drafts from a repeated text (shard/phase0/tree.py, shard/phase0/ngram_draft.py).
use shard_glm_image.Base.{
  ℕ, zero, suc, All, false, ◌+◌, ◌≡◌, ◌≤◌, ◌<◌, refl, none, some, List, [], ◌∷◌, arith,
  if◌then◌else◌, ◌==◌, length,
}
use shard_glm_image.Speculation.Tree.{
  Tree, climb, ancestors, in_window, member, attends, matching, descend, accept_tree,
}
use shard_glm_image.Speculation.Tree.Greedy.{IsTree, path_of, greedy, accept_tree-greedy}
use shard_glm_image.Speculation.Tree.Causal.{position, attends-causal}
use shard_glm_image.Speculation.Ngram.{
  NgramDrafter, same, append_at, lookup, index_from, sync, last_token, extend, beats, best_of,
  recent, pad, choose, propose, accepted, simulate,
}
use shard_glm_image.Speculation.Ngram.Copied.{Copy, propose-Copy}

program : Unit {0}
unfolding climb ancestors in_window member attends matching descend accept_tree same append_at
    lookup index_from sync last_token extend beats best_of recent pad choose propose accepted
    simulate
program = tt

abbrev kids : ℕ → List ℕ
kids zero = 1 ∷ 3 ∷ []
kids (suc zero) = 2 ∷ []
kids (suc (suc n)) = []

-- The root, with two children, of which the first has one.
abbrev tree : Tree
tree = record {
  tok = λ i. if i == 0 then 100 else if i == 1 then 11 else if i == 2 then 12 else 21;
  par = λ i. if i == 0 then none else if i == 2 then some 1 else some 0;
  dep = λ i. if i == 0 then 0 else if i == 2 then 2 else 1;
  children = kids;
}

-- A target that counts on from its last token.
abbrev next : List ℕ → ℕ
next ctx = 10 + length ctx

abbrev targ : ℕ → ℕ
targ i = next (100 ∷ path_of tree i)

accepted_all : accept_tree tree targ 3 ≡ some (11 ∷ 12 ∷ 13 ∷ [], 0 ∷ 1 ∷ 2 ∷ [])
unfolding program
accepted_all = refl

kids_up :
    (n : ℕ)
    → All (λ c. (tree.par c ≡ some n) × (tree.dep c ≡ suc (tree.dep n)) × (tree.dep c ≤ 2)) (kids n)
kids_up zero = ((refl, refl, omega arith), ((refl, refl, omega arith), tt))
kids_up (suc zero) = ((refl, refl, omega arith), tt)
kids_up (suc (suc n)) = tt

tree-IsTree : IsTree tree 2
tree-IsTree = record { root = refl; top = refl; up = kids_up }

accept_tree-greedy_example :
    (r : List ℕ × List ℕ) × (accept_tree tree targ 3 ≡ some r)
    × (r.0 ≡ greedy next (100 ∷ []) (length r.0))
    × (length r.0 ≡ length r.1)
    × (0 < length r.0)
accept_tree-greedy_example =
    accept_tree-greedy tree 2 tree-IsTree next (100 ∷ []) targ (λ i. refl) 3 (omega arith)

deeper : (c n : ℕ) → tree.par c ≡ some n → tree.dep c ≡ suc (tree.dep n)
deeper c n h = ground (arith, h)

attends-causal_example : position tree 5 6 ≤ 5 + tree.dep 2
unfolding program
attends-causal_example = attends-causal tree deeper 5 0 2 6 refl

abbrev fresh : NgramDrafter
fresh = record {
  ng = 2;
  max_ext = 8;
  max_cand = 4;
  margin = 0;
  min_match = 0;
  indexed = 0;
  table = [];
  matched = false;
}

abbrev text : List ℕ
text = 1 ∷ 2 ∷ 3 ∷ 4 ∷ 1 ∷ 2 ∷ []

drafted : (propose fresh text 3).1 ≡ 3 ∷ 4 ∷ 1 ∷ []
unfolding program
drafted = refl

padded : (propose fresh text 6).1 ≡ 3 ∷ 4 ∷ 1 ∷ 2 ∷ 2 ∷ 2 ∷ []
unfolding program
padded = refl

unmatched : (propose fresh (5 ∷ []) 2).1 ≡ 5 ∷ 5 ∷ []
unfolding program
unmatched = refl

simulated : simulate fresh (1 ∷ 2 ∷ 3 ∷ 1 ∷ 2 ∷ 3 ∷ 1 ∷ 2 ∷ []) 4 8 1 ≡ (5, 8)
unfolding program
simulated = refl

propose-Copy_example : Copy 2 text 3 (propose fresh text 3).1
unfolding program
propose-Copy_example = propose-Copy fresh text 3 tt refl
