-- ===== src/Topology/Head.antt =====
-- shard/shard/topology.py: the latency of an order of stages, and the order that starts at the
-- coordinator's own node (`loop_cost`, `_head_first`).
pub mod Arranged
pub mod Cheapest
use mathlib.Core.Option
use shard_glm_image.Base.{
  ℕ, zero, suc, ◌+◌, if◌then◌else◌, Option, none, some, List, [], ◌∷◌, ◌++◌, Bool, ltb, leb, ◌==◌,
  map, length, reverse,
}
use shard_glm_image.Topology.Pins.{last_of}

module _ (L : ℕ → ℕ → ℕ) (c_out c_in : ℕ → ℕ) where
  -- The hops along the order, from `a` on.
  unfoldable pub hops : ℕ → List ℕ → ℕ
  hops a [] = 0
  hops a (b ∷ order) = L a b + hops b order

  unfoldable pub loop_cost : List ℕ → ℕ
  unfolding hops
  loop_cost [] = 0
  loop_cost (n ∷ order) = c_out n + c_in (last_of n order) + hops n order

-- `[n for n in order if n != head]`
unfoldable pub without : ℕ → List ℕ → List ℕ
without head [] = []
without head (n ∷ order) = if n == head then without head order else n ∷ without head order

-- The permutations that begin with each element of `behind`, which stands behind `front`.
unfoldable pub each : (List ℕ → List (List ℕ)) → List ℕ → List ℕ → List (List ℕ)
each perms front [] = []
each perms front (x ∷ behind) =
    map (◌∷◌ x) (perms (front ++ behind)) ++ each perms (front ++ x ∷ []) behind

-- `itertools.permutations`, in its order, of a list whose length is the fuel.
unfoldable pub permutations : ℕ → List ℕ → List (List ℕ)
unfolding each
permutations zero xs = [] ∷ []
permutations (suc fuel) xs = each (permutations fuel) [] xs

-- `min` with a key: the first of the smallest, and an exception on nothing.
unfoldable pub best_of : (List ℕ → ℕ) → List ℕ → List (List ℕ) → List ℕ
best_of key best [] = best
best_of key best (p ∷ ps) = if ltb (key p) (key best) then best_of key p ps else best_of key best ps

unfoldable pub min_by : (List ℕ → ℕ) → List (List ℕ) → Option (List ℕ)
unfolding best_of
min_by key [] = none
min_by key (p ∷ ps) = some (best_of key p ps)

module _ (L : ℕ → ℕ → ℕ) (c_out c_in : ℕ → ℕ) (head : ℕ) where
  unfoldable pub pinned_first : List ℕ → Option (List ℕ)
  unfolding loop_cost permutations min_by
  pinned_first rest =
      if leb (length rest) 7
      then Option.map (◌∷◌ head)
          (min_by (λ p. loop_cost L c_out c_in (head ∷ p)) (permutations (length rest) rest))
      else min_by (loop_cost L c_out c_in) ((head ∷ rest) ∷ (head ∷ reverse rest) ∷ [])

  unfoldable pub head_first : List ℕ → Option (List ℕ)
  unfolding without pinned_first
  head_first [] = none
  head_first (n ∷ order) =
      if n == head then some (n ∷ order) else pinned_first (without head (n ∷ order))
