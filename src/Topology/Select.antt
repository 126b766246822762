-- ===== src/Topology/Select.antt =====
-- shard/shard/topology.py `select_ring`, with trusted nodes and without upload speeds: the pool that is searched, and
-- what is returned. A set is walked in the order in which it was filled.
pub mod Served
use shard_glm_image.Base.{
  ℕ, zero, suc, ◌+◌, ◌-◌, ◌*◌, ◌/◌, ◌==◌, Bool, true, false, not, ◌&&◌, ◌||◌, Option, none, some,
  List, [], ◌∷◌, ◌++◌, ltb, leb, if◌then◌else◌, length, take, map, min, max, sum_of,
}
use shard_glm_image.Base.Sort.{sort_by}
use shard_glm_image.Topology.Assign.{assign_layers, any}
use shard_glm_image.Topology.Head.{loop_cost, without, permutations}
use shard_glm_image.Topology.Pins.{pin_floors, all_in, ends_in, boundary_nodes}
use shard_glm_image.Topology.Tour.{range, count_from, pin_order_oversize}
use shard_glm_image.Topology.Search.{among, chosen, Pool, Ring, misses, search}

module _ (p : Pool) where
  -- The best of each subnet.
  unfoldable pub keep_best : ℕ → ℕ → List (ℕ × ℕ) → List (ℕ × ℕ)
  keep_best s c [] = (s, c) ∷ []
  keep_best s c ((s', c') ∷ best) =
      if s' == s then (s', max c' c) ∷ best else (s', c') ∷ keep_best s c best

  unfoldable pub best_by_subnet : List ℕ → List (ℕ × ℕ) → List (ℕ × ℕ)
  unfolding keep_best
  best_by_subnet [] best = best
  best_by_subnet (n ∷ pool) best = best_by_subnet pool (keep_best (p.subnet n) (p.caps n) best)

  unfoldable pub feasible_cap : List ℕ → ℕ
  unfolding best_by_subnet
  feasible_cap pool = sum_of (λ ((s, c) : ℕ × ℕ). c) (best_by_subnet pool [])

  -- The loops over `by_cap`: one node of each new subnet, until enough are picked.
  unfoldable pub walk : (ℕ → Bool) → (List ℕ → Bool) → List ℕ → List ℕ → List ℕ → List ℕ
  walk skip enough seen picks [] = picks
  walk skip enough seen picks (n ∷ ns) =
      let more = n ∷ picks in
      let on = walk skip enough (p.subnet n ∷ seen) more ns in
      let past = walk skip enough seen picks ns in
      if skip n || among (p.subnet n) seen then past else if enough more then more else on

  unfoldable pub by_cap : List ℕ → List ℕ
  unfolding sort_by
  by_cap usable = sort_by (λ n m. leb (p.caps m) (p.caps n)) usable

  abbrev pub holds_model : ℕ → List ℕ → Bool
  holds_model acc picks = leb p.n_layers (acc + sum_of p.caps picks)

  unfoldable pub k_min_of : List ℕ → ℕ
  unfolding walk by_cap
  k_min_of usable = length (walk (λ n. false) (holds_model 0) [] [] (by_cap usable))

  unfoldable pub required_cover : List ℕ → Option ℕ → List ℕ
  unfolding walk by_cap
  required_cover usable none = []
  required_cover usable (some r) =
      r ∷ walk (λ n. false) (holds_model (p.caps r)) (p.subnet r ∷ []) [] (by_cap usable)

  -- The nodes that a trimmed pool has to keep, the last one picked first.
  unfoldable pub must_keep : List ℕ → ℕ → ℕ → List ℕ
  unfolding walk by_cap required_cover
  must_keep usable k_min slack =
      let cover =
        walk (λ n. false) (λ picks. leb (k_min + slack) (length picks)) [] [] (by_cap usable) in
      let trusted =
        walk (λ n. not (p.trust n)) (λ picks. leb (2 + slack) (length picks)) [] []
          (by_cap usable) in
      cover ++ required_cover usable p.require ++ trusted

  -- `[n for n in must if n not in keep]`
  unfoldable pub add_new : List ℕ → List ℕ → List ℕ
  add_new keep [] = keep
  add_new keep (n ∷ must) = add_new (if among n keep then keep else keep ++ n ∷ []) must

  unfoldable pub trim : List ℕ → ℕ → ℕ → List ℕ
  unfolding must_keep add_new sort_by
  trim usable k_min slack =
      if ltb 12 (length usable)
      then add_new
          (take 12 (sort_by (λ n m. leb (p.c_out n + p.c_in n) (p.c_out m + p.c_in m)) usable))
          (must_keep usable k_min slack)
      else usable

-- `ValueError`, `None` or a ring with the nodes that are left out.
pub data Selected : Type 0 where
  value_error infeasible : Selected
  formed : Ring → List ℕ → Selected

unfoldable pub formed_of : List ℕ → Option Ring → Selected
unfolding chosen
formed_of nodes none = infeasible
formed_of nodes (some ring) = formed ring (chosen (λ n. not (among n ring.order)) nodes)

-- The windows clamped to the model.
abbrev pub clamped : Pool → Pool
clamped p = record p { b_in = min p.b_in p.n_layers; b_out = min p.b_out p.n_layers }

-- The search, widened when no ring of the first sizes is found.
unfoldable pub widened : Pool → List ℕ → ℕ → Option Ring
unfolding search
widened p usable kmax = search p usable (suc kmax) (length usable)

abbrev pub or_else : Option Ring → Option Ring → Option Ring
or_else none other = other
or_else (some ring) other = some ring

abbrev pub clashes : Option ℕ → List ℕ → Bool
clashes none exclude = false
clashes (some r) exclude = among r exclude

abbrev pub untrusted_head : Pool → Bool
untrusted_head p = elim p.require [ none ↦ false | some r ↦ not (p.trust r) ]

-- No ring can be formed: the head that is asked for cannot serve, no node is trusted, or the model does not fit.
unfoldable pub is_hopeless : Pool → List ℕ → Bool
unfolding any feasible_cap
is_hopeless p usable =
    misses p.require usable
    || (untrusted_head p || (not (any p.trust usable) || ltb (feasible_cap p usable) p.n_layers))

-- The ring of the nodes that are searched.
unfoldable pub found_in : Pool → List ℕ → ℕ → Option Ring
unfolding k_min_of trim search widened
found_in p usable slack =
    let k_min = k_min_of p usable in
    let pool = trim p usable k_min slack in
    or_else (search p pool k_min (k_min + slack)) (widened p pool (k_min + slack))

unfoldable pub select_usable : Pool → List ℕ → List ℕ → ℕ → Selected
unfolding is_hopeless found_in formed_of
select_usable p nodes usable slack =
    let found = formed_of nodes (found_in p usable slack) in
    if is_hopeless p usable then infeasible else found

-- `select_ring`
unfoldable pub select_ring : Pool → List ℕ → List ℕ → ℕ → Selected
unfolding chosen select_usable
select_ring p nodes exclude slack =
    let left = chosen (λ n. not (among n exclude)) nodes in
    let usable = chosen (λ n. ltb 0 (p.caps n)) left in
    if clashes p.require exclude then value_error else select_usable (clamped p) left usable slack
