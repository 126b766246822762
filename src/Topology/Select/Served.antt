-- ===== src/Topology/Select/Served.antt =====
-- The ring that shard/shard/topology.py `select_ring` returns serves the model out of the nodes that it was given.
use mathlib.Core.List.{Mem}
use shard_glm_image.Base.{
  ℕ, zero, suc, ◌+◌, ◌≡◌, ◌∙◌, refl, sym, Bool, false, not, ◌||◌, Bool-cases, Option, none, some,
  inl, inr, List, [], ◌∷◌, ◌++◌, All, arith, length, take, ltb, leb, ap,
}
use shard_glm_image.Base.Sort.{sort_by, All-sort_by}
use shard_glm_image.Topology.Search.{among, chosen, Pool, Ring, misses, search}
use shard_glm_image.Topology.Search.Picked.{among-Mem, All-Mem, All_joined}
use shard_glm_image.Topology.Search.Found.{IsServing, member, search-IsServing}
use shard_glm_image.Topology.Select.{
  walk, by_cap, k_min_of, must_keep, required_cover, holds_model, add_new, trim, formed, formed_of,
  clamped, widened, or_else, clashes, is_hopeless, found_in, select_usable, select_ring,
}

module _ (p : Pool) (Q : ℕ → Type 0) where
  All-walk :
      (skip : ℕ → Bool) (enough : List ℕ → Bool) (seen picks ns : List ℕ)
      → All Q picks
      → All Q ns
      → All Q (walk p skip enough seen picks ns)
  unfolding walk
  All-walk skip enough seen picks [] a b = a
  All-walk skip enough seen picks (n ∷ ns) a (here, b) =
      elim (Bool-cases (skip n || among (p.subnet n) seen)) [
        | inl y ↦ rw y (All-walk skip enough seen picks ns a b)
        | inr fresh ↦ elim (Bool-cases (enough (n ∷ picks))) [
          | inl done ↦ rw (fresh, done) (here, a)
          | inr more ↦
              rw (fresh, more) (All-walk skip enough (p.subnet n ∷ seen) (n ∷ picks) ns (here, a) b)
        ]
      ]

  All-add_new : (keep must : List ℕ) → All Q keep → All Q must → All Q (add_new p keep must)
  unfolding add_new
  All-add_new keep [] a b = a
  All-add_new keep (n ∷ must) a (here, b) = elim (Bool-cases (among n keep)) [
    | inl y ↦ rw y (All-add_new keep must a b)
    | inr new ↦
        rw new (All-add_new (keep ++ n ∷ []) must (All_joined Q keep (n ∷ []) a (here, tt)) b)
  ]

  All-take : (n : ℕ) (ns : List ℕ) → All Q ns → All Q (take n ns)
  All-take zero ns a = tt
  All-take (suc n) [] a = tt
  All-take (suc n) (k ∷ ns) (here, a) = (here, All-take n ns a)

  All-by_cap : (usable : List ℕ) → All Q usable → All Q (by_cap p usable)
  unfolding by_cap
  All-by_cap usable a = All-sort_by (λ n m. leb (p.caps m) (p.caps n)) Q usable a

  All-required_cover :
      (usable : List ℕ) (require : Option ℕ)
      → All Q usable
      → ((r : ℕ) → require ≡ some r → Q r)
      → All Q (required_cover p usable require)
  unfolding required_cover
  All-required_cover usable none a head = tt
  All-required_cover usable (some r) a head = (
    head r refl,
    All-walk (λ n. false) (holds_model p (p.caps r)) (p.subnet r ∷ []) [] (by_cap p usable) tt
        (All-by_cap usable a),
  )

  All-must_keep :
      (usable : List ℕ) (k_min slack : ℕ)
      → All Q usable
      → ((r : ℕ) → p.require ≡ some r → Q r)
      → All Q (must_keep p usable k_min slack)
  unfolding must_keep
  All-must_keep usable k_min slack a head =
      let nodes = by_cap p usable in
      let cover = walk p (λ n. false) (λ picks. leb (k_min + slack) (length picks)) [] [] nodes in
      let trusted =
        walk p (λ n. not (p.trust n)) (λ picks. leb (2 + slack) (length picks)) [] [] nodes in
      All_joined Q (cover ++ required_cover p usable p.require) trusted
        (All_joined Q cover (required_cover p usable p.require)
          (All-walk (λ n. false) (λ picks. leb (k_min + slack) (length picks)) [] [] nodes tt
            (All-by_cap usable a))
          (All-required_cover usable p.require a head))
        (All-walk (λ n. not (p.trust n)) (λ picks. leb (2 + slack) (length picks)) [] [] nodes tt
          (All-by_cap usable a))

  All-trim :
      (usable : List ℕ) (k_min slack : ℕ)
      → All Q usable
      → ((r : ℕ) → p.require ≡ some r → Q r)
      → All Q (trim p usable k_min slack)
  unfolding trim
  All-trim usable k_min slack a head = elim (Bool-cases (ltb 12 (length usable))) [
    | inr small ↦ rw small a
    | inl large ↦ rw large (
        All-add_new (take 12 (sort_by nearer usable)) (must_keep p usable k_min slack)
          (All-take 12 (sort_by nearer usable) (All-sort_by nearer Q usable a))
          (All-must_keep usable k_min slack a head))
  ]
    where
      nearer : ℕ → ℕ → Bool
      nearer n m = leb (p.c_out n + p.c_in n) (p.c_out m + p.c_in m)

-- The nodes that are not excluded, and can hold a layer.
unfoldable pub usable_of : Pool → List ℕ → List ℕ → List ℕ
unfolding chosen
usable_of p nodes exclude =
    chosen (λ n. ltb 0 (p.caps n)) (chosen (λ n. not (among n exclude)) nodes)

IsServing-wider :
    (p : Pool) (few many : List ℕ) (ring : Ring)
    → ((n : ℕ) → Mem n few → Mem n many)
    → IsServing p few ring
    → IsServing p many ring
IsServing-wider p few many ring wider s = record {
  members = λ n m. wider n (s.members n m);
  apart = s.apart;
  headed = s.headed;
  boundary = s.boundary;
  bounds = s.bounds;
  total = s.total;
  cost = s.cost;
}

hopeful :
    (p : Pool) (usable : List ℕ) → is_hopeless p usable ≡ false → misses p.require usable ≡ false
unfolding is_hopeless
hopeful p usable hope = ground (arith, hope)

module _ (p : Pool) (nodes usable : List ℕ) (slack : ℕ) where
  trimmed_to : List ℕ
  trimmed_to = trim p usable (k_min_of p usable) slack

  trimmed_within : misses p.require usable ≡ false → (n : ℕ) → Mem n trimmed_to → Mem n usable
  unfolding trimmed_to
  trimmed_within present = member trimmed_to usable (
      All-trim p (λ n. Mem n usable) usable (k_min_of p usable) slack (All-Mem usable)
        (λ r e. head r (cc (sym (ap (λ (o : Option ℕ). misses o usable) e) ∙ present))))
    where
      head : (r : ℕ) → misses (some r) usable ≡ false → Mem r usable
      head r h = among-Mem r usable (ground (arith, h))

  found_in-IsServing :
      (ring : Ring)
      → misses p.require usable ≡ false
      → found_in p usable slack ≡ some ring
      → IsServing p usable ring
  unfolding found_in widened trimmed_to
  found_in-IsServing ring present h =
      let k_min = k_min_of p usable in go (search p trimmed_to k_min (k_min + slack)) refl h
    where
      wide : (ring : Ring) → IsServing p trimmed_to ring → IsServing p usable ring
      wide ring s = IsServing-wider p trimmed_to usable ring (trimmed_within present) s

      go :
          (o : Option Ring)
          → search p trimmed_to (k_min_of p usable) (k_min_of p usable + slack) ≡ o
          → or_else o (widened p trimmed_to (k_min_of p usable + slack)) ≡ some ring
          → IsServing p usable ring
      go none e h = wide ring (
          search-IsServing p trimmed_to (suc (k_min_of p usable + slack)) (length trimmed_to) ring
            h)
      go (some found) e h = wide ring (
          search-IsServing p trimmed_to (k_min_of p usable) (k_min_of p usable + slack) ring
            (e ∙ h))

  formed_of-some :
      (o : Option Ring) (ring : Ring) (dropped : List ℕ)
      → formed_of nodes o ≡ formed ring dropped
      → o ≡ some ring
  unfolding formed_of
  formed_of-some none ring dropped h = absurd (cc h)
  formed_of-some (some found) ring dropped h = cc h

  select_usable-IsServing :
      (ring : Ring) (dropped : List ℕ)
      → select_usable p nodes usable slack ≡ formed ring dropped
      → IsServing p usable ring
  unfolding select_usable
  select_usable-IsServing ring dropped h = elim (Bool-cases (is_hopeless p usable)) [
    | inl hopeless ↦ absurd (ground (arith, h, hopeless))
    | inr hope ↦
        found_in-IsServing ring (hopeful p usable hope)
          (formed_of-some (found_in p usable slack) ring dropped (ground (arith, h, hope)))
  ]

-- A ring that `select_ring` forms is of nodes that were not excluded and can hold a layer, in different subnets, behind
-- the head that was asked for; each stage holds a layer at least and no more than fit, all of them the whole model; both
-- ends, and every stage with a layer of the two boundaries, are trusted; and its rank is its predicted step time.
pub select_ring-IsServing :
    (p : Pool) (nodes exclude : List ℕ) (slack : ℕ) (ring : Ring) (dropped : List ℕ)
    → select_ring p nodes exclude slack ≡ formed ring dropped
    → IsServing (clamped p) (usable_of p nodes exclude) ring
unfolding select_ring usable_of
select_ring-IsServing p nodes exclude slack ring dropped h =
    elim (Bool-cases (clashes p.require exclude)) [
      | inl clash ↦ absurd (ground (arith, h, clash))
      | inr fine ↦
          let left = chosen (λ n. not (among n exclude)) nodes in
          select_usable-IsServing (clamped p) left (usable_of p nodes exclude) slack ring dropped
            (ground (arith, h, fine))
    ]
