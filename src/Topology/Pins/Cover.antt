-- ===== src/Topology/Pins/Cover.antt =====
-- What the floors of one loop of `_pin_floors` hold (shard/shard/topology.py).
use mathlib.Core.List.{reverse-cons}
use shard_glm_image.Base.{
  ℕ, ◌-◌, ◌≤◌, ◌≡◌, ◌≢◌, refl, sym, ap, subst, Option, some, List, [], ◌∷◌, ◌++◌, Bool, true, arith,
  All, sum_of, ◌==◌, Bool-cases, Option-cases, inl, inr, min, max, reverse, ℕ_discrete, if_pos,
  if_neg,
}
use shard_glm_image.Base.Table.{sum_of-append, All-append}
use shard_glm_image.Topology.Assign.{base_of}
use shard_glm_image.Topology.Pins.{or_zero, floor_of, raise, cover}

-- Every floor stays or rises.
abbrev pub Rises : (ℕ → Option ℕ) → (ℕ → Option ℕ) → Type 0
Rises f g = (k : ℕ) → floor_of f k ≤ floor_of g k

raise_eq :
    (f : ℕ → Option ℕ) (nd take k : ℕ)
    → k ≡ nd
    → floor_of (raise f nd take) k ≡ max (floor_of f nd) take
unfolding raise floor_of
raise_eq f nd take k e =
    ap or_zero (if_pos (ℕ_discrete k nd) e (some (max (floor_of f nd) take)) (f k))

raise_ne : (f : ℕ → Option ℕ) (nd take k : ℕ) → k ≢ nd → floor_of (raise f nd take) k ≡ floor_of f k
unfolding raise floor_of
raise_ne f nd take k n =
    ap or_zero (if_neg (ℕ_discrete k nd) n (some (max (floor_of f nd) take)) (f k))

raise-Rises : (f : ℕ → Option ℕ) (nd take : ℕ) → Rises f (raise f nd take)
raise-Rises f nd take k = elim (ℕ_discrete k nd) [
  | yes e ↦ omega (arith, raise_eq f nd take k e, ap (floor_of f) e)
  | no n ↦ omega (arith, raise_ne f nd take k n)
]

module _ (trust : ℕ → Bool) where
  abbrev pub Trusted : List ℕ → Type 0
  Trusted order = All (λ n. trust n ≡ true) order

  -- A trusted first part of the order whose floors hold `need` layers.
  pub record Covers (f : ℕ → Option ℕ) (need : ℕ) (order : List ℕ) : Type 0 where
    pub front : List ℕ
    pub behind : List ℕ
    pub split : order ≡ front ++ behind
    pub trusted : Trusted front
    pub enough : need ≤ sum_of (floor_of f) front

  Covers-none :
      (need : ℕ) (order : List ℕ) (f g : ℕ → Option ℕ)
      → need ≡ 0
      → some f ≡ some g
      → Rises f g × Covers g need order
  Covers-none need order f g none_left h =
      let same : f ≡ g = ground (arith, h) in
      (
        (λ k. omega (arith, ap (λ (d : ℕ → Option ℕ). floor_of d k) same)),
        record {
          front = [];
          behind = order;
          split = refl;
          trusted = tt;
          enough = omega (arith, none_left);
        },
      )

  pub cover-Covers :
      (caps : ℕ → ℕ) (need : ℕ) (order : List ℕ) (f g : ℕ → Option ℕ)
      → cover trust caps need order f ≡ some g
      → Rises f g × Covers g need order
  unfolding cover
  cover-Covers caps need [] f g h = elim (Bool-cases (need == 0)) [
    | inl y ↦ Covers-none need [] f g (ground (arith, y)) (ground (arith, y))
    | inr n ↦ absurd (ground (arith, n))
  ]
  cover-Covers caps need (nd ∷ order) f g h =
      let take = min (caps nd) need in
      let raised = raise f nd take in
      elim (Bool-cases (need == 0)) [
        | inl y ↦ Covers-none need (nd ∷ order) f g (ground (arith, y)) (ground (arith, y))
        | inr n ↦
            let good : trust nd ≡ true = ground (arith, n) in
            let (rises, rest) =
              cover-Covers caps (need - take) order raised g (ground (arith, n)) in
            (
              (λ k. omega (arith, raise-Rises f nd take k, rises k)),
              record {
                front = nd ∷ rest.front;
                behind = rest.behind;
                split = ap (◌∷◌ nd) rest.split;
                trusted = (good, rest.trusted);
                enough = omega (arith, rest.enough, raise_eq f nd take nd refl, rises nd);
              },
            )
      ]

-- A property of the nodes of both parts, apart.
pub All_parts : (P : ℕ → Type 0) (xs ys : List ℕ) → All P (xs ++ ys) → All P xs × All P ys
All_parts P [] ys h = (tt, h)
All_parts P (x ∷ xs) ys h = let (front, behind) = All_parts P xs ys h.1 in ((h.0, front), behind)

pub All-reverse : (P : ℕ → Type 0) (xs : List ℕ) → All P xs → All P (reverse xs)
All-reverse P [] h = tt
All-reverse P (x ∷ xs) h =
    subst (All P) (sym (reverse-cons x xs))
      (All-append P (reverse xs) (x ∷ []) (All-reverse P xs h.1) (h.0, tt))

pub sum_of-reverse : (f : ℕ → ℕ) (xs : List ℕ) → sum_of f (reverse xs) ≡ sum_of f xs
sum_of-reverse f [] = refl
sum_of-reverse f (x ∷ xs) = omega (
  arith,
  ap (sum_of f) (reverse-cons x xs),
  sum_of-append f (reverse xs) (x ∷ []),
  sum_of-reverse f xs,
)

pub floor_of_base : (f : ℕ → Option ℕ) (n : ℕ) → floor_of f n ≤ base_of f n
unfolding floor_of base_of
floor_of_base f n = elim (Option-cases (f n)) [
  | inl e ↦ ground (arith, e)
  | inr (k, e) ↦ ground (arith, e)
]
