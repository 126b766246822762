-- ===== src/Base/Table.antt =====
-- Dictionaries whose keys are the members of a list, as functions that are read at those keys only.
use mathlib.Core.List.{List, [], ◌∷◌, ◌++◌}
use mathlib.Core.Logic.{◌≢◌, ite, if_pos, if_neg}
use mathlib.Core.Path.{◌≡◌, refl, sym}
use native.Mathlib.Decide.{ℕ_discrete}
use native.Mathlib.Omega.{arith}
use Prim.Native.Nat.{ℕ, ◌+◌}
use shard_glm_image.Base.Lists.{All, sum_of}
use shard_glm_image.Base.Sort.{Distinct}

-- `d[n] = v`
unfoldable pub update : (ℕ → ℕ) → ℕ → ℕ → ℕ → ℕ
update d n v k = ite (ℕ_discrete k n) v (d k)

pub update_self : (d : ℕ → ℕ) (n v : ℕ) → update d n v n ≡ v
unfolding update
update_self d n v = if_pos (ℕ_discrete n n) refl v (d n)

pub update_ne : (d : ℕ → ℕ) (n v k : ℕ) → k ≢ n → update d n v k ≡ d k
unfolding update
update_ne d n v k h = if_neg (ℕ_discrete k n) h v (d k)

-- A sum over keys that were left alone.
pub sum_of_congr : (f g : ℕ → ℕ) (ns : List ℕ) → All (λ n. f n ≡ g n) ns → sum_of f ns ≡ sum_of g ns
sum_of_congr f g [] h = refl
sum_of_congr f g (n ∷ ns) h = omega (arith, h.0, sum_of_congr f g ns h.1)

pub sum_of-update :
    (d : ℕ → ℕ) (n v : ℕ) (ns : List ℕ)
    → All (λ k. k ≢ n) ns
    → sum_of (update d n v) ns ≡ sum_of d ns
sum_of-update d n v [] h = refl
sum_of-update d n v (k ∷ ns) h = omega (arith, update_ne d n v k h.0, sum_of-update d n v ns h.1)

pub sum_of-append : (f : ℕ → ℕ) (xs ys : List ℕ) → sum_of f (xs ++ ys) ≡ sum_of f xs + sum_of f ys
sum_of-append f [] ys = omega arith
sum_of-append f (x ∷ xs) ys = omega (arith, sum_of-append f xs ys)

pub All-append {κ} : (P : ℕ → Type κ) (xs ys : List ℕ) → All P xs → All P ys → All P (xs ++ ys)
All-append P [] ys ps qs = qs
All-append P (x ∷ xs) ys ps qs = (ps.0, All-append P xs ys ps.1 qs)

-- The first key goes to the end.
pub Distinct-rotate : (x : ℕ) (xs : List ℕ) → Distinct (x ∷ xs) → Distinct (xs ++ x ∷ [])
Distinct-rotate x [] h = (tt, tt)
Distinct-rotate x (y ∷ xs) ((ne, others), (new, rest)) =
    (All-append _ xs (x ∷ []) new ((λ q. ne (sym q)), tt), Distinct-rotate x xs (others, rest))
