-- ===== src/Base/Text/Start.antt =====
-- Where a text starts with another, and where it is found.
use Prim.Native.Nat.{ℕ, ◌+◌, ◌≤◌}
use mathlib.Core.Path.{◌≡◌, refl}
use mathlib.Core.Logic.{inl, inr}
use mathlib.Core.Bool.{true}
use mathlib.Core.List.{List, [], ◌∷◌, ◌++◌}
use mathlib.Core.Option.{some}
use native.Mathlib.Omega.{arith}
use shard_glm_image.Base.Lists.{length}
use shard_glm_image.Base.Tests.{Option-cases}
use shard_glm_image.Base.Text.{starts_with, find}

-- Whether a text starts with a marker that is no longer is seen in the text alone.
pub starts_with-append :
    (text more sub : List ℕ)
    → length sub ≤ length text
    → starts_with (text ++ more) sub ≡ starts_with text sub
unfolding starts_with
starts_with-append [] more [] h = ground arith
starts_with-append (a ∷ text) more [] h = ground arith
starts_with-append [] more (b ∷ sub) h = absurd (omega arith)
starts_with-append (a ∷ text) more (b ∷ sub) h = ground (arith, starts_with-append text more sub)

pub starts_with-le : (text sub : List ℕ) → starts_with text sub ≡ true → length sub ≤ length text
unfolding starts_with
starts_with-le [] [] h = omega arith
starts_with-le (a ∷ text) [] h = omega arith
starts_with-le [] (b ∷ sub) h = cc
starts_with-le (a ∷ text) (b ∷ sub) h = ground (arith, starts_with-le text sub)

-- A found marker lies inside the text.
pub find-le : (text sub : List ℕ) (j : ℕ) → find text sub ≡ some j → j + length sub ≤ length text
unfolding find
find-le [] sub j h = ground (arith, starts_with-le [] sub)
find-le (a ∷ text) sub j h = elim (Option-cases (find text sub)) [
  | inl miss ↦ ground (arith, starts_with-le (a ∷ text) sub)
  | inr (i, hit) ↦ ground (arith, starts_with-le (a ∷ text) sub, find-le text sub i hit)
]

find_empty : (text : List ℕ) → find text [] ≡ some 0
unfolding find starts_with
find_empty [] = refl
find_empty (a ∷ text) = refl

-- Where a marker is found, it is found in every longer text.
pub find-append :
    (text more sub : List ℕ) (j : ℕ) → find text sub ≡ some j → find (text ++ more) sub ≡ some j
unfolding find starts_with
find-append [] more [] j h = ground (arith, find_empty more)
find-append [] more (b ∷ sub) j h = cc
find-append (a ∷ text) more sub j h = elim (Option-cases (find text sub)) [
  | inl miss ↦ ground (arith, starts_with-append (a ∷ text) more sub, starts_with-le (a ∷ text) sub)
  | inr (i, hit) ↦ ground (
    arith,
    starts_with-append (a ∷ text) more sub,
    find-le text sub i hit,
    find-append text more sub i hit,
  )
]
