-- ===== src/Chat/Prompt/Checked.antt =====
-- The checks on the way to the ids of a prompt, taken apart (shard/engines/kimi_k3/k3_tools.py).
use shard_glm_image.Base.{
  ℕ, zero, suc, ◌<◌, ◌≡◌, ◌∙◌, ◌↔◌, refl, sym, ap, Bool, true, Bool-cases, some, inl, inr, List, [],
  ◌∷◌, ltb, leb, All, arith,
}
use shard_glm_image.Base.Sort.{insert_by, sort_by}
use shard_glm_image.Chat.Prompt.{Outcome, ok, refused, ◌>>=◌, ◌>>◌, places}
use shard_glm_image.Chat.Prompt.Ids.{set_of, out_of_range, check_ids, refuse_ids}

pub >>=-ok :
    {A B : Type 0} (m : Outcome A) (f : A → Outcome B) (b : B)
    → (m >>= f) ≡ ok b
    → (a : A) × (m ≡ ok a) × (f a ≡ ok b)
>>=-ok (ok a) f b h = (a, refl, h)
>>=-ok (refused e) f b h = absurd (cc h)

pub >>-ok :
    {B : Type 0} (m : Outcome Unit) (k : Outcome B) (b : B)
    → (m >> k) ≡ ok b
    → (m ≡ ok tt) × (k ≡ ok b)
>>-ok (ok tt) k b h = (refl, h)
>>-ok (refused e) k b h = absurd (cc h)

pub insert_by-cons : (x : ℕ) (ys : List ℕ) → insert_by leb x ys ≡ [] → ⊥
unfolding insert_by
insert_by-cons x [] h = absurd (cc h)
insert_by-cons x (y ∷ ys) h = ground (arith, h)

pub sort_by-nil : (xs : List ℕ) → sort_by leb xs ≡ [] → xs ≡ []
unfolding sort_by
sort_by-nil [] h = refl
sort_by-nil (x ∷ xs) h = absurd (insert_by-cons x (sort_by leb xs) h)

pub set_of-nil : (n i : ℕ) (rest : List ℕ) → set_of n i rest ≡ [] → (rest ≡ []) × (i < n)
set_of-nil n i [] h = (refl, ground (arith, h))
set_of-nil n i (j ∷ js) h = absurd (ground (arith, h))

pub out_of_range-nil : (n : ℕ) (ids : List ℕ) → out_of_range n ids ≡ [] → All (λ (i : ℕ). i < n) ids
unfolding out_of_range
out_of_range-nil n [] h = tt
out_of_range-nil n (i ∷ ids) h =
    let (none_behind, small) = set_of-nil n i (out_of_range n ids) h in
    (small, out_of_range-nil n ids none_behind)

pub out_of_range-All : (n : ℕ) (ids : List ℕ) → All (λ (i : ℕ). i < n) ids → out_of_range n ids ≡ []
unfolding out_of_range
out_of_range-All n [] h = refl
out_of_range-All n (i ∷ ids) (small, rest) =
    let e : ltb i n ≡ true = ground arith in rw e (out_of_range-All n ids rest)

pub refuse_ids-ok : (bad ids got : List ℕ) → refuse_ids bad ids ≡ ok got → (bad ≡ []) × (got ≡ ids)
unfolding refuse_ids
refuse_ids-ok [] ids got h = (refl, cc h)
refuse_ids-ok (i ∷ bad) ids got h = absurd (cc h)

-- Ids pass the check against a bound exactly if each is below it, and come out as they went in.
pub check_ids-All :
    (n : ℕ) (ids got : List ℕ)
    → 0 < n
    → (check_ids ids (some n) ≡ ok got) ↔ ((got ≡ ids) × All (λ (i : ℕ). i < n) ids)
unfolding check_ids refuse_ids sort_by
check_ids-All zero ids got h = absurd (omega (arith, h))
check_ids-All (suc n) ids got h = (
  λ (passed : refuse_ids (sort_by leb (out_of_range (suc n) ids)) ids ≡ ok got).
      let (none_bad, same) =
        refuse_ids-ok (sort_by leb (out_of_range (suc n) ids)) ids got passed in
      (same, out_of_range-nil (suc n) ids (sort_by-nil (out_of_range (suc n) ids) none_bad)),
  λ ((same, small) : (got ≡ ids) × All (λ (i : ℕ). i < suc n) ids).
      ap (λ (bad : List ℕ). refuse_ids (sort_by leb bad) ids) (out_of_range-All (suc n) ids small)
      ∙ ap (λ (is : List ℕ). ok is) (sym same),
)

pub places-All {ℓ} :
    {A : Type ℓ} (is_good : A → Bool) (i : ℕ) (ms : List A)
    → places is_good i ms ≡ []
    → All (λ (m : A). is_good m ≡ true) ms
unfolding places
places-All is_good i [] h = tt
places-All is_good i (m ∷ ms) h = elim (Bool-cases (is_good m)) [
  | inl good ↦ (good, places-All is_good (suc i) ms (ground (arith, h, good)))
  | inr bad ↦ absurd (ground (arith, h, bad))
]
