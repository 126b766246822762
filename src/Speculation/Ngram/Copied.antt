-- ===== src/Speculation/Ngram/Copied.antt =====
-- What a match is: the draft is copied from behind an earlier occurrence of the current suffix
-- (shard/phase0/ngram_draft.py).
use shard_glm_image.Base.{
  ℕ, zero, suc, ◌+◌, ◌-◌, ◌≤◌, ◌<◌, ◌≡◌, refl, sym, ap, subst, Option, none, some, List, [], ◌∷◌,
  ◌++◌, arith, length, take, drop, length-append, Bool-cases, inl, inr, ltb, leb, ◌==◌,
  if◌then◌else◌, max, Bool, true, false, reverse, All,
}
use mathlib.Core.List.{reverse-cons}
use shard_glm_image.Base.Table.{All-append}
use shard_glm_image.Speculation.Ngram.{
  NgramDrafter, same, append_at, lookup, slice, index_from, sync, pad, choose, best_of, beats,
  extend, recent, propose,
}

same-eq : (x y : List ℕ) → same x y ≡ true → x ≡ y
unfolding same
same-eq [] [] h = refl
same-eq [] (b ∷ y) h = absurd (ground arith)
same-eq (a ∷ x) [] h = absurd (ground arith)
same-eq (a ∷ x) (b ∷ y) h = ground (arith, same-eq x y)

module _ (P : List ℕ → ℕ → Type 0) where
  -- Each position of the table is right for its key.
  abbrev pub Indexed : List (List ℕ × List ℕ) → Type 0
  Indexed tbl = All (λ e. All (P e.0) e.1) tbl

  All-snoc : (key ps : List ℕ) (p : ℕ) → All (P key) ps → P key p → All (P key) (ps ++ p ∷ [])
  All-snoc key [] p h q = (q, tt)
  All-snoc key (r ∷ ps) p h q = (h.0, All-snoc key ps p h.1 q)

  append_at-Indexed :
      (tbl : List (List ℕ × List ℕ)) (key : List ℕ) (p : ℕ)
      → Indexed tbl
      → P key p
      → Indexed (append_at tbl key p)
  unfolding append_at
  append_at-Indexed [] key p h q = ((q, tt), tt)
  append_at-Indexed ((k, ps) ∷ tbl) key p (hs, h) q = elim (Bool-cases (same k key)) [
    | inl y ↦ rw y (All-snoc k ps p hs (subst (λ (x : List ℕ). P x p) (sym (same-eq k key y)) q), h)
    | inr n ↦ rw n (hs, append_at-Indexed tbl key p h q)
  ]

  lookup-Indexed :
      (tbl : List (List ℕ × List ℕ)) (key : List ℕ) → Indexed tbl → All (P key) (lookup tbl key)
  unfolding lookup
  lookup-Indexed [] key h = tt
  lookup-Indexed ((k, ps) ∷ tbl) key (hs, h) = elim (Bool-cases (same k key)) [
    | inl y ↦ rw y (subst (λ (x : List ℕ). All (P x) ps) (same-eq k key y) hs)
    | inr n ↦ rw n (lookup-Indexed tbl key h)
  ]

module _ (P : ℕ → Type 0) where
  All-drop : (m : ℕ) (ps : List ℕ) → All P ps → All P (drop m ps)
  All-drop zero ps h = h
  All-drop (suc m) [] h = tt
  All-drop (suc m) (p ∷ ps) h = All-drop m ps h.1

  All-reverse : (ps : List ℕ) → All P ps → All P (reverse ps)
  All-reverse [] h = tt
  All-reverse (p ∷ ps) h =
      rw (reverse-cons p ps) (All-append P (reverse ps) (p ∷ []) (All-reverse ps h.1) (h.0, tt))

  All-recent : (m : ℕ) (ps : List ℕ) → All P ps → All P (recent m ps)
  unfolding recent
  All-recent zero ps h = All-reverse ps h
  All-recent (suc m) ps h =
      All-reverse (drop (length ps - suc m) ps) (All-drop (length ps - suc m) ps h)

  -- The best position is one of the candidates, and lies before the end of the text.
  abbrev Chosen : ℕ → Option (ℕ × ℕ) → Type 0
  Chosen n none = Unit
  Chosen n (some b) = P b.0 × (b.0 < n)

  best_of-Chosen :
      (ng max_ext : ℕ) (seq cands : List ℕ) (best : Option (ℕ × ℕ))
      → All P cands
      → Chosen (length seq) best
      → Chosen (length seq) (best_of ng max_ext seq cands best)
  unfolding best_of
  best_of-Chosen ng max_ext seq [] best h b = b
  best_of-Chosen ng max_ext seq (p ∷ cands) best h b =
      let len = extend seq max_ext (p - ng) (length seq - ng) in
      let rest = best_of-Chosen ng max_ext seq cands in
      elim (Bool-cases (ltb p (length seq))) [
        | inl y ↦ elim (Bool-cases (beats len best)) [
          | inl z ↦
              let taken : Chosen (length seq) (some (p, len)) = (h.0, ground (arith, y)) in
              elim (Bool-cases (len == max_ext)) [
                | inl w ↦ rw (y, z, w) taken
                | inr w ↦ rw (y, z, w) (rest (some (p, len)) h.1 taken)
              ]
          | inr z ↦ rw (y, z) (rest best h.1 b)
        ]
        | inr n ↦ rw n (rest best h.1 b)
      ]

if-Chosen :
    (P : ℕ → Type 0) (n : ℕ) (short : Bool) (best : Option (ℕ × ℕ))
    → Chosen P n best
    → Chosen P n (if short then none else best)
if-Chosen P n true best h = tt
if-Chosen P n false best h = h

-- A position of a text, with the tokens before it as key.
abbrev pub Right : ℕ → List ℕ → List ℕ → ℕ → Type 0
Right ng seq key p = (p ≤ length seq) × (slice seq (p - ng) p ≡ key)

take-append : (a : ℕ) (xs ys : List ℕ) → a ≤ length xs → take a (xs ++ ys) ≡ take a xs
take-append zero xs ys h = refl
take-append (suc a) [] ys h = absurd (omega arith)
take-append (suc a) (x ∷ xs) ys h = ap (◌∷◌ x) (take-append a xs ys (omega arith))

slice-append :
    (b a : ℕ) (xs ys : List ℕ) → b + a ≤ length xs → take a (drop b (xs ++ ys)) ≡ take a (drop b xs)
slice-append zero a xs ys h = take-append a xs ys (omega arith)
slice-append (suc b) zero [] ys h = absurd (omega arith)
slice-append (suc b) (suc a) [] ys h = absurd (omega arith)
slice-append (suc b) a (x ∷ xs) ys h = slice-append b a xs ys (omega arith)

-- The table stays right while the text only grows.
pub Indexed-append :
    (ng : ℕ) (seq more : List ℕ) (tbl : List (List ℕ × List ℕ))
    → Indexed (Right ng seq) tbl
    → Indexed (Right ng (seq ++ more)) tbl
Indexed-append ng seq more [] h = tt
Indexed-append ng seq more ((k, ps) ∷ tbl) (hs, h) = (keep ps hs, Indexed-append ng seq more tbl h)
  where
    keep : (qs : List ℕ) → All (Right ng seq k) qs → All (Right ng (seq ++ more) k) qs
    keep [] r = tt
    keep (q ∷ qs) ((fits, key), r) = (
      (
        omega (arith, fits, length-append seq more),
        rw (slice-append (q - ng) (q - (q - ng)) seq more (omega (arith, fits))) key,
      ),
      keep qs r,
    )

index_from-Indexed :
    (ng : ℕ) (seq : List ℕ) (p count : ℕ) (tbl : List (List ℕ × List ℕ))
    → (0 < count → p + count ≤ length seq)
    → Indexed (Right ng seq) tbl
    → Indexed (Right ng seq) (index_from ng seq p count tbl)
unfolding index_from
index_from-Indexed ng seq p zero tbl fits h = h
index_from-Indexed ng seq p (suc count) tbl fits h =
    index_from-Indexed ng seq (p + 1) count _ (λ k. omega (arith, fits (omega arith)))
      (append_at-Indexed (Right ng seq) tbl _ p h (omega (arith, fits (omega arith)), refl))

sync-Indexed :
    (d : NgramDrafter) (seq : List ℕ)
    → Indexed (Right d.ng seq) d.table
    → Indexed (Right d.ng seq) (sync d seq).table
unfolding sync
sync-Indexed d seq h = elim (Bool-cases (leb (length seq - d.margin) d.indexed)) [
  | inl y ↦ rw y h
  | inr n ↦ rw n (
      index_from-Indexed d.ng seq (max d.indexed d.ng) (length seq - d.margin - max d.indexed d.ng)
        d.table (λ k. omega (arith, k)) h)
]

-- The draft of a match: it goes on as the text went on behind an earlier place `p` where the same `ng`
-- tokens stood that stand at the end now.
abbrev pub Copy : ℕ → List ℕ → ℕ → List ℕ → Type 0
Copy ng seq k draft =
    (p : ℕ) × (p < length seq)
    × (slice seq (p - ng) p ≡ drop (length seq - ng) seq)
    × (draft ≡ pad seq (take k (drop p seq)) k)

choose-Copy :
    (d : NgramDrafter) (ng : ℕ) (seq : List ℕ) (k : ℕ) (best : Option (ℕ × ℕ))
    → Chosen (Right ng seq (drop (length seq - ng) seq)) (length seq) best
    → (choose d seq k best).0.matched ≡ true
    → Copy ng seq k (choose d seq k best).1
unfolding choose
choose-Copy d ng seq k none h m = absurd (ground (arith, m))
choose-Copy d ng seq k (some (p, len)) (right, before) m = (p, before, right.1, refl)

-- A drafter whose table is right for the text says `matched` only of a draft that is copied from
-- behind an earlier occurrence of the current suffix.
pub propose-Copy :
    (d : NgramDrafter) (seq : List ℕ) (k : ℕ)
    → Indexed (Right d.ng seq) d.table
    → (propose d seq k).0.matched ≡ true
    → Copy d.ng seq k (propose d seq k).1
unfolding propose sync
propose-Copy d seq k h m =
    let suffix = drop (length seq - d.ng) seq in
    let cands = recent d.max_cand (lookup (sync d seq).table suffix) in
    let right =
      All-recent (Right d.ng seq suffix) d.max_cand (lookup (sync d seq).table suffix)
        (lookup-Indexed (Right d.ng seq) (sync d seq).table suffix (sync-Indexed d seq h)) in
    let best = best_of d.ng d.max_ext seq cands none in
    let chosen = best_of-Chosen (Right d.ng seq suffix) d.ng d.max_ext seq cands none right tt in
    choose-Copy (sync d seq) d.ng seq k (if ltb (length seq) d.ng then none else best)
      (if-Chosen _ (length seq) (ltb (length seq) d.ng) best chosen) m

choose_table :
    (d : NgramDrafter) (seq : List ℕ) (k : ℕ) (best : Option (ℕ × ℕ))
    → (choose d seq k best).0.table ≡ d.table
unfolding choose
choose_table d seq k none = refl
choose_table d seq k (some b) = refl

-- A proposal leaves the table right for the text, and for every text that goes on from it: what was
-- committed is never indexed wrongly by what comes later.
pub propose-Indexed :
    (d : NgramDrafter) (seq more : List ℕ) (k : ℕ)
    → Indexed (Right d.ng seq) d.table
    → Indexed (Right d.ng (seq ++ more)) (propose d seq k).0.table
unfolding propose
propose-Indexed d seq more k h = Indexed-append d.ng seq more (propose d seq k).0.table (
    subst (Indexed (Right d.ng seq)) (sym (choose_table (sync d seq) seq k _))
      (sync-Indexed d seq h))
