-- ===== src/Chat/Markers/Single.antt =====
-- One marker among several, and one text before another (shard/engines/kimi_k3/k3_tools.py).
use shard_glm_image.Base.{
  ℕ, zero, suc, ◌+◌, ◌≡◌, ◌∙◌, ◌⊎◌, refl, sym, ap, true, false, ◌==◌, Option, none, some,
  Option-cases, Bool-cases, inl, inr, List, [], ◌∷◌, ◌++◌, length, drop, arith,
}
use shard_glm_image.Base.Text.{Text, starts_with, find, next}
use shard_glm_image.Chat.Markers.{trim_from, trim_partial}
use shard_glm_image.Chat.Markers.Scan.{hit_at, scan, shift}
use shard_glm_image.Chat.Markers.Held.{
  scan-cons-none, scan-none, scan-nil, scan-hit_at, starts_with_grows,
}

hit_at-starts_with : (ms : List Text) (t m : Text) → hit_at ms t ≡ some m → starts_with t m ≡ true
unfolding hit_at
hit_at-starts_with [] t m h = cc
hit_at-starts_with (a ∷ ms) t m h = elim (Bool-cases (starts_with t a)) [
  | inl y ↦ let same : a ≡ m = ground (arith, h, y) in sym (ap (starts_with t) same) ∙ y
  | inr n ↦ hit_at-starts_with ms t m (ground (arith, h, n))
]

one_hit : (t m : Text) → starts_with t m ≡ true → hit_at (m ∷ []) t ≡ some m
unfolding hit_at
one_hit t m h = rw h refl

one_miss : (t m : Text) → starts_with t m ≡ false → hit_at (m ∷ []) t ≡ none
unfolding hit_at
one_miss t m h = rw h refl

head_miss :
    (m : Text) (ms : List Text) (t : Text) → hit_at (m ∷ ms) t ≡ none → starts_with t m ≡ false
unfolding hit_at
head_miss m ms t h = elim (Bool-cases (starts_with t m)) [
  | inl y ↦ absurd (ground (arith, h, y))
  | inr n ↦ n
]

-- Whether `m` alone is found.
pub scan_alone_none :
    (m : Text) (ms : List Text) (t : Text) → scan (m ∷ ms) t ≡ none → scan (m ∷ []) t ≡ none
scan_alone_none m ms [] h = elim (Option-cases (hit_at (m ∷ ms) [])) [
  | inr (a, e) ↦ absurd (cc (sym (scan-hit_at (m ∷ ms) [] a e) ∙ h))
  | inl e ↦ scan-nil (m ∷ []) (one_miss [] m (head_miss m ms [] e))
]
scan_alone_none m ms (x ∷ t) h =
    let (here, behind) = scan-cons-none (m ∷ ms) x t h in
    scan-none (m ∷ []) x t (one_miss (x ∷ t) m (head_miss m ms (x ∷ t) here))
    ∙ ap (shift 1) (scan_alone_none m ms t behind)

found_here :
    (ms : List Text) (t : Text) (i : ℕ) (m a : Text)
    → hit_at ms t ≡ some a
    → scan ms t ≡ some (i, m)
    → scan (m ∷ []) t ≡ some (i, m)
found_here ms t i m a e h =
    let both = sym (scan-hit_at ms t a e) ∙ h in
    let zeroth : 0 ≡ i = cc both in
    let same : a ≡ m = cc both in
    scan-hit_at (m ∷ []) t m
      (one_hit t m (sym (ap (starts_with t) same) ∙ hit_at-starts_with ms t a e))
    ∙ ap (λ (n : ℕ). some (n, m)) zeroth

pub scan_alone_some :
    (m : Text) (ms : List Text) (t : Text) (i : ℕ)
    → scan (m ∷ ms) t ≡ some (i, m)
    → scan (m ∷ []) t ≡ some (i, m)
scan_alone_some m ms [] i h = elim (Option-cases (hit_at (m ∷ ms) [])) [
  | inr (a, e) ↦ found_here (m ∷ ms) [] i m a e h
  | inl e ↦ absurd (cc (sym (scan-nil (m ∷ ms) e) ∙ h))
]
scan_alone_some m ms (x ∷ t) i h = elim (Option-cases (hit_at (m ∷ ms) (x ∷ t))) [
  | inr (a, e) ↦ found_here (m ∷ ms) (x ∷ t) i m a e h
  | inl e ↦ elim (Option-cases (scan (m ∷ ms) t)) [
    | inl n ↦ absurd (cc (sym (ap (shift 1) n) ∙ sym (scan-none (m ∷ ms) x t e) ∙ h))
    | inr ((j, m2), there) ↦
        let both = sym (ap (shift 1) there) ∙ sym (scan-none (m ∷ ms) x t e) ∙ h in
        let same : m2 ≡ m = cc both in
        scan-none (m ∷ []) x t (one_miss (x ∷ t) m (head_miss m ms (x ∷ t) e))
        ∙ ap (shift 1) (scan_alone_some m ms t j (there ∙ ap (λ (n : Text). some (j, n)) same))
        ∙ ap (λ (n : Text). some (1 + j, n)) (sym same)
        ∙ both
  ]
]

hit_of_two : (a b t m : Text) → hit_at (a ∷ b ∷ []) t ≡ some m → (m ≡ a) ⊎ (m ≡ b)
unfolding hit_at
hit_of_two a b t m h = elim (Bool-cases (starts_with t a)) [
  | inl y ↦ inl (ground (arith, h, y))
  | inr n ↦ elim (Bool-cases (starts_with t b)) [
    | inl y ↦ inr (ground (arith, h, n, y))
    | inr n2 ↦ absurd (ground (arith, h, n, n2))
  ]
]

pub scan_of_two :
    (a b t : Text) (i : ℕ) (m : Text) → scan (a ∷ b ∷ []) t ≡ some (i, m) → (m ≡ a) ⊎ (m ≡ b)
scan_of_two a b [] i m h = elim (Option-cases (hit_at (a ∷ b ∷ []) [])) [
  | inr (c, e) ↦
      let same : c ≡ m = cc (sym (scan-hit_at (a ∷ b ∷ []) [] c e) ∙ h) in
      hit_of_two a b [] m (e ∙ ap some same)
  | inl e ↦ absurd (cc (sym (scan-nil (a ∷ b ∷ []) e) ∙ h))
]
scan_of_two a b (x ∷ t) i m h = elim (Option-cases (hit_at (a ∷ b ∷ []) (x ∷ t))) [
  | inr (c, e) ↦
      let same : c ≡ m = cc (sym (scan-hit_at (a ∷ b ∷ []) (x ∷ t) c e) ∙ h) in
      hit_of_two a b (x ∷ t) m (e ∙ ap some same)
  | inl e ↦ elim (Option-cases (scan (a ∷ b ∷ []) t)) [
    | inl n ↦ absurd (cc (sym (ap (shift 1) n) ∙ sym (scan-none (a ∷ b ∷ []) x t e) ∙ h))
    | inr ((j, m2), there) ↦
        let same : m2 ≡ m =
          cc (sym (ap (shift 1) there) ∙ sym (scan-none (a ∷ b ∷ []) x t e) ∙ h) in
        scan_of_two a b t j m (there ∙ ap (λ (n : Text). some (j, n)) same)
  ]
]

-- A text that starts with another is that text and a rest.
pub starts_with-split : (t m : Text) → starts_with t m ≡ true → t ≡ m ++ drop (length m) t
unfolding starts_with
starts_with-split [] [] h = refl
starts_with-split (x ∷ t) [] h = refl
starts_with-split [] (b ∷ m) h = cc
starts_with-split (x ∷ t) (b ∷ m) h =
    let same : x ≡ b = ground (arith, h) in
    ap (λ (y : ℕ). y ∷ t) same ∙ ap (◌∷◌ b) (starts_with-split t m (ground (arith, h)))

pub starts_with_own : (m u : Text) → starts_with (m ++ u) m ≡ true
unfolding starts_with
starts_with_own [] [] = refl
starts_with_own [] (x ∷ u) = refl
starts_with_own (b ∷ m) u = ground (arith, starts_with_own m u)

-- `m` stands nowhere in `a`, and no end of `a` begins it.
abbrev pub Apart : Text → Text → Type 0
Apart [] m = Unit
Apart (x ∷ a) m = (starts_with (x ∷ a) m ≡ false) × (starts_with m (x ∷ a) ≡ false) × Apart a m

-- Two texts that differ go on to differ.
pub differ :
    (u t m : Text)
    → starts_with u m ≡ false
    → starts_with m u ≡ false
    → (starts_with (u ++ t) m ≡ false) × (starts_with m (u ++ t) ≡ false)
unfolding starts_with
differ u t [] a b = absurd (ground (arith, a, empty u))
  where
    empty : (w : Text) → starts_with w [] ≡ true
    empty [] = refl
    empty (x ∷ w) = refl
differ [] t (x ∷ m) a b = absurd (ground (arith, b))
differ (y ∷ u) t (x ∷ m) a b = elim (Bool-cases (y == x)) [
  | inl e ↦
      let (p, q) = differ u t m (ground (arith, a, e)) (ground (arith, b, e)) in
      (ground (arith, e, p), ground (arith, e, q))
  | inr n ↦ (ground (arith, n), ground (arith, n))
]

abbrev pub further : ℕ → Option ℕ → Option ℕ
further n none = none
further n (some i) = some (n + i)

-- Behind `a`, the search for `m` is that of the rest.
pub find-Apart : (a u m : Text) → Apart a m → find (a ++ u) m ≡ further (length a) (find u m)
unfolding find
find-Apart [] u m h = zeroth (find u m)
  where
    zeroth : (o : Option ℕ) → o ≡ further 0 o
    zeroth none = refl
    zeroth (some i) = ground arith
find-Apart (x ∷ a) u m (here, begins, rest) =
    rw ((differ (x ∷ a) u m here begins).0) (ap next (find-Apart a u m rest) ∙ onward (find u m))
  where
    onward : (o : Option ℕ) → next (further (length a) o) ≡ further (suc (length a)) o
    onward none = refl
    onward (some i) = ground arith

trim_from_nil : (ms : List Text) (n : ℕ) → trim_from ms [] n ≡ []
unfolding trim_from
trim_from_nil ms zero = refl
trim_from_nil ms (suc n) = ground (arith, trim_from_nil ms n)

pub trim_partial_nil : (ms : List Text) → trim_partial ms [] ≡ []
unfolding trim_partial
trim_partial_nil ms = trim_from_nil ms _

pub starts_with_empty : (t : Text) → starts_with t [] ≡ true
unfolding starts_with
starts_with_empty [] = refl
starts_with_empty (x ∷ t) = refl

-- What does not stand at the start of some text is not empty.
pub find_empty_none : (a m t : Text) → Apart a m → starts_with t a ≡ false → find [] m ≡ none
unfolding find starts_with
find_empty_none [] m t h n = absurd (ground (arith, n, starts_with_empty t))
find_empty_none (x ∷ a) [] t h n = absurd (ground (arith, h.0))
find_empty_none (x ∷ a) (b ∷ m) t h n = refl

-- A beginning of `a` does not hold `m` either.
pub find_within : (u e m : Text) → Apart (u ++ e) m → find [] m ≡ none → find u m ≡ none
unfolding find
find_within [] e m h empty = empty
find_within (x ∷ u) e m h empty = elim (Bool-cases (starts_with (x ∷ u) m)) [
  | inl y ↦ absurd (cc (sym h.0 ∙ starts_with_grows (x ∷ u) e m y))
  | inr n ↦ rw n (ap next (find_within u e m h.2 empty))
]
