-- ===== src/Chat/Markers/Scan.antt =====
-- The earliest of several markers, by one scan of the text (shard/engines/kimi_k3/k3_tools.py).
use shard_glm_image.Base.{
  ℕ, ◌+◌, ◌≤◌, ◌≡◌, ◌∙◌, refl, ap, true, false, Option, none, some, Option-cases, Bool-cases, inl,
  inr, List, [], ◌∷◌, ltb, if◌then◌else◌, arith,
}
use shard_glm_image.Base.Text.{Text, starts_with, next, find}
use shard_glm_image.Chat.Markers.{closer, first_from, first, sooner, earliest_from, earliest}

-- The first marker that the text starts with.
unfoldable pub hit_at : List Text → Text → Option Text
hit_at [] t = none
hit_at (m ∷ ms) t = if starts_with t m then some m else hit_at ms t

abbrev pub shift : ℕ → Option (ℕ × Text) → Option (ℕ × Text)
shift n none = none
shift n (some (i, m)) = some (n + i, m)

abbrev pub scan_on : Option Text → Option (ℕ × Text) → Option (ℕ × Text)
scan_on (some m) rest = some (0, m)
scan_on none rest = shift 1 rest

-- The first position where some marker stands, with that marker.
unfoldable pub scan : List Text → Text → Option (ℕ × Text)
unfolding hit_at
scan ms [] = scan_on (hit_at ms []) none
scan ms (x ∷ t) = scan_on (hit_at ms (x ∷ t)) (scan ms t)

closer_zero : (i : ℕ) (h m : Text) → closer (some (0, h)) (some i) m ≡ some (0, h)
unfolding closer
closer_zero i h m = ground arith

-- A best find at position 0 stays.
first_from_zero : (t h : Text) (ms : List Text) → first_from t (some (0, h)) ms ≡ some (0, h)
unfolding first_from closer
first_from_zero t h [] = refl
first_from_zero t h (m ∷ ms) = elim (Option-cases (find t m)) [
  | inl e ↦ rw e (first_from_zero t h ms)
  | inr (i, e) ↦ rw e (
      ap (λ (b : Option (ℕ × Text)). first_from t b ms) (closer_zero i h m)
      ∙ first_from_zero t h ms)
]

-- A best find is none, or not at position 0.
abbrev Later : Option (ℕ × Text) → Type 0
Later none = Unit
Later (some (i, m)) = 1 ≤ i

closer_hit :
    (best : Option (ℕ × Text)) (m : Text) → Later best → closer best (some 0) m ≡ some (0, m)
unfolding closer
closer_hit none m l = refl
closer_hit (some (b, h)) m l = ground arith

closer-shift :
    (best : Option (ℕ × Text)) (o : Option ℕ) (m : Text)
    → closer (shift 1 best) (next o) m ≡ shift 1 (closer best o m)
unfolding closer
closer-shift none none m = refl
closer-shift (some (b, h)) none m = refl
closer-shift none (some i) m = ground arith
closer-shift (some (b, h)) (some i) m = ground arith

Later-shift : (best : Option (ℕ × Text)) → Later (shift 1 best)
Later-shift none = tt
Later-shift (some (i, m)) = omega arith

find_start : (t m : Text) → starts_with t m ≡ true → find t m ≡ some 0
unfolding find
find_start [] m h = rw h refl
find_start (x ∷ t) m h = rw h refl

find_on : (x : ℕ) (t m : Text) → starts_with (x ∷ t) m ≡ false → find (x ∷ t) m ≡ next (find t m)
unfolding find
find_on x t m h = rw h refl

-- A marker that does not stand here is found later, if at all.
abbrev Beyond : Option ℕ → Type 0
Beyond none = Unit
Beyond (some i) = 1 ≤ i

find-Beyond : (t m : Text) → starts_with t m ≡ false → Beyond (find t m)
unfolding find
find-Beyond [] m h = rw h tt
find-Beyond (x ∷ t) m h = rw h (onward (find t m))
  where
    onward : (o : Option ℕ) → Beyond (next o)
    onward none = tt
    onward (some i) = omega arith

closer-Later :
    (best : Option (ℕ × Text)) (o : Option ℕ) (m : Text)
    → Later best
    → Beyond o
    → Later (closer best o m)
unfolding closer
closer-Later best none m l b = l
closer-Later none (some i) m l b = b
closer-Later (some (j, h)) (some i) m l b = elim (Bool-cases (ltb i j)) [
  | inl y ↦ rw y b
  | inr n ↦ rw n l
]

-- At a position where a marker stands, the first of those that do wins.
first_from-hit_at :
    (t : Text) (best : Option (ℕ × Text)) (ms : List Text) (m : Text)
    → Later best
    → hit_at ms t ≡ some m
    → first_from t best ms ≡ some (0, m)
unfolding first_from hit_at
first_from-hit_at t best [] m l h = cc
first_from-hit_at t best (m' ∷ ms) m l h = elim (Bool-cases (starts_with t m')) [
  | inl y ↦
      let here : m' ≡ m = ground (arith, h, y) in
      ap (λ (o : Option ℕ). first_from t (closer best o m') ms) (find_start t m' y)
      ∙ ap (λ (b : Option (ℕ × Text)). first_from t b ms) (closer_hit best m' l)
      ∙ first_from_zero t m' ms
      ∙ ap (λ (r : Text). some (0, r)) here
  | inr n ↦
      first_from-hit_at t (closer best (find t m') m') ms m
        (closer-Later best (find t m') m' l (find-Beyond t m' n)) (ground (arith, h, n))
]

-- Where none stands, the search is that of the text behind.
first_from-next :
    (x : ℕ) (t : Text) (best : Option (ℕ × Text)) (ms : List Text)
    → hit_at ms (x ∷ t) ≡ none
    → first_from (x ∷ t) (shift 1 best) ms ≡ shift 1 (first_from t best ms)
unfolding first_from hit_at
first_from-next x t best [] h = refl
first_from-next x t best (m ∷ ms) h = elim (Bool-cases (starts_with (x ∷ t) m)) [
  | inl y ↦ absurd (ground (arith, h, y))
  | inr n ↦
      ap (λ (o : Option ℕ). first_from (x ∷ t) (closer (shift 1 best) o m) ms) (find_on x t m n)
      ∙ ap (λ (b : Option (ℕ × Text)). first_from (x ∷ t) b ms) (closer-shift best (find t m) m)
      ∙ first_from-next x t (closer best (find t m) m) ms (ground (arith, h, n))
]

first_from-nil :
    (best : Option (ℕ × Text)) (ms : List Text) → hit_at ms [] ≡ none → first_from [] best ms ≡ best
unfolding first_from hit_at find closer
first_from-nil best [] h = refl
first_from-nil best (m ∷ ms) h = elim (Bool-cases (starts_with [] m)) [
  | inl y ↦ absurd (ground (arith, h, y))
  | inr n ↦ rw n (first_from-nil best ms (ground (arith, h, n)))
]

-- `_first` is one scan.
pub first-scan : (t : Text) (ms : List Text) → first t ms ≡ scan ms t
unfolding first scan
first-scan [] ms = elim (Option-cases (hit_at ms [])) [
  | inl e ↦ rw e (first_from-nil none ms e)
  | inr (m, e) ↦ rw e (first_from-hit_at [] none ms m tt e)
]
first-scan (x ∷ t) ms = elim (Option-cases (hit_at ms (x ∷ t))) [
  | inl e ↦ rw e (first_from-next x t none ms e ∙ ap (shift 1) (first-scan t ms))
  | inr (m, e) ↦ rw e (first_from-hit_at (x ∷ t) none ms m tt e)
]

abbrev pub place : Option (ℕ × Text) → Option ℕ
place none = none
place (some (i, m)) = some i

sooner-place :
    (best : Option (ℕ × Text)) (o : Option ℕ) (m : Text)
    → sooner (place best) o ≡ place (closer best o m)
unfolding sooner closer
sooner-place none none m = refl
sooner-place (some (b, h)) none m = refl
sooner-place none (some i) m = refl
sooner-place (some (b, h)) (some i) m = ground arith

earliest_from-place :
    (t : Text) (best : Option (ℕ × Text)) (ms : List Text)
    → earliest_from t (place best) ms ≡ place (first_from t best ms)
unfolding earliest_from first_from
earliest_from-place t best [] = refl
earliest_from-place t best (m ∷ ms) =
    ap (λ (b : Option ℕ). earliest_from t b ms) (sooner-place best (find t m) m)
    ∙ earliest_from-place t (closer best (find t m) m) ms

-- `_earliest` is the position of that scan.
pub earliest-scan : (t : Text) (ms : List Text) → earliest t ms ≡ place (scan ms t)
unfolding earliest first
earliest-scan t ms = earliest_from-place t none ms ∙ ap place (first-scan t ms)

-- One marker.
pub find-scan : (t m : Text) → find t m ≡ place (scan (m ∷ []) t)
unfolding find scan hit_at
find-scan [] m = elim (Bool-cases (starts_with [] m)) [ inl y ↦ rw y refl | inr n ↦ rw n refl ]
find-scan (x ∷ t) m = elim (Bool-cases (starts_with (x ∷ t) m)) [
  | inl y ↦ rw y refl
  | inr n ↦ rw n (ap next (find-scan t m) ∙ behind (scan (m ∷ []) t))
]
  where
    behind : (o : Option (ℕ × Text)) → next (place o) ≡ place (shift 1 o)
    behind none = refl
    behind (some (i, h)) = ground arith
