-- ===== src/Chat/Markers/Held.antt =====
-- What a scan of a text says of the text with more behind it (shard/engines/kimi_k3/k3_tools.py): the
-- characters that are held back are enough.
use mathlib.Core.List.{append_assoc}
use shard_glm_image.Base.{
  ℕ, zero, suc, ◌+◌, ◌-◌, ◌≤◌, ◌≡◌, ◌∙◌, refl, sym, ap, true, false, Option, none, some,
  Option-cases, Bool-cases, inl, inr, List, [], ◌∷◌, ◌++◌, length, take, drop, All, arith,
  length-append, min,
}
use shard_glm_image.Base.Text.{Text, starts_with}
use shard_glm_image.Base.Text.Start.{starts_with-append, starts_with-le}
use shard_glm_image.Chat.Markers.{longest, any_starts, trim_from, trim_partial}
use shard_glm_image.Chat.Markers.Scan.{hit_at, shift, scan_on, scan}

-- All but the last character.
unfoldable pub init : Text → Text
init [] = []
init (x ∷ []) = []
init (x ∷ y ∷ t) = x ∷ init (y ∷ t)

-- No marker stands inside another, or would if the other lost its last character.
abbrev pub Separate : List Text → List Text → Type 0
Separate all ms = All (λ m. scan all (init m) ≡ none) ms

shift_zero : (o : Option (ℕ × Text)) → shift 0 o ≡ o
shift_zero none = refl
shift_zero (some (i, m)) = ground arith

shift-suc : (n : ℕ) (o : Option (ℕ × Text)) → shift 1 (shift n o) ≡ shift (suc n) o
shift-suc n none = refl
shift-suc n (some (i, m)) = ground arith

pub starts_with_grows : (t d m : Text) → starts_with t m ≡ true → starts_with (t ++ d) m ≡ true
starts_with_grows t d m h = starts_with-append t d m (starts_with-le t m h) ∙ h

hit_at-append :
    (ms : List Text) (t d : Text)
    → All (λ m. length m ≤ length t) ms
    → hit_at ms (t ++ d) ≡ hit_at ms t
unfolding hit_at
hit_at-append [] t d h = refl
hit_at-append (m ∷ ms) t d h = rw (starts_with-append t d m h.0, hit_at-append ms t d h.1) refl

hit_at_shrinks : (ms : List Text) (t d : Text) → hit_at ms (t ++ d) ≡ none → hit_at ms t ≡ none
unfolding hit_at
hit_at_shrinks [] t d h = refl
hit_at_shrinks (m ∷ ms) t d h = elim (Bool-cases (starts_with t m)) [
  | inl y ↦ absurd (ground (arith, h, starts_with_grows t d m y))
  | inr n ↦ elim (Bool-cases (starts_with (t ++ d) m)) [
    | inl y2 ↦ absurd (ground (arith, h, y2))
    | inr n2 ↦ rw n (hit_at_shrinks ms t d (ground (arith, h, n2)))
  ]
]

pub scan-nil : (ms : List Text) → hit_at ms [] ≡ none → scan ms [] ≡ none
unfolding scan
scan-nil ms h = rw h refl

-- A scan that finds nothing has seen no marker at its first place, and finds nothing behind it.
pub scan-cons-none :
    (ms : List Text) (x : ℕ) (t : Text)
    → scan ms (x ∷ t) ≡ none
    → (hit_at ms (x ∷ t) ≡ none) × (scan ms t ≡ none)
unfolding scan
scan-cons-none ms x t h = split (hit_at ms (x ∷ t)) (scan ms t) h
  where
    split : (o : Option Text) (r : Option (ℕ × Text)) → scan_on o r ≡ none → (o ≡ none) × (r ≡ none)
    split (some m) r e = cc
    split none none e = (refl, refl)
    split none (some (i, m)) e = cc

pub scan-none :
    (ms : List Text) (x : ℕ) (t : Text)
    → hit_at ms (x ∷ t) ≡ none
    → scan ms (x ∷ t) ≡ shift 1 (scan ms t)
unfolding scan
scan-none ms x t h = rw h refl

pub scan_behind : (ms : List Text) (a b : Text) → scan ms (a ++ b) ≡ none → scan ms b ≡ none
scan_behind ms [] b h = h
scan_behind ms (x ∷ a) b h = scan_behind ms a b (scan-cons-none ms x (a ++ b) h).1

scan_shrinks : (ms : List Text) (t d : Text) → scan ms (t ++ d) ≡ none → scan ms t ≡ none
unfolding scan
scan_shrinks ms [] [] h = h
scan_shrinks ms [] (x ∷ d) h =
    let none_here = hit_at_shrinks ms [] (x ∷ d) (scan-cons-none ms x d h).0 in rw none_here refl
scan_shrinks ms (x ∷ t) d h =
    let (here, behind) = scan-cons-none ms x (t ++ d) h in
    rw (hit_at_shrinks ms (x ∷ t) d here, scan_shrinks ms t d behind) refl

-- In a text without a marker, more text is scanned from where a marker may still begin.
pub scan_held :
    (ms : List Text) (a b d : Text)
    → All (λ m. length m ≤ suc (length b)) ms
    → scan ms (a ++ b) ≡ none
    → scan ms (a ++ (b ++ d)) ≡ shift (length a) (scan ms (b ++ d))
scan_held ms [] b d fits h = sym (shift_zero (scan ms (b ++ d)))
scan_held ms (x ∷ a) b d fits h =
    let (here, behind) = scan-cons-none ms x (a ++ b) h in
    let same : hit_at ms ((x ∷ (a ++ b)) ++ d) ≡ none =
      hit_at-append ms (x ∷ (a ++ b)) d (roomy ms fits) ∙ here in
    scan-none ms x (a ++ (b ++ d))
      (ap (λ (t : Text). hit_at ms (x ∷ t)) (sym (append_assoc a b d)) ∙ same)
    ∙ ap (shift 1) (scan_held ms a b d fits behind)
    ∙ shift-suc (length a) (scan ms (b ++ d))
  where
    roomy :
        (ns : List Text)
        → All (λ m. length m ≤ suc (length b)) ns
        → All (λ m. length m ≤ length (x ∷ (a ++ b))) ns
    roomy [] f = tt
    roomy (m ∷ ns) f = (omega (arith, f.0, length-append a b), roomy ns f.1)

-- A marker that stands only in the longer text is begun by the shorter one.
begun :
    (t d m : Text)
    → starts_with t m ≡ false
    → starts_with (t ++ d) m ≡ true
    → (e : Text) × (init m ≡ t ++ e)
unfolding starts_with init
begun [] d m f g = (init m, refl)
begun (x ∷ t) d [] f g = absurd (ground (arith, f))
begun (x ∷ t) d (b ∷ []) f g = absurd (ground (arith, f, g, always t, always (t ++ d)))
  where
    always : (u : Text) → starts_with u [] ≡ true
    always [] = refl
    always (y ∷ u) = refl
begun (x ∷ t) d (b ∷ c ∷ m) f g =
    let (e, rest) = begun t d (c ∷ m) (ground (arith, f, g)) (ground (arith, g)) in
    let same : b ≡ x = ground (arith, g) in
    (e, ap (λ (y : ℕ). y ∷ init (c ∷ m)) same ∙ ap (◌∷◌ x) rest)

hit_at_stays :
    (all ms : List Text) (t d : Text) (r : ℕ × Text)
    → Separate all ms
    → scan all t ≡ some r
    → hit_at ms (t ++ d) ≡ hit_at ms t
unfolding hit_at
hit_at_stays all [] t d r sep h = refl
hit_at_stays all (m ∷ ms) t d r sep h = elim (Bool-cases (starts_with t m)) [
  | inl y ↦ rw (y, starts_with_grows t d m y) refl
  | inr n ↦ elim (Bool-cases (starts_with (t ++ d) m)) [
    | inl y ↦
        let (e, split) = begun t d m n y in
        let nothing = scan_shrinks all t e (ap (scan all) (sym split) ∙ sep.0) in
        absurd (ground (arith, nothing, h))
    | inr n2 ↦ rw (n, n2) (hit_at_stays all ms t d r sep.1 h)
  ]
]

pub scan-hit_at : (ms : List Text) (t m : Text) → hit_at ms t ≡ some m → scan ms t ≡ some (0, m)
unfolding scan
scan-hit_at ms [] m h = rw h refl
scan-hit_at ms (x ∷ t) m h = rw h refl

-- A marker that was found stays the earliest, whatever comes behind.
pub scan_stays :
    (ms : List Text) (t d : Text) (r : ℕ × Text)
    → Separate ms ms
    → scan ms t ≡ some r
    → scan ms (t ++ d) ≡ some r
scan_stays ms [] d r sep h = elim (Option-cases (hit_at ms [])) [
  | inr (m, e) ↦
      scan-hit_at ms d m (hit_at_stays ms ms [] d r sep h ∙ e) ∙ sym (scan-hit_at ms [] m e) ∙ h
  | inl e ↦ absurd (nothing e)
]
  where
    nothing : hit_at ms [] ≡ none → ⊥
    nothing e = cc (sym (scan-nil ms e) ∙ h)
scan_stays ms (x ∷ t) d r sep h = elim (Option-cases (hit_at ms (x ∷ t))) [
  | inr (m, e) ↦
      scan-hit_at ms (x ∷ (t ++ d)) m (hit_at_stays ms ms (x ∷ t) d r sep h ∙ e)
      ∙ sym (scan-hit_at ms (x ∷ t) m e)
      ∙ h
  | inl e ↦ elim (Option-cases (scan ms t)) [
    | inl nothing ↦ absurd (cc (sym (scan-none ms x t e ∙ ap (shift 1) nothing) ∙ h))
    | inr (r2, there) ↦
        scan-none ms x (t ++ d) (hit_at_stays ms ms (x ∷ t) d r sep h ∙ e)
        ∙ ap (shift 1) (scan_stays ms t d r2 sep there ∙ sym there)
        ∙ sym (scan-none ms x t e)
        ∙ h
  ]
]

pub drop_past : (a b : Text) (n : ℕ) → drop (length a + n) (a ++ b) ≡ drop n b
drop_past [] b n = ap (λ (j : ℕ). drop j b) (omega arith)
drop_past (x ∷ a) b n =
    let e : suc (length a) + n ≡ suc (length a + n) = omega arith in
    ap (λ (j : ℕ). drop j (x ∷ (a ++ b))) e ∙ drop_past a b n

pub take_past : (a b : Text) (n : ℕ) → take (length a + n) (a ++ b) ≡ a ++ take n b
take_past [] b n = ap (λ (j : ℕ). take j b) (omega arith)
take_past (x ∷ a) b n =
    let e : suc (length a) + n ≡ suc (length a + n) = omega arith in
    ap (λ (j : ℕ). take j (x ∷ (a ++ b))) e ∙ ap (◌∷◌ x) (take_past a b n)

trim_from_held :
    (ms : List Text) (a b : Text) (n : ℕ)
    → n ≤ length b
    → trim_from ms (a ++ b) n ≡ a ++ trim_from ms b n
unfolding trim_from
trim_from_held ms a b zero h = refl
trim_from_held ms a b (suc n) h =
    let e : length (a ++ b) - suc n ≡ length a + (length b - suc n) =
      omega (arith, length-append a b) in
    let rest = trim_from_held ms a b n (omega arith) in
    let cut = ap (λ (j : ℕ). drop j (a ++ b)) e ∙ drop_past a b (length b - suc n) in
    let kept = ap (λ (j : ℕ). take j (a ++ b)) e ∙ take_past a b (length b - suc n) in
    elim (Bool-cases (any_starts ms (drop (length b - suc n) b))) [
      | inl y ↦ rw (cut, y) kept
      | inr no_marker ↦ rw (cut, no_marker) rest
    ]

-- The cut of an unfinished marker looks no further back than what is held.
pub trim_partial_held :
    (ms : List Text) (a b : Text)
    → longest ms - 1 ≤ length b
    → trim_partial ms (a ++ b) ≡ a ++ trim_partial ms b
unfolding trim_partial
trim_partial_held ms a b h =
    let e : min (length (a ++ b)) (longest ms - 1) ≡ min (length b) (longest ms - 1) =
      omega (arith, length-append a b) in
    ap (trim_from ms (a ++ b)) e
    ∙ trim_from_held ms a b (min (length b) (longest ms - 1)) (omega arith)

-- What is found lies inside the text.
hit_at-le : (ms : List Text) (t m : Text) → hit_at ms t ≡ some m → length m ≤ length t
unfolding hit_at
hit_at-le [] t m h = cc
hit_at-le (m' ∷ ms) t m h = elim (Bool-cases (starts_with t m')) [
  | inl y ↦ omega (arith, starts_with-le t m' y, ap length (given y))
  | inr n ↦ hit_at-le ms t m (ground (arith, h, n))
]
  where
    given : starts_with t m' ≡ true → m' ≡ m
    given y = ground (arith, h, y)

pub scan-le :
    (ms : List Text) (t : Text) (i : ℕ) (m : Text)
    → scan ms t ≡ some (i, m)
    → i + length m ≤ length t
unfolding scan
scan-le ms [] i m h = elim (Option-cases (hit_at ms [])) [
  | inl e ↦ absurd (ground (arith, h, e))
  | inr (m2, e) ↦ ground (arith, h, e, hit_at-le ms [] m2 e)
]
scan-le ms (x ∷ t) i m h = elim (Option-cases (hit_at ms (x ∷ t))) [
  | inr (m2, e) ↦ ground (arith, h, e, hit_at-le ms (x ∷ t) m2 e)
  | inl e ↦ elim (Option-cases (scan ms t)) [
    | inl n ↦ absurd (ground (arith, h, e, n))
    | inr ((j, m2), there) ↦ ground (arith, h, e, there, scan-le ms t j m2 there)
  ]
]
