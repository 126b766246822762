-- ===== src/Chat/Completion/Blocks/Rounds.antt =====
-- The rounds of shard/engines/kimi_k3/k3_tools.py `_blocks`, branch by branch.
use shard_glm_image.Base.{
  ℕ, zero, suc, ◌+◌, ◌≤◌, ◌<◌, ◌≡◌, ◌∙◌, refl, sym, ap, subst, true, Bool-cases, Option, none, some,
  Option-cases, inl, inr, List, [], ◌∷◌, ◌++◌, length, take, drop, arith, length-append,
}
use shard_glm_image.Base.Text.{Text, starts_with, find}
use shard_glm_image.Base.Text.Start.{find-le, find-append}
use shard_glm_image.Chat.Markers.Single.{starts_with-split}
use shard_glm_image.Base.Prefix.{take-drop, length-drop, length-take}
use shard_glm_image.Chat.Completion.Blocks.{Block, Tag, reopened, closed_at, opened_at, blocks_from}

pub drop-drop : (a b : ℕ) (t : Text) → drop a (drop b t) ≡ drop (b + a) t
drop-drop a zero t = let e : a ≡ 0 + a = omega arith in ap (λ (n : ℕ). drop n t) e
drop-drop a (suc b) [] = nothing a (suc b + a)
  where
    nothing : (m n : ℕ) → ◌≡◌ {A = Text} (drop m []) (drop n [])
    nothing zero zero = refl
    nothing zero (suc n) = refl
    nothing (suc m) zero = refl
    nothing (suc m) (suc n) = refl
drop-drop a (suc b) (x ∷ t) =
    let e : suc b + a ≡ suc (b + a) = omega arith in
    drop-drop a b t ∙ sym (ap (λ (n : ℕ). drop n (x ∷ t)) e)

find-starts_with : (t m : Text) (i : ℕ) → find t m ≡ some i → starts_with (drop i t) m ≡ true
unfolding find
find-starts_with [] m i h = elim (Bool-cases (starts_with [] m)) [
  | inl y ↦
      let here : 0 ≡ i = ground (arith, h, y) in
      subst (λ (n : ℕ). starts_with (drop n []) m ≡ true) here y
  | inr n ↦ absurd (ground (arith, h, n))
]
find-starts_with (x ∷ t) m i h = elim (Bool-cases (starts_with (x ∷ t) m)) [
  | inl y ↦
      let here : 0 ≡ i = ground (arith, h, y) in
      subst (λ (n : ℕ). starts_with (drop n (x ∷ t)) m ≡ true) here y
  | inr n ↦ elim (Option-cases (find t m)) [
    | inl none_behind ↦ absurd (ground (arith, h, n, none_behind))
    | inr (j, e) ↦
        let there : suc j ≡ i = ground (arith, h, n, e) in
        subst (λ (q : ℕ). starts_with (drop q (x ∷ t)) m ≡ true) there (find-starts_with t m j e)
  ]
]

-- A text around the place where another is found in it.
pub find_layout :
    (t m : Text) (i : ℕ) → find t m ≡ some i → t ≡ take i t ++ (m ++ drop (i + length m) t)
find_layout t m i h =
    take-drop i t
    ∙ ap (◌++◌ (take i t)) (
        starts_with-split (drop i t) m (find-starts_with t m i h)
        ∙ ap (◌++◌ m) (drop-drop (length m) i t))

-- What is found before a cut is found without it.
pub find-none_before :
    (t m : Text) (e : ℕ)
    → ((n : ℕ) → find t m ≡ some n → e ≤ n)
    → 0 < length m
    → find (take e t) m ≡ none
find-none_before t m e first some_m = elim (Option-cases (find (take e t) m)) [
  | inl nothing ↦ nothing
  | inr (n, h) ↦
      let longer =
        ap (λ (u : Text). find u m) (take-drop e t) ∙ find-append (take e t) (drop e t) m n h in
      absurd (omega (arith, first n longer, some_m, find-le (take e t) m n h, length-take e t))
]

pub reopened-none : (o : Option ℕ) (e : ℕ) → reopened o e ≡ none → (n : ℕ) → o ≡ some n → e ≤ n
reopened-none none e h n eq = absurd (cc eq)
reopened-none (some m) e h n eq = ground (arith, h, eq)

pub reopened-some : (o : Option ℕ) (e n : ℕ) → reopened o e ≡ some n → o ≡ some n
reopened-some none e n h = absurd (cc h)
reopened-some (some m) e n h = ground (arith, h)

pub closed_at-none :
    (g : Tag) (rest : ℕ → Text → List Block) (off s : ℕ) (attrs inside : Text) (e : ℕ)
    → reopened (find inside g.opener) e ≡ none
    → closed_at g rest off s attrs inside e
      ≡ record { attrs = attrs; body = take e inside; start = s; end = off + (e + length g.closer) }
        ∷ rest (off + (e + length g.closer)) (drop (e + length g.closer) inside)
unfolding closed_at
closed_at-none g rest off s attrs inside e h = rw (h, closed_at) refl

pub closed_at-some :
    (g : Tag) (rest : ℕ → Text → List Block) (off s : ℕ) (attrs inside : Text) (e n : ℕ)
    → reopened (find inside g.opener) e ≡ some n
    → closed_at g rest off s attrs inside e ≡ rest (off + n) (drop n inside)
unfolding closed_at
closed_at-some g rest off s attrs inside e n h = rw (h, closed_at) refl

pub opened_at-none :
    (g : Tag) (rest : ℕ → Text → List Block) (off s : ℕ) (t : Text)
    → find t g.header_end ≡ none
    → opened_at g rest off s t ≡ []
unfolding opened_at
opened_at-none g rest off s t h = rw (h, opened_at) refl

pub opened_at-open :
    (g : Tag) (rest : ℕ → Text → List Block) (off s : ℕ) (t : Text) (h : ℕ)
    → find t g.header_end ≡ some h
    → find (drop (h + length g.header_end) t) g.closer ≡ none
    → opened_at g rest off s t ≡ []
unfolding opened_at
opened_at-open g rest off s t h ends unclosed = rw (ends, unclosed, opened_at) refl

pub opened_at-some :
    (g : Tag) (rest : ℕ → Text → List Block) (off s : ℕ) (t : Text) (h e : ℕ)
    → find t g.header_end ≡ some h
    → find (drop (h + length g.header_end) t) g.closer ≡ some e
    → opened_at g rest off s t
      ≡ closed_at g rest
          (off + (h + length g.header_end))
          s
          (take h t)
          (drop (h + length g.header_end) t)
          e
unfolding opened_at
opened_at-some g rest off s t h e ends found = rw (ends, found, opened_at) refl

pub blocks_from-none :
    (g : Tag) (fuel off : ℕ) (t : Text)
    → find t g.opener ≡ none
    → blocks_from g (suc fuel) off t ≡ []
unfolding blocks_from
blocks_from-none g fuel off t h = rw (h, blocks_from) refl

pub blocks_from-some :
    (g : Tag) (fuel off : ℕ) (t : Text) (i : ℕ)
    → find t g.opener ≡ some i
    → blocks_from g (suc fuel) off t
      ≡ opened_at g
          (blocks_from g fuel)
          (off + (i + length g.opener))
          (off + i)
          (drop (i + length g.opener) t)
unfolding blocks_from
blocks_from-some g fuel off t i h = rw (h, blocks_from) refl

pub length_took : (n : ℕ) (t : Text) → n ≤ length t → length (take n t) ≡ n
length_took n t h = omega (
  arith,
  length-append (take n t) (drop n t),
  length-drop n t,
  ap (length {A = ℕ}) (take-drop n t),
  length-take n t,
)
