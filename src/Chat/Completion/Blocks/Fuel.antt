-- ===== src/Chat/Completion/Blocks/Fuel.antt =====
-- The loop of shard/engines/kimi_k3/k3_tools.py `_blocks` ends.
use shard_glm_image.Base.{
  ℕ, zero, suc, ◌+◌, ◌≤◌, ◌<◌, ◌≡◌, ◌∙◌, sym, ap, Option-cases, inl, inr, List, ◌∷◌, length, take,
  drop, arith,
}
use shard_glm_image.Base.Text.{Text, find}
use shard_glm_image.Base.Text.Start.{find-le}
use shard_glm_image.Base.Prefix.{length-drop}
use shard_glm_image.Chat.Completion.Blocks.{Block, Tag, reopened, closed_at, opened_at, blocks_from}
use shard_glm_image.Chat.Completion.Blocks.Rounds.{
  closed_at-none, closed_at-some, opened_at-none, opened_at-open, opened_at-some, blocks_from-none,
  blocks_from-some,
}

module _ (g : Tag) (opens : 0 < length g.opener) where
  -- The rest of two loops is the same on texts of at most `n` characters.
  abbrev Agree : ℕ → (ℕ → Text → List Block) → (ℕ → Text → List Block) → Type 0
  Agree n r q = (off : ℕ) (t : Text) → length t ≤ n → r off t ≡ q off t

  closed_at-Agree :
      (r q : ℕ → Text → List Block) (off s : ℕ) (attrs inside : Text) (e : ℕ)
      → Agree (length inside) r q
      → closed_at g r off s attrs inside e ≡ closed_at g q off s attrs inside e
  closed_at-Agree r q off s attrs inside e agree =
      elim (Option-cases (reopened (find inside g.opener) e)) [
        | inl alone ↦
            let end = off + (e + length g.closer) in
            closed_at-none g r off s attrs inside e alone
            ∙ ap (◌∷◌ (record { attrs = attrs; body = take e inside; start = s; end = end })) (
                agree end (drop (e + length g.closer) inside)
                  (omega (arith, length-drop (e + length g.closer) inside)))
            ∙ sym (closed_at-none g q off s attrs inside e alone)
        | inr (n, inner) ↦
            closed_at-some g r off s attrs inside e n inner
            ∙ agree (off + n) (drop n inside) (omega (arith, length-drop n inside))
            ∙ sym (closed_at-some g q off s attrs inside e n inner)
      ]

  opened_at-Agree :
      (r q : ℕ → Text → List Block) (off s : ℕ) (t : Text)
      → Agree (length t) r q
      → opened_at g r off s t ≡ opened_at g q off s t
  opened_at-Agree r q off s t agree = elim (Option-cases (find t g.header_end)) [
    | inl endless ↦ opened_at-none g r off s t endless ∙ sym (opened_at-none g q off s t endless)
    | inr (h, ends) ↦
        let inside = drop (h + length g.header_end) t in
        elim (Option-cases (find inside g.closer)) [
          | inl unclosed ↦
              opened_at-open g r off s t h ends unclosed
              ∙ sym (opened_at-open g q off s t h ends unclosed)
          | inr (e, found) ↦
              opened_at-some g r off s t h e ends found
              ∙ closed_at-Agree r q (off + (h + length g.header_end)) s (take h t) inside e
                  (λ (n : ℕ) (u : Text) (short : length u ≤ length inside).
                    agree n u (omega (arith, short, length-drop (h + length g.header_end) t)))
              ∙ sym (opened_at-some g q off s t h e ends found)
        ]
  ]

  -- Every round passes an opener, so more rounds than there are characters change nothing.
  pub blocks_from-fuel :
      (m n : ℕ) (off : ℕ) (t : Text)
      → length t < m
      → length t < n
      → blocks_from g m off t ≡ blocks_from g n off t
  blocks_from-fuel zero n off t less more = absurd (omega arith)
  blocks_from-fuel (suc m) zero off t less more = absurd (omega arith)
  blocks_from-fuel (suc m) (suc n) off t less more = elim (Option-cases (find t g.opener)) [
    | inl nothing ↦ blocks_from-none g m off t nothing ∙ sym (blocks_from-none g n off t nothing)
    | inr (i, found) ↦
        let passed = i + length g.opener in
        let behind = drop passed t in
        blocks_from-some g m off t i found
        ∙ opened_at-Agree (blocks_from g m) (blocks_from g n) (off + passed) (off + i) behind
            (λ (k : ℕ) (u : Text) (short : length u ≤ length behind).
              blocks_from-fuel m n k u
                (omega
                  (arith, short, opens, less, length-drop passed t, find-le t g.opener i found))
                (omega
                  (arith, short, opens, more, length-drop passed t, find-le t g.opener i found)))
        ∙ sym (blocks_from-some g n off t i found)
  ]
