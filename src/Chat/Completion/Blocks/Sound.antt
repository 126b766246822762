-- ===== src/Chat/Completion/Blocks/Sound.antt =====
-- What `_blocks` yields is complete, single and in order (shard/engines/kimi_k3/k3_tools.py).
use mathlib.Core.List.{append_assoc}
use shard_glm_image.Base.{ℕ, ◌+◌, ◌≤◌, ◌<◌, ◌≡◌, refl, none, List, [], ◌∷◌, ◌++◌, length, All}
use shard_glm_image.Base.Text.{Text, find}
use shard_glm_image.Chat.Completion.Blocks.{Block, Tag}

-- A block of `t`, with what stands before and behind it.
pub record IsBlock (g : Tag) (t : Text) (b : Block) : Type 0 where
  pub before : Text
  pub behind : Text
  pub layout :
      t ≡ before ++ (g.opener ++ (b.attrs ++ (g.header_end ++ (b.body ++ (g.closer ++ behind)))))
  pub starts : b.start ≡ length before
  pub ends : b.end + length behind ≡ length t
  pub single : find b.body g.opener ≡ none
  pub whole : find b.body g.closer ≡ none

-- Blocks one behind the other, from a place on.
abbrev pub InOrder : ℕ → List Block → Type 0
InOrder n [] = Unit
InOrder n (b ∷ bs) = (n ≤ b.start) × (b.start < b.end) × InOrder b.end bs

module _ (g : Tag) (opens : 0 < length g.opener) (closes : 0 < length g.closer) (w : Text) where
  -- Blocks of `w` that stand from `n` on.
  abbrev AreFrom : ℕ → List Block → Type 0
  AreFrom n bs = All (IsBlock g w) bs × InOrder n bs

  -- What the loop has to yield from each place of the text.
  abbrev Yields : (ℕ → Text → List Block) → Type 0
  Yields rest = (pre t : Text) (n : ℕ) → w ≡ pre ++ t → n ≡ length pre → AreFrom n (rest n t)

  -- The place behind the opener and the header of a block.
  abbrev header : Text → Text → Text
  header before attrs = before ++ (g.opener ++ (attrs ++ g.header_end))

  past_header :
      (before attrs inside : Text)
      → before ++ (g.opener ++ (attrs ++ (g.header_end ++ inside))) ≡ header before attrs ++ inside
  past_header before attrs inside = simp append_assoc refl
