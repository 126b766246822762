-- ===== src/Chat/Completion/Blocks.antt =====
-- shard/engines/kimi_k3/k3_tools.py `_blocks`: the complete blocks of a tag, in one pass.
pub mod Rounds
pub mod Sound
pub mod Fuel
use shard_glm_image.Base.{
  ℕ, zero, suc, ◌+◌, Bool, true, false, Option, none, some, List, [], ◌∷◌, ◌++◌, ltb, if◌then◌else◌,
  length, take, drop,
}
use shard_glm_image.Base.Text.{Text, find}
use shard_glm_image.Chat.Markers.{Tokens}

-- What is yielded: the header's text, the body, and where the block starts and ends.
pub record Block : Type 0 where
  pub attrs : Text
  pub body : Text
  pub start : ℕ
  pub end : ℕ

-- The three texts that delimit a block.
pub record Tag : Type 0 where
  pub opener : Text
  pub header_end : Text
  pub closer : Text

unfoldable pub tag_of : Tokens → Text → Tag
tag_of t tag = record {
  opener = t.open_token ++ tag;
  header_end = t.sep_token;
  closer = t.close_token ++ (tag ++ t.sep_token);
}

-- `0 <= nxt < e`
abbrev pub reopened : Option ℕ → ℕ → Option ℕ
reopened none e = none
reopened (some n) e = if ltb n e then some n else none

module _ (g : Tag) where
  abbrev pub past : ℕ → Text → Text → Text
  past i sub t = drop (i + length sub) t

  -- One round of the loop on what stands from `i` on, with the rest of the loop as an argument.
  unfoldable pub closed_at : (ℕ → Text → List Block) → ℕ → ℕ → Text → Text → ℕ → List Block
  unfolding find
  closed_at rest off s attrs inside e = elim (reopened (find inside g.opener) e) [
    | some n ↦ rest (off + n) (drop n inside)
    | none ↦
        record { attrs = attrs; body = take e inside; start = s; end = off + (e + length g.closer) }
        ∷ rest (off + (e + length g.closer)) (past e g.closer inside)
  ]

  -- From behind an opener at `s`; `off` is where `t` stands.
  unfoldable pub opened_at : (ℕ → Text → List Block) → ℕ → ℕ → Text → List Block
  unfolding find closed_at
  opened_at rest off s t = elim (find t g.header_end) [
    | none ↦ []
    | some h ↦
        let inside = past h g.header_end t in
        elim (find inside g.closer) [
          | none ↦ []
          | some e ↦ closed_at rest (off + (h + length g.header_end)) s (take h t) inside e
        ]
  ]

  unfoldable pub blocks_from : ℕ → ℕ → Text → List Block
  unfolding find opened_at
  blocks_from zero off t = []
  blocks_from (suc fuel) off t = elim (find t g.opener) [
    | none ↦ []
    | some i ↦
        opened_at (blocks_from fuel) (off + (i + length g.opener)) (off + i) (past i g.opener t)
  ]

-- `_blocks(text, tag)`: each round passes an opener, so the text's length is enough fuel.
unfoldable pub blocks : Tokens → Text → Text → List Block
unfolding blocks_from tag_of
blocks tokens tag text = blocks_from (tag_of tokens tag) (suc (length text)) 0 text
