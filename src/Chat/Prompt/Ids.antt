-- ===== src/Chat/Prompt/Ids.antt =====
-- shard/engines/kimi_k3/k3_tools.py: the ids of a rendered prompt, `render_ids` and what it calls.
use shard_glm_image.Base.{
  ℕ, zero, suc, ◌==◌, Bool, true, false, ◌||◌, Option, none, some, List, [], ◌∷◌, ◌++◌, ltb, leb,
  if◌then◌else◌, length, take,
}
use shard_glm_image.Base.Sort.{sort_by}
use shard_glm_image.Base.Text.{Text}
use shard_glm_image.Chat.Markers.{Tokens}
use shard_glm_image.Chat.Splitter.{same_text}
use shard_glm_image.Chat.Prompt.{
  Outcome, ◌>>=◌, ◌>>◌, Segment, Request, Renderer, Tokenizer, render_segments, ok, refused,
  unbounded, ignores_special, no_encoder, out_of_vocab,
}

-- `_encode_segment`
unfoldable pub encode_segment : Tokenizer → Text → Bool → Outcome (List ℕ)
encode_segment tok text allow_special = elim tok.encode_text_piece [
  | some piece ↦ ok (piece text allow_special)
  | none ↦ elim tok.encoder [
    | none ↦ refused no_encoder
    | some e ↦
        if e.takes_allow_special then ok (e.encode text allow_special) else refused no_encoder
  ]
]

-- `_assert_segment_boundary`
unfoldable pub assert_segment_boundary : Tokens → Tokenizer → Outcome Unit
unfolding encode_segment same_text
assert_segment_boundary tokens tok = do
  as_text ← encode_segment tok tokens.open_token false
  as_marker ← encode_segment tok tokens.open_token true
  if same_text as_text as_marker then refused ignores_special else ok tt

-- `if not n: raise`
abbrev pub some_bound : Option ℕ → Outcome ℕ
some_bound none = refused unbounded
some_bound (some zero) = refused unbounded
some_bound (some (suc n)) = ok (suc n)

-- `_vocab_size` and the test that every caller makes of it.
unfoldable pub vocab_size_of : Tokenizer → Option ℕ → Outcome ℕ
vocab_size_of tok (some n) = some_bound (some n)
vocab_size_of tok none = some_bound tok.vocab_size

abbrev pub is_in : ℕ → List ℕ → Bool
is_in i [] = false
is_in i (j ∷ js) = i == j || is_in i js

-- An element of the set, if it is one and is not there yet.
abbrev pub set_of : ℕ → ℕ → List ℕ → List ℕ
set_of n i rest = if ltb i n || is_in i rest then rest else i ∷ rest

-- `{i for i in ids if not 0 <= i < vocab_size}`
unfoldable pub out_of_range : ℕ → List ℕ → List ℕ
out_of_range n [] = []
out_of_range n (i ∷ ids) = set_of n i (out_of_range n ids)

unfoldable pub refuse_ids : List ℕ → List ℕ → Outcome (List ℕ)
refuse_ids [] ids = ok ids
refuse_ids (i ∷ bad) ids = refused (out_of_vocab (take 8 (i ∷ bad)) (ltb 8 (length (i ∷ bad))))

unfoldable pub check_ids : List ℕ → Option ℕ → Outcome (List ℕ)
unfolding out_of_range refuse_ids sort_by
check_ids ids none = ok ids
check_ids ids (some zero) = ok ids
check_ids ids (some (suc n)) = refuse_ids (sort_by leb (out_of_range (suc n) ids)) ids

-- The loop over the segments.
unfoldable pub encode_segments : Tokenizer → List Segment → Outcome (List ℕ)
unfolding encode_segment
encode_segments tok [] = ok []
encode_segments tok (s ∷ segments) = do
  ids ← encode_segment tok s.text s.allow_special
  more ← encode_segments tok segments
  ok (ids ++ more)

unfoldable pub render_ids :
    {Rest : Type 0}
    → Renderer Rest
    → Tokens
    → Tokenizer
    → Request Rest
    → Option ℕ
    → Outcome (List ℕ)
unfolding vocab_size_of assert_segment_boundary render_segments encode_segments check_ids
render_ids renderer tokens tok request vocab_size = do
  n ← vocab_size_of tok vocab_size
  assert_segment_boundary tokens tok
  segments ← render_segments renderer request
  ids ← encode_segments tok segments
  check_ids ids (some n)

abbrev pub by_id : Text × ℕ → Text × ℕ → Bool
by_id (s, i) (t, j) = leb i j

unfoldable pub unaddressable : ℕ → List (Text × ℕ) → List (Text × ℕ)
unaddressable n [] = []
unaddressable n ((s, i) ∷ added) =
    if leb n i then (s, i) ∷ unaddressable n added else unaddressable n added

unfoldable pub audit_tokenizer : Tokenizer → Option ℕ → Outcome (List (Text × ℕ))
unfolding vocab_size_of unaddressable sort_by
audit_tokenizer tok vocab_size = do
  n ← vocab_size_of tok vocab_size
  ok (sort_by by_id (unaddressable n tok.added_vocab))
