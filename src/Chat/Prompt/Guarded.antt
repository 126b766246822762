-- ===== src/Chat/Prompt/Guarded.antt =====
-- What the ids of a rendered prompt are held to (shard/engines/kimi_k3/k3_tools.py `render_ids`).
use shard_glm_image.Base.{
  ℕ, zero, suc, ◌<◌, ◌≡◌, ◌∙◌, ◌⊎◌, refl, sym, ap, subst, Bool, true, false, Option, none, some,
  inl, inr, List, [], ◌∷◌, ◌++◌, if◌then◌else◌, All, arith,
}
use shard_glm_image.Base.Text.{Text}
use shard_glm_image.Chat.Markers.{Tokens}
use shard_glm_image.Chat.Prompt.{
  Outcome, ok, refused, ◌>>=◌, ◌>>◌, prefill, check_effort, check_history, unrenderable,
  refuse_some, Entry, dict, nested, other, is_renderable, places, reject_unrenderable, Segment,
  Request, Renderer, or_reference, Tokenizer, render_segments,
}
use shard_glm_image.Chat.Prompt.Ids.{
  encode_segment, encode_segments, assert_segment_boundary, some_bound, vocab_size_of, check_ids,
  render_ids,
}
use shard_glm_image.Chat.Prompt.Checked.{>>=-ok, >>-ok, check_ids-All, places-All}

-- A conversation that is left to the reference starts with a list.
abbrev pub IsBatched : {Rest : Type 0} → List (Entry Rest) → Type 0
IsBatched [] = ⊥
IsBatched (nested ∷ ms) = Unit
IsBatched (dict m ∷ ms) = ⊥
IsBatched (other ∷ ms) = ⊥

refuse_places :
    {Rest : Type 0} (ms : List (Entry Rest))
    → refuse_some unrenderable (places is_renderable 0 ms) tt ≡ ok tt
    → places is_renderable 0 ms ≡ []
refuse_places ms h = none_refused (places is_renderable 0 ms) h
  where
    none_refused : (is : List ℕ) → refuse_some unrenderable is tt ≡ ok tt → is ≡ []
    none_refused [] e = refl
    none_refused (i ∷ is) e = absurd (cc e)

-- Messages that are not refused: each is rendered.
abbrev pub AreRenderable : {Rest : Type 0} → List (Entry Rest) → Type 0
AreRenderable ms = IsBatched ms ⊎ All (λ (m : Entry _). is_renderable m ≡ true) ms

reject_unrenderable-ok :
    {Rest : Type 0} (ms : List (Entry Rest)) → reject_unrenderable ms ≡ ok tt → AreRenderable ms
unfolding reject_unrenderable
reject_unrenderable-ok [] h = inr tt
reject_unrenderable-ok (dict m ∷ ms) h =
    inr (places-All is_renderable 0 (dict m ∷ ms) (refuse_places (dict m ∷ ms) h))
reject_unrenderable-ok (nested ∷ ms) h = inl tt
reject_unrenderable-ok (other ∷ ms) h =
    inr (places-All is_renderable 0 (other ∷ ms) (refuse_places (other ∷ ms) h))

some_bound-positive : (o : Option ℕ) (n : ℕ) → some_bound o ≡ ok n → 0 < n
some_bound-positive none n h = absurd (cc h)
some_bound-positive (some zero) n h = absurd (cc h)
some_bound-positive (some (suc k)) n h = ground (arith, h)

vocab_size_of-positive :
    (tok : Tokenizer) (vocab : Option ℕ) (n : ℕ) → vocab_size_of tok vocab ≡ ok n → 0 < n
unfolding vocab_size_of
vocab_size_of-positive tok (some k) n h = some_bound-positive (some k) n h
vocab_size_of-positive tok none n h = some_bound-positive tok.vocab_size n h

module _ {Rest : Type 0} (renderer : Renderer Rest) where
  -- What a request's segments are.
  abbrev pub AreSegments : Request Rest → List Segment → Type 0
  AreSegments r segments =
      AreRenderable r.messages
      × (renderer.build_chat_segments r.messages r.thinking r.reasoning_effort ≡ some segments)

  render_segments-ok :
      (r : Request Rest) (segments : List Segment)
      → render_segments renderer r ≡ ok segments
      → AreSegments r segments
  unfolding render_segments
  render_segments-ok r segments h =
      let built : Outcome (List Segment) =
        or_reference renderer
          (renderer.build_chat_segments r.messages r.thinking r.reasoning_effort) in
      let with_history = check_history renderer r.strict_thinking_history r.messages >> built in
      let with_roles = reject_unrenderable r.messages >> with_history in
      let with_effort = check_effort renderer r.thinking r.reasoning_effort >> with_roles in
      let prefilled : Outcome Unit = if r.continue_final_message then refused prefill else ok tt in
      let past_prefill = (>>-ok prefilled with_effort segments h).1 in
      let past_effort =
        (>>-ok (check_effort renderer r.thinking r.reasoning_effort) with_roles segments
          past_prefill).1 in
      let (renderable, past_roles) =
        >>-ok (reject_unrenderable r.messages) with_history segments past_effort in
      let history = check_history renderer r.strict_thinking_history r.messages in
      let past_history = (>>-ok history built segments past_roles).1 in
      (
        reject_unrenderable-ok r.messages renderable,
        from_reference (renderer.build_chat_segments r.messages r.thinking r.reasoning_effort)
            segments past_history,
      )
    where
      from_reference :
          (o : Option (List Segment)) (segments : List Segment)
          → or_reference renderer o ≡ ok segments
          → o ≡ some segments
      from_reference none segments e = absurd (cc e)
      from_reference (some s) segments e = cc e

  -- What stands behind the ids of a prompt.
  abbrev pub IsPrompt : Tokens → Tokenizer → Request Rest → Option ℕ → List ℕ → Type 0
  IsPrompt tokens tok r vocab ids =
      (n : ℕ) × (segments : List Segment) × (vocab_size_of tok vocab ≡ ok n)
      × All (λ (i : ℕ). i < n) ids
      × AreSegments r segments
      × (encode_segments tok segments ≡ ok ids)

  pub render_ids-ok :
      (tokens : Tokens) (tok : Tokenizer) (r : Request Rest) (vocab : Option ℕ) (ids : List ℕ)
      → render_ids renderer tokens tok r vocab ≡ ok ids
      → IsPrompt tokens tok r vocab ids
  unfolding render_ids
  render_ids-ok tokens tok r vocab ids h =
      let encoded = λ (n : ℕ) (segments : List Segment).
        encode_segments tok segments >>= λ is. check_ids is (some n) in
      let rendered = λ (n : ℕ). render_segments renderer r >>= encoded n in
      let bounded = λ (n : ℕ). assert_segment_boundary tokens tok >> rendered n in
      let (n, bound, past_bound) = >>=-ok (vocab_size_of tok vocab) bounded ids h in
      let past_boundary =
        (>>-ok (assert_segment_boundary tokens tok) (rendered n) ids past_bound).1 in
      let (segments, are_rendered, past_segments) =
        >>=-ok (render_segments renderer r) (encoded n) ids past_boundary in
      let (found, are_encoded, past_check) =
        >>=-ok (encode_segments tok segments) (λ (is : List ℕ). check_ids is (some n)) ids
          past_segments in
      let (same, small) =
        (check_ids-All n found ids (vocab_size_of-positive tok vocab n bound)).0 past_check in
      (
        n,
        segments,
        bound,
        subst (All (λ (i : ℕ). i < n)) (sym same) small,
        render_segments-ok r segments are_rendered,
        are_encoded ∙ ap (λ (is : List ℕ). ok is) (sym same),
      )

-- The ids that a test picks out.
abbrev pub picked : (ℕ → Bool) → List ℕ → List ℕ
picked test [] = []
picked test (i ∷ ids) = if test i then i ∷ picked test ids else picked test ids

picked-append :
    (test : ℕ → Bool) (xs ys : List ℕ) → picked test (xs ++ ys) ≡ picked test xs ++ picked test ys
picked-append test [] ys = refl
picked-append test (x ∷ xs) ys = ground (arith, picked-append test xs ys)

-- The ids of the segments that the renderer wrote itself.
abbrev pub structure : (Text → Bool → List ℕ) → List Segment → List ℕ
structure piece [] = []
structure piece (s ∷ segments) =
    if s.allow_special
    then piece s.text true ++ structure piece segments
    else structure piece segments

module _ (tok : Tokenizer) (piece : Text → Bool → List ℕ)
    (has_piece : tok.encode_text_piece ≡ some piece) (control : ℕ → Bool)
    (plain : (text : Text) → picked control (piece text false) ≡ []) where
  encode_segment-piece :
      (text : Text) (flag : Bool) → encode_segment tok text flag ≡ ok (piece text flag)
  unfolding encode_segment
  encode_segment-piece text flag = rw (has_piece, encode_segment) refl

  segment-control :
      (text : Text) (flag : Bool) (more behind : List ℕ)
      → picked control more ≡ picked control behind
      → picked control (piece text flag) ++ picked control more
        ≡ picked control (if flag then piece text true ++ behind else behind)
  segment-control text true more behind h =
      ap (◌++◌ (picked control (piece text true))) h
      ∙ sym (picked-append control (piece text true) behind)
  segment-control text false more behind h =
      ap (λ (is : List ℕ). is ++ picked control more) (plain text) ∙ h

  encode_segments-control :
      (segments : List Segment) (ids : List ℕ)
      → encode_segments tok segments ≡ ok ids
      → picked control ids ≡ picked control (structure piece segments)
  unfolding encode_segments
  encode_segments-control [] ids h = ground (arith, h)
  encode_segments-control (s ∷ segments) ids h =
      let (here, encoded, past_first) =
        >>=-ok (encode_segment tok s.text s.allow_special)
          (λ (is : List ℕ). encode_segments tok segments >>= λ more. ok (is ++ more)) ids h in
      let (more, rest, joined) =
        >>=-ok (encode_segments tok segments) (λ (is : List ℕ). ok (here ++ is)) ids past_first in
      let whole : here ++ more ≡ ids = cc joined in
      let same : piece s.text s.allow_special ≡ here =
        cc (sym (encode_segment-piece s.text s.allow_special) ∙ encoded) in
      ap (picked control) (sym whole)
      ∙ picked-append control here more
      ∙ ap (λ (is : List ℕ). picked control is ++ picked control more) (sym same)
      ∙ segment-control s.text s.allow_special more (structure piece segments)
          (encode_segments-control segments more rest)

  -- With a tokenizer whose own segment encoder makes no control id of plain text, the control ids of a prompt are those
  -- of the segments that the renderer wrote as structure, in their order: the messages' texts add none.
  pub render_ids-control :
      {Rest : Type 0} (renderer : Renderer Rest) (tokens : Tokens) (r : Request Rest)
      (vocab : Option ℕ) (ids : List ℕ)
      → render_ids renderer tokens tok r vocab ≡ ok ids
      → (segments : List Segment) × (renderer.build_chat_segments r.messages r.thinking
            r.reasoning_effort
          ≡ some segments)
        × (picked control ids ≡ picked control (structure piece segments))
  render_ids-control renderer tokens r vocab ids h =
      let (n, segments, bound, small, (renderable, built), encoded) =
        render_ids-ok renderer tokens tok r vocab ids h in
      (segments, built, encode_segments-control segments ids encoded)
