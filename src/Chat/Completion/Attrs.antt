-- ===== src/Chat/Completion/Attrs.antt =====
-- shard/engines/kimi_k3/k3_tools.py: the attributes of an opener, `_attrs` and `_unescape_attr`.
pub mod Escaped
use shard_glm_image.Base.{
  ℕ, zero, suc, ◌-◌, ◌==◌, Bool, true, false, ◌&&◌, ◌||◌, Option, none, some, List, [], ◌∷◌, ◌++◌,
  leb, if◌then◌else◌, length,
}
use shard_glm_image.Base.Text.{Text, codes, starts_with}
use shard_glm_image.Chat.Splitter.{same_text}

-- `d[key] = value` and `d.get(key)`, with texts as keys.
unfoldable pub put {ℓ} : {A : Type ℓ} → List (Text × A) → Text → A → List (Text × A)
unfolding same_text
put [] key v = (key, v) ∷ []
put ((k, w) ∷ d) key v = if same_text k key then (k, v) ∷ d else (k, w) ∷ put d key v

unfoldable pub item {ℓ} : {A : Type ℓ} → List (Text × A) → Text → Option A
unfolding same_text
item [] key = none
item ((k, v) ∷ d) key = if same_text k key then some v else item d key

-- `text.replace(old, new)`, with `skip` characters of a match still to be passed over.
unfoldable pub replace_from : ℕ → Text → Text → Text → Text
unfolding starts_with
replace_from skip [] old new = []
replace_from (suc skip) (c ∷ t) old new = replace_from skip t old new
replace_from zero (c ∷ t) old new =
    let match = new ++ replace_from (length old - 1) t old new in
    let copy = c ∷ replace_from zero t old new in if starts_with (c ∷ t) old then match else copy

unfoldable pub replace : Text → Text → Text → Text
unfolding replace_from
replace t old new = replace_from zero t old new

abbrev pub quote : ℕ
quote = b'"'

abbrev pub ampersand : ℕ
ampersand = b'&'

unfoldable pub unescape_attr : Text → Text
unfolding replace
unescape_attr v = replace (replace v (codes "&quot;") (quote ∷ [])) (codes "&amp;") (ampersand ∷ [])

-- `[A-Za-z_]`
unfoldable pub starts_name : ℕ → Bool
starts_name c = (leb b'A' c && leb c b'Z') || ((leb b'a' c && leb c b'z') || c == b'_')

module _ (is_word : ℕ → Bool) where
  -- `[\w.:-]`
  unfoldable pub in_name : ℕ → Bool
  in_name c = is_word c || (c == b'.' || (c == b':' || c == b'-'))

  -- `[\w.:-]*`, and what follows; as `=` is none of these characters, nothing is given back.
  unfoldable pub name_run : Text → Text × Text
  unfolding in_name
  name_run [] = ([], [])
  name_run (c ∷ t) =
      let (name, rest) = name_run t in if in_name c then (c ∷ name, rest) else ([], c ∷ t)

  -- `[^"]*"`, and what follows.
  unfoldable pub value_run : Text → Option (Text × Text)
  value_run [] = none
  value_run (c ∷ t) =
      let more : Option (Text × Text) = elim (value_run t) [
        | none ↦ none
        | some (v, rest) ↦ some (c ∷ v, rest)
      ] in
      if c == quote then some ([], t) else more

  -- `="`
  unfoldable pub equals_quote : Text → Option Text
  equals_quote [] = none
  equals_quote (c ∷ []) = none
  equals_quote (c ∷ d ∷ t) = if c == b'=' && d == quote then some t else none

  -- A match of `_ATTR_RE` at the start of a text, and what follows.
  unfoldable pub attr_at : Text → Option (Text × Text × Text)
  unfolding starts_name name_run equals_quote value_run
  attr_at [] = none
  attr_at (c ∷ t) =
      let (name, rest) = name_run t in
      let found : Option (Text × Text × Text) = elim (equals_quote rest) [
        | none ↦ none
        | some quoted ↦ elim (value_run quoted) [
          | none ↦ none
          | some (v, behind) ↦ some (c ∷ name, v, behind)
        ]
      ] in
      if starts_name c then found else none

  -- `_ATTR_RE.findall` into a dictionary; a match is never empty, so the text's length is enough fuel.
  unfoldable pub attrs_from : ℕ → Text → List (Text × Text) → List (Text × Text)
  unfolding attr_at put unescape_attr
  attrs_from zero t d = d
  attrs_from (suc fuel) [] d = d
  attrs_from (suc fuel) (c ∷ t) d = elim (attr_at (c ∷ t)) [
    | none ↦ attrs_from fuel t d
    | some (name, v, rest) ↦ attrs_from fuel rest (put d name (unescape_attr v))
  ]

  unfoldable pub attrs_of : Text → List (Text × Text)
  unfolding attrs_from
  attrs_of s = attrs_from (length s) s []
