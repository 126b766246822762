-- ===== src/Coordinate/Stream.antt =====
-- shard/shard/coordinate.py, inside `run_job`: what a job streams to its user. A text is the list
-- of its code points, an output is the list of token ids committed so far.
pub mod Visible
pub mod Joined
unfoldable pub use shard_glm_image.Base.Text.{starts_with, next, find}
use shard_glm_image.Base.{
  ℕ, zero, suc, ◌+◌, ◌≡◌, ite, if◌then◌else◌, Option, none, some, List, [], ◌∷◌, ◌++◌, Bool, true,
  false, ◌&&◌, ltb, leb, ◌==◌, length, take, drop,
}

abbrev pub newline : ℕ
newline = 10

-- `while k < len(text) and text[k] == "\n": k += 1`, on what stands from `k` on.
unfoldable pub skip_newlines : List ℕ → List ℕ
skip_newlines [] = []
skip_newlines (a ∷ text) = if a == newline then skip_newlines text else a ∷ text

-- A delta, before those that follow it.
abbrev pub prepend : Option (List ℕ) → List (List ℕ) → List (List ℕ)
prepend none rest = rest
prepend (some d) rest = d ∷ rest

-- Deltas as the user reads them.
abbrev pub join : List (List ℕ) → List ℕ
join [] = []
join (d ∷ ds) = d ++ join ds

-- `state`
pub record State : Type 0 where
  pub text : List ℕ
  pub eos_at : Option ℕ
  pub marker_end : Option ℕ
  pub vis_sent : ℕ

abbrev pub fresh : State
fresh = record { text = []; eos_at = none; marker_end = none; vis_sent = 0 }

-- The part of the job that `_visible` reads: the end marker of the think block, if the reasoning is
-- split off (`split`).
abbrev pub Marker : Type 0
Marker = Option (List ℕ)

-- `state["marker_end"]` after `_visible(text)` has looked for the marker.
unfoldable pub locate : Marker → Option ℕ → List ℕ → Option ℕ
unfolding find
locate none known text = known
locate (some think_end) (some k) text = some k
locate (some think_end) none text = elim (find text think_end) [
  | none ↦ none
  | some j ↦ some (j + length think_end)
]

-- The user-facing slice, with the marker at `k`.
unfoldable pub slice_from : Marker → Option ℕ → List ℕ → List ℕ
unfolding skip_newlines
slice_from none k text = text
slice_from (some think_end) none text = []
slice_from (some think_end) (some k) text = skip_newlines (drop k text)

-- `_visible(text)`: the new `marker_end` and the slice.
unfoldable pub visible : Marker → Option ℕ → List ℕ → Option ℕ × List ℕ
unfolding locate slice_from
visible marker known text = let k = locate marker known text in (k, slice_from marker k text)

-- The position of the first token of `eos_set`.
unfoldable pub first_eos : (ℕ → Bool) → List ℕ → Option ℕ
first_eos is_eos [] = none
first_eos is_eos (t ∷ out) =
    let rest = next (first_eos is_eos out) in if is_eos t then some 0 else rest

-- `if state["eos_at"] is None: ...`
unfoldable pub note_eos : (ℕ → Bool) → Option ℕ → List ℕ → Option ℕ
unfolding first_eos
note_eos is_eos (some i) out = some i
note_eos is_eos none out = first_eos is_eos out

unfoldable pub cap_at : Option ℕ → List ℕ → List ℕ
cap_at none out = out
cap_at (some i) out = take i out

-- The last test of `on_commit`: the new `vis_sent`, and the delta that is emitted, if any.
unfoldable pub send : ℕ → List ℕ → ℕ × Option (List ℕ)
send vis_sent seen =
    if ltb vis_sent (length seen)
    then (length seen, some (drop vis_sent seen))
    else (vis_sent, none)

module _ (decode : List ℕ → List ℕ) (is_eos : ℕ → Bool) (marker : Marker) where
  -- `on_commit`: the new state and the delta.
  unfoldable pub on_commit : State → List ℕ → State × Option (List ℕ)
  unfolding visible note_eos cap_at send
  on_commit state out =
      let eos_at = note_eos is_eos state.eos_at out in
      let text = decode (cap_at eos_at out) in
      let text' = if ltb (length state.text) (length text) then text else state.text in
      let (marker_end, seen) = visible marker state.marker_end text' in
      let (vis_sent, delta) = send state.vis_sent seen in
      (
        record { text = text'; eos_at = eos_at; marker_end = marker_end; vis_sent = vis_sent },
        delta,
      )

  -- The commits of an attempt, in order: the final state, and the deltas that were emitted.
  unfoldable pub commits : State → List (List ℕ) → State × List (List ℕ)
  commits state [] = (state, [])
  commits state (out ∷ outs) =
      let (state', delta) = on_commit state out in
      let (last, deltas) = commits state' outs in (last, prepend delta deltas)
