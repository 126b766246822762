-- ===== src/Coordinate/Stream/Joined.antt =====
-- The deltas of a job, joined, are the visible slice of its text (shard/shard/coordinate.py).
use mathlib.Core.List.{append_assoc, append-nil}
use shard_glm_image.Base.{
  ℕ, ◌≡◌, refl, sym, ap, ◌∙◌, ◌≢◌, Option, none, some, List, [], ◌∷◌, ◌++◌, length, arith, Bool,
  Bool-cases, Option-cases, inl, inr, ltb, if◌then◌else◌,
}
use shard_glm_image.Coordinate.Stream.{
  starts_with, Marker, State, fresh, locate, slice_from, visible, first_eos, note_eos, cap_at, send,
  on_commit, commits, find, prepend, join,
}
use shard_glm_image.Base.Prefix.{Extends, eq_of_Extends, append-drop}
use shard_glm_image.Base.Text.Start.{find-append}
use shard_glm_image.Coordinate.Stream.Visible.{shown, shown-append, cap-append, first_eos-append}

-- Each output goes on from the one before.
abbrev pub Growing : List ℕ → List (List ℕ) → Type 0
Growing out [] = Unit
Growing out (out' ∷ outs) = Extends out out' × Growing out' outs

abbrev pub last_of : List ℕ → List (List ℕ) → List ℕ
last_of out [] = out
last_of out (out' ∷ outs) = last_of out' outs

module _ (decode : List ℕ → List ℕ) (is_eos : ℕ → Bool) where
  -- The tokens up to the first end token, decoded.
  abbrev pub text_from : List ℕ → List ℕ
  text_from out = decode (cap_at (first_eos is_eos out) out)

-- A marker that was found is found at the same place in every longer text.
pub locate-Extends :
    (m : Marker) (text text' : List ℕ)
    → Extends text text'
    → locate m (locate m none text) text' ≡ locate m none text'
unfolding locate
locate-Extends none text text' h = refl
locate-Extends (some sub) text text' (more, e) = elim (Option-cases (find text sub)) [
  | inl miss ↦ rw (miss, locate)
  | inr (j, hit) ↦ ground (arith, find-append text more sub j hit)
]

locate-nil : (m : Marker) → m ≢ some [] → locate m none [] ≡ none
unfolding locate find starts_with
locate-nil none h = refl
locate-nil (some []) h = absurd (h refl)
locate-nil (some (b ∷ sub)) h = refl

shown-nil : (m : Marker) → m ≢ some [] → shown m [] ≡ []
unfolding slice_from
shown-nil none h = refl
shown-nil (some sub) h = rw (locate-nil (some sub) h)

module _ (decode : List ℕ → List ℕ) (is_eos : ℕ → Bool) (marker : Marker) where
  abbrev pub text_of : List ℕ → List ℕ
  text_of = text_from decode is_eos

  -- What the user has seen after the output `out`.
  abbrev pub seen_of : List ℕ → List ℕ
  seen_of out = shown marker (text_of out)

  -- The state after the output `out`, if it is right.
  abbrev pub settled : List ℕ → State
  settled out = record {
    text = text_of out;
    eos_at = first_eos is_eos out;
    marker_end = locate marker none (text_of out);
    vis_sent = length (seen_of out);
  }

  note_eos-Extends :
      (out out' : List ℕ)
      → Extends out out'
      → note_eos is_eos (first_eos is_eos out) out' ≡ first_eos is_eos out'
  unfolding note_eos
  note_eos-Extends out out' (more, e) = elim (Option-cases (first_eos is_eos out)) [
    | inl miss ↦ rw (miss, note_eos)
    | inr (i, hit) ↦ rw (e, hit, first_eos-append is_eos out more i hit)
  ]

  longer_text :
      (old new : List ℕ)
      → Extends old new
      → (if ltb (length old) (length new) then new else old) ≡ new
  longer_text old new h = elim (Bool-cases (ltb (length old) (length new))) [
    | inl e ↦ rw e
    | inr e ↦ rw e (sym (eq_of_Extends old new h (ground arith)))
  ]

  abbrev add : List ℕ → Option (List ℕ) → List ℕ
  add sent none = sent
  add sent (some d) = sent ++ d

  add-append :
      (sent : List ℕ) (delta : Option (List ℕ)) (rest : List (List ℕ))
      → sent ++ join (prepend delta rest) ≡ add sent delta ++ join rest
  add-append sent none rest = refl
  add-append sent (some d) rest = sym (append_assoc sent d (join rest))

  send_lem :
      (sent seen : List ℕ)
      → Extends sent seen
      → (add sent (send (length sent) seen).1 ≡ seen) × ((send (length sent) seen).0 ≡ length seen)
  unfolding send
  send_lem sent seen h = elim (Bool-cases (ltb (length sent) (length seen))) [
    | inl t ↦ ground (arith, append-drop sent seen h)
    | inr t ↦ ground (arith, eq_of_Extends sent seen h)
  ]

  module _ (empty : decode [] ≡ [])
      (grows : (a b : List ℕ) → Extends (decode a) (decode (a ++ b))) where
    text_of-Extends : (out out' : List ℕ) → Extends out out' → Extends (text_of out) (text_of out')
    text_of-Extends out out' (more, e) =
        let (ids, cut) = cap-append is_eos out more in
        let longer = grows (cap_at (first_eos is_eos out) out) ids in rw (e, cut) longer

    seen_of-Extends : (out out' : List ℕ) → Extends out out' → Extends (seen_of out) (seen_of out')
    seen_of-Extends out out' h =
        let (more, e) = text_of-Extends out out' h in rw e (shown-append marker (text_of out) more)

    -- One commit: the right state again, and the delta makes up the difference.
    on_commit-settled :
        (out out' : List ℕ)
        → Extends out out'
        → ((on_commit decode is_eos marker (settled out) out').0 ≡ settled out')
          × (add (seen_of out) (on_commit decode is_eos marker (settled out) out').1 ≡ seen_of out')
    unfolding on_commit visible
    on_commit-settled out out' h =
        let (delta, counted) = send_lem (seen_of out) (seen_of out') (seen_of-Extends out out' h) in
        rw
          (
            note_eos-Extends out out' h,
            longer_text (text_of out) (text_of out') (text_of-Extends out out' h),
            locate-Extends marker (text_of out) (text_of out') (text_of-Extends out out' h),
          )
          (rw counted refl, delta)

    pub commits-settled :
        (out : List ℕ) (outs : List (List ℕ))
        → Growing out outs
        → ((commits decode is_eos marker (settled out) outs).0 ≡ settled (last_of out outs))
          × (seen_of out ++ join (commits decode is_eos marker (settled out) outs).1
              ≡ seen_of (last_of out outs))
    unfolding commits
    commits-settled out [] g = (refl, append-nil (seen_of out))
    commits-settled out (out' ∷ outs) g =
        let (state, delta) = on_commit-settled out out' g.0 in
        let (last, joined) = commits-settled out' outs g.1 in
        rw state (
          last,
          add-append (seen_of out) (on_commit decode is_eos marker (settled out) out').1 _
              ∙ ap (λ (s : List ℕ). s ++ join (commits decode is_eos marker (settled out') outs).1)
                  delta
              ∙ joined,
        )

    -- Nothing is visible in the empty text.
    pub settled-fresh : marker ≢ some [] → settled [] ≡ fresh
    unfolding first_eos cap_at
    settled-fresh some_marker =
        rw (empty, shown-nil marker some_marker, locate-nil marker some_marker)

    pub seen_of-nil : marker ≢ some [] → seen_of [] ≡ []
    unfolding first_eos cap_at
    seen_of-nil some_marker = rw (empty, shown-nil marker some_marker)
