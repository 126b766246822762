-- ===== src/Coordinate/Job/Ladder.antt =====
-- What a job streams is what it answers, across the degraded retry too (shard/shard/coordinate.py
-- `run_job`).
use shard_glm_image.Base.{ℕ, ◌≡◌, Option, none, some, List, [], ◌∷◌, ◌++◌, true}
use shard_glm_image.Coordinate.Stream.{Marker, State}
use shard_glm_image.Base.Prefix.{Extends}
use shard_glm_image.Coordinate.Stream.Joined.{text_from, Growing, last_of, seen_of, settled}
use shard_glm_image.Coordinate.Job.{
  Job, Outcome, returned, Flags, Chans, World, Engine, Event, start, token, retry, metrics, done,
  fatal, job_marker, max_new_of,
}

-- The text of the token events.
abbrev pub streamed : List Event → List ℕ
streamed [] = []
streamed (token j d ∷ es) = d ++ streamed es
streamed (start j ∷ es) = streamed es
streamed (retry j n ∷ es) = streamed es
streamed (metrics j m ∷ es) = streamed es
streamed (done j r n b ∷ es) = streamed es
streamed (fatal j ∷ es) = streamed es

-- The ids that an attempt starts from.
abbrev pub resumed : Option (List ℕ) → List ℕ
resumed none = []
resumed (some ids) = ids

-- What `run_job` relies on in the tokenizer and in `coordinate_pipe`: the decoder takes no tokens to
-- no text and more tokens to a longer text; the outputs handed to `on_commit` go on from the resumed
-- ids and from each other; an answer's text is the text of the last output, up to the end token; and
-- a resumable failure returns the last output.
pub record IsFaithful (e : Engine) : Type 0 where
  pub empty : e.decode [] ≡ []
  pub grows : (a b : List ℕ) → Extends (e.decode a) (e.decode (a ++ b))
  pub growing :
      (k : ℕ) (f : Flags) (c : Chans) (job : Job) (n : ℕ) (ids : Option (List ℕ))
      → Growing (resumed ids) (e.coordinate_pipe k f c job n ids).outs
  pub answers :
      (k : ℕ) (f : Flags) (c : Chans) (job : Job) (n : ℕ) (ids : Option (List ℕ)) (r : Outcome)
      → (e.coordinate_pipe k f c job n ids).ended ≡ returned r
      → r.ok ≡ true
      → r.text
        ≡ text_from e.decode e.is_eos
            (last_of (resumed ids) (e.coordinate_pipe k f c job n ids).outs)
  pub keeps :
      (k : ℕ) (f : Flags) (c : Chans) (job : Job) (n : ℕ) (ids : Option (List ℕ)) (r : Outcome)
      → (e.coordinate_pipe k f c job n ids).ended ≡ returned r
      → r.resumable ≡ true
      → r.output_ids ≡ last_of (resumed ids) (e.coordinate_pipe k f c job n ids).outs

module _ (e : Engine) (faithful : IsFaithful e) (job : Job) where
  abbrev marker : Marker
  marker = job_marker e job

  abbrev state_of : List ℕ → State
  state_of = settled e.decode e.is_eos marker

  abbrev seen : List ℕ → List ℕ
  seen = seen_of e.decode e.is_eos marker

  abbrev text : List ℕ → List ℕ
  text = text_from e.decode e.is_eos

  -- The last output of an attempt.
  abbrev final : World → Option (List ℕ) → List ℕ
  final w ids =
      last_of (resumed ids)
        (e.coordinate_pipe w.calls w.flags w.chans job (max_new_of job.max_new) ids).outs
