-- ===== src/Coordinate/Job.antt =====
-- shard/shard/coordinate.py `run_job`: one job through the engine, with the degraded retry.
pub mod Ladder
use shard_glm_image.Base.{
  ℕ, suc, ◌+◌, ◌≡◌, if◌then◌else◌, Option, none, some, List, [], ◌∷◌, ◌++◌, Bool, true, false, not,
  ◌&&◌, ◌||◌, String, take, min, max, length, map,
}
use shard_glm_image.Base.Int.{ℤ, pos, negsuc}
use shard_glm_image.Receipt.Dict.{Dict}
use shard_glm_image.Coordinate.Stream.{Marker, State, fresh, find, visible, commits}

-- A job line.
pub record Job : Type 0 where
  pub job_id : ℕ
  pub max_new : Option ℤ
  pub reasoning : Option Bool
  pub nonce : Option String

-- The dictionary that `coordinate_pipe` returns, with the keys that `run_job` adds.
pub record Outcome : Type 0 where
  pub ok : Bool
  pub resumable : Bool
  pub eagle_degraded : Bool
  pub degraded_retry : Bool
  pub text : List ℕ
  pub reasoning_text : Option (List ℕ)
  pub output_ids : List ℕ
  pub n_tokens : ℕ
  pub receipts : List Dict
  pub receipts_ok : Option Bool
  pub metrics : List (String × ℕ)

-- An exception: one of `EDGE_ERRORS` or a `TransportError`, or another.
pub data Fault : Type 0 where
  edge other : Fault

pub data Ended : Type 0 where
  returned : Outcome → Ended
  raised : Fault → Ended

-- A run of `coordinate_pipe`: the outputs that it hands to `on_commit`, and how it ends.
pub record Attempt : Type 0 where
  pub outs : List (List ℕ)
  pub ended : Ended

pub data Dial : Type 0 where
  connected : (pipe ret : ℕ) → Dial
  refused : Fault → Dial

-- The process-wide switches of the engine.
pub record Flags : Type 0 where
  pub eagle : Bool
  pub tree : Bool

pub record Chans : Type 0 where
  pub pipe : ℕ
  pub ret : ℕ

-- What lives on from job to job: the switches, the channels, the sockets that were closed, and the
-- number of calls of `coordinate_pipe`.
pub record World : Type 0 where
  pub flags : Flags
  pub chans : Chans
  pub closed : List ℕ
  pub calls : ℕ

-- The engine module and the tokenizer that `run_job` is given. The first argument of
-- `coordinate_pipe` is the number of the call: the ring may answer each call in its own way.
pub record Engine : Type 0 where
  pub decode : List ℕ → List ℕ
  pub is_eos : ℕ → Bool
  pub think_end : Option (List ℕ)
  pub eagle_armed : Flags → Bool
  pub coordinate_pipe : ℕ → Flags → Chans → Job → ℕ → Option (List ℕ) → Attempt
  pub redial : Option (World → Dial)

-- What is emitted on stdout.
pub data Event : Type 0 where
  start : ℕ → Event
  token : ℕ → List ℕ → Event
  retry : ℕ → ℕ → Event
  metrics : ℕ → List (String × ℕ) → Event
  done : ℕ → Outcome → Option String → Bool → Event
  fatal : Option ℕ → Event

-- `max(1, min(int(job.get("maxNew") or 512), 4096))`
unfoldable pub max_new_of : Option ℤ → ℕ
max_new_of none = 512
max_new_of (some (pos ℕ.zero)) = 512
max_new_of (some (pos (suc n))) = max 1 (min (suc n) 4096)
max_new_of (some (negsuc n)) = 1

-- `bool(job.get("reasoning", True))`
abbrev pub wants_reasoning : Job → Bool
wants_reasoning job = elim job.reasoning [ none ↦ true | some b ↦ b ]

-- `split`, with the marker: reasoning is on and the model has an end marker that is not empty.
unfoldable pub marker_of : Option (List ℕ) → Bool → Marker
marker_of (some (c ∷ cs)) true = some (c ∷ cs)
marker_of think_end wants = none

-- The switches after an edge fault with EAGLE armed.
unfoldable pub degrade : World → World
degrade w = record w {
  flags = record { eagle = false; tree = false };
  closed = w.chans.pipe ∷ w.chans.ret ∷ w.closed;
}

unfoldable pub called : World → World
called w = record w { calls = w.calls + 1 }

module _ (e : Engine) where
  abbrev pub job_marker : Job → Marker
  job_marker job = marker_of e.think_end (wants_reasoning job)

  -- `raw[:j] if j >= 0 else raw`
  unfoldable pub thought : List ℕ → List ℕ → List ℕ
  unfolding find
  thought raw think_end = elim (find raw think_end) [ none ↦ raw | some j ↦ take j raw ]

  -- `_finish`
  unfoldable pub finish : Marker → State → Outcome → Outcome
  unfolding thought visible
  finish none state r = r
  finish (some think_end) state r =
      if r.ok
      then record r {
        reasoning_text = some (thought r.text think_end);
        text = (visible (some think_end) state.marker_end r.text).1;
      }
      else r

  -- `_attempt`, from the streaming state: the state after it, the events, and its end.
  unfoldable pub attempt : World → Job → State → Option (List ℕ) → State × List Event × Ended
  unfolding commits max_new_of
  attempt w job state resume_ids =
      let run = e.coordinate_pipe w.calls w.flags w.chans job (max_new_of job.max_new) resume_ids in
      let (state', deltas) = commits e.decode e.is_eos (job_marker job) state run.outs in
      (state', map (token job.job_id) deltas, run.ended)

  unfoldable pub finish_retry : Marker → State → Ended → Ended
  unfolding finish
  finish_retry marker state (raised f) = raised f
  finish_retry marker state (returned r) =
      returned (finish marker state (record r { degraded_retry = true }))

  -- The second attempt, on the channels that `redial` gave.
  unfoldable pub retry_on : World → Job → State → List ℕ → Dial → World × List Event × Ended
  unfolding attempt finish_retry called
  retry_on w job state committed (refused f) = (w, [], raised f)
  retry_on w job state committed (connected pipe ret) =
      let w' = record w { chans = record { pipe = pipe; ret = ret } } in
      let (state', events, ended) = attempt w' job state (some committed) in
      (called w', events, finish_retry (job_marker job) state' ended)

  -- What follows the first attempt.
  unfoldable pub ladder :
      World → Job → State → Bool → Option (World → Dial) → Ended → World × List Event × Ended
  unfolding finish degrade retry_on
  ladder w job state armed dial (raised f) = (w, [], raised f)
  ladder w job state armed none (returned r) = (w, [], returned (finish (job_marker job) state r))
  ladder w job state armed (some dial) (returned r) =
      if r.ok || not r.resumable || not armed
      then (w, [], returned (finish (job_marker job) state r))
      else (let (w', events, ended) =
            retry_on (degrade w) job state r.output_ids (dial (degrade w)) in
          (w', retry job.job_id (length r.output_ids) ∷ events, ended))

  unfoldable pub run_job : World → Job → World × List Event × Ended
  unfolding attempt ladder called
  run_job w job =
      let armed = e.eagle_armed w.flags in
      let (state, events, ended) = attempt w job fresh none in
      let (w', events', ended') = ladder (called w) job state armed e.redial ended in
      (w', events ++ events', ended')
