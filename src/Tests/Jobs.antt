-- ===== src/Tests/Jobs.antt =====
-- Jobs through a small engine: the degraded retry, and the events of the loop
-- (shard/shard/coordinate.py).
use shard_glm_image.Base.{
  ℕ, ◌≡◌, refl, Option, none, some, List, [], ◌∷◌, ◌++◌, Bool, true, false, ◌==◌, ℕ_discrete,
  text_discrete,
}
use shard_glm_image.Receipt.Dict.{without}
use shard_glm_image.Receipt.Signing.{wire_receipt}
use shard_glm_image.Coordinate.Stream.{
  starts_with, find, skip_newlines, fresh, locate, slice_from, visible, first_eos, note_eos, cap_at,
  send, on_commit, commits,
}
use shard_glm_image.Coordinate.Stream.Joined.{text_from}
use shard_glm_image.Coordinate.Job.{
  Job, Outcome, returned, Attempt, connected, Engine, token, retry, World, max_new_of, marker_of,
  degrade, thought, finish, attempt, finish_retry, retry_on, ladder, called, run_job,
}
use shard_glm_image.Coordinate.Serve.{
  Line, blank, unparseable, not_object, job, perf_entry, perf_of, metric_events, settled_outcome,
  report, prefix, serve_job, serve_jobs,
}
use shard_glm_image.Coordinate.Serve.Protocol.{step, accepts, accepts-serve_jobs}
use shard_glm_image.Coordinate.Serve.Started.{Starts, job_ids, started, serve_jobs-started}

program : Unit {0}
unfolding starts_with find skip_newlines locate slice_from visible first_eos note_eos cap_at send
    on_commit commits max_new_of marker_of degrade thought finish attempt finish_retry retry_on
    ladder called run_job perf_entry perf_of metric_events settled_outcome report prefix serve_job
    serve_jobs step accepts wire_receipt without text_discrete ℕ_discrete
program = tt

abbrev decode : List ℕ → List ℕ
decode ids = ids

-- Token 9 ends an output.
abbrev is_eos : ℕ → Bool
is_eos t = t == 9

-- The marker 7 8, a newline, the answer 5 6.
abbrev outs : List (List ℕ)
outs =
    (1 ∷ 7 ∷ [])
    ∷ (1 ∷ 7 ∷ 8 ∷ 10 ∷ [])
    ∷ (1 ∷ 7 ∷ 8 ∷ 10 ∷ 5 ∷ [])
    ∷ (1 ∷ 7 ∷ 8 ∷ 10 ∷ 5 ∷ 6 ∷ 9 ∷ [])
    ∷ []

abbrev think_end : List ℕ
think_end = 7 ∷ 8 ∷ []

deltas : (commits decode is_eos (some think_end) fresh outs).1 ≡ (5 ∷ []) ∷ (6 ∷ []) ∷ []
unfolding program
deltas = refl

abbrev outcome : Outcome
outcome = record {
  ok = true;
  resumable = false;
  eagle_degraded = false;
  degraded_retry = false;
  text = [];
  reasoning_text = none;
  output_ids = [];
  n_tokens = 0;
  receipts = [];
  receipts_ok = none;
  metrics = ("tok_s", 40) ∷ [];
}

abbrev before : List ℕ
before = 1 ∷ 7 ∷ 8 ∷ 10 ∷ 5 ∷ []

-- An edge dies after five tokens; the second attempt goes on from them.
abbrev pipe : Option (List ℕ) → Attempt
pipe none = record {
  outs = (1 ∷ 7 ∷ []) ∷ before ∷ [];
  ended = returned (record outcome { ok = false; resumable = true; output_ids = before });
}
pipe (some ids) = record {
  outs = (ids ++ 6 ∷ 9 ∷ []) ∷ [];
  ended = returned (record outcome { text = text_from decode is_eos (ids ++ 6 ∷ 9 ∷ []) });
}

abbrev engine : Engine
engine = record {
  decode = decode;
  is_eos = is_eos;
  think_end = some think_end;
  eagle_armed = λ f. f.eagle;
  coordinate_pipe = λ k f c j n ids. pipe ids;
  redial = some (λ w. connected 3 4);
}

abbrev world : World
world = record {
  flags = record { eagle = true; tree = true };
  chans = record { pipe = 1; ret = 2 };
  closed = [];
  calls = 0;
}

abbrev line : ℕ → Job
line id = record { job_id = id; max_new = none; reasoning = none; nonce = some "n1" }

abbrev answer : Outcome
answer = record outcome { degraded_retry = true; text = 5 ∷ 6 ∷ []; reasoning_text = some (1 ∷ []) }

ran : (run_job engine world (line 1)).1 ≡ token 1 (5 ∷ []) ∷ retry 1 5 ∷ token 1 (6 ∷ []) ∷ []
unfolding program
ran = refl

redialled : (run_job engine world (line 1)).0 ≡ record {
  flags = record { eagle = false; tree = false };
  chans = record { pipe = 3; ret = 4 };
  closed = 1 ∷ 2 ∷ [];
  calls = 2;
}
unfolding program
redialled = refl

abbrev lines : List Line
lines = job (line 1) ∷ blank ∷ unparseable ∷ job (line 2) ∷ not_object ∷ []

served : job_ids lines ≡ started (serve_jobs engine world none lines).events
unfolding program
served = refl

accepts-serve_jobs_example : accepts none (serve_jobs engine world none lines).events ≡ some none
accepts-serve_jobs_example = accepts-serve_jobs engine world none lines

serve_jobs-started_example : Starts (job_ids lines) (serve_jobs engine world none lines)
serve_jobs-started_example = serve_jobs-started engine world lines

-- The second job has no EAGLE to blame, so its fault ends the loop; a line that is no object ends it
-- with an exception.
codes :
    ((serve_jobs engine world none lines).code ≡ some 1)
    × ((serve_jobs engine world none (blank ∷ not_object ∷ job (line 1) ∷ [])).code ≡ none)
    × ((serve_jobs engine world none (job (line 1) ∷ [])).code ≡ some 0)
unfolding program
codes = (refl, refl, refl)
