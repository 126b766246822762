-- ===== src/Coordinate/Serve.antt =====
-- shard/shard/coordinate.py `serve_jobs`: the loop over the job lines of stdin.
pub mod Protocol
pub mod Started
use shard_glm_image.Base.{
  ℕ, if◌then◌else◌, Option, none, some, List, [], ◌∷◌, ◌++◌, Bool, true, false, ◌||◌, String, map,
  text_discrete, ite,
}
use shard_glm_image.Receipt.Signing.{wire_receipt}
use shard_glm_image.Coordinate.Job.{
  Job, Outcome, Fault, edge, other, Ended, returned, raised, World, Engine, Event, start, metrics,
  done, fatal, run_job,
}

-- A line of stdin, as `strip` and `json.loads` leave it: `unparseable` is no JSON or an object without
-- a `jobId`, `not_object` is JSON of another shape, which is no handled error.
pub data Line : Type 0 where
  blank unparseable not_object : Line
  job : Job → Line

abbrev pub perf_keys : List String
perf_keys =
    "tok_s" ∷ "mean_accept" ∷ "toks_per_traversal" ∷ "prefill_s" ∷ "decode_s" ∷ "draft_s"
    ∷ "ring_wait_s" ∷ "n_tokens" ∷ "prompt_tokens" ∷ "graph_arm" ∷ "traversal_s" ∷ "stage_s"
    ∷ "stage_compute_s" ∷ "transport_s" ∷ "per_stage_ms" ∷ []

unfoldable pub perf_entry : String → List (String × ℕ) → List (String × ℕ)
unfolding text_discrete
perf_entry k [] = []
perf_entry k ((j, v) ∷ r) = ite (text_discrete j k) ((k, v) ∷ []) (perf_entry k r)

-- `{k: r[k] for k in (...) if k in r}`
unfoldable pub perf_of : List String → List (String × ℕ) → List (String × ℕ)
unfolding perf_entry
perf_of [] r = []
perf_of (k ∷ ks) r = perf_entry k r ++ perf_of ks r

unfoldable pub metric_events : ℕ → List (String × ℕ) → List Event
metric_events id [] = []
metric_events id (m ∷ ms) = metrics id (m ∷ ms) ∷ []

-- The fields of SHARD_JOB_DONE: the receipts go out as they were signed.
unfoldable pub settled_outcome : Outcome → Outcome
unfolding wire_receipt
settled_outcome r = record r { receipts = map wire_receipt r.receipts }

-- What is emitted when `run_job` has ended, and whether the loop goes on.
unfoldable pub report : Job → Ended → List Event × Bool
report j (returned r) =
    if r.ok
    then (
      metric_events j.job_id (perf_of perf_keys r.metrics)
          ++ done j.job_id (settled_outcome r) j.nonce (r.eagle_degraded || r.degraded_retry) ∷ [],
      true,
    )
    else (fatal (some j.job_id) ∷ [], false)
report j (raised edge) = (fatal (some j.job_id) ∷ [], false)
report j (raised other) = (fatal (some j.job_id) ∷ [], true)

-- The end of the loop: the world, the events, the exit code (`none` if an exception escapes) and the
-- job that the watchdog holds.
pub record Served : Type 0 where
  pub world : World
  pub events : List Event
  pub code : Option ℕ
  pub armed : Option ℕ

unfoldable pub prefix : List Event → Served → Served
prefix events s = record s { events = events ++ s.events }

module _ (e : Engine) where
  -- One job: `arm`, SHARD_JOB_START, `run_job`, the report; the `finally` disarms on every path.
  unfoldable pub serve_job : World → Job → World × List Event × Bool
  serve_job w j =
      let (w', events, ended) = run_job e w j in
      let (reported, go_on) = report j ended in (w', start j.job_id ∷ (events ++ reported), go_on)

  unfoldable pub serve_jobs : World → Option ℕ → List Line → Served
  unfolding prefix
  serve_jobs w armed [] = record { world = w; events = []; code = some 0; armed = armed }
  serve_jobs w armed (blank ∷ lines) = serve_jobs w armed lines
  serve_jobs w armed (unparseable ∷ lines) = prefix (fatal none ∷ []) (serve_jobs w armed lines)
  serve_jobs w armed (not_object ∷ lines) = record {
    world = w;
    events = [];
    code = none;
    armed = armed;
  }
  serve_jobs w armed (job j ∷ lines) =
      let (w', events, go_on) = serve_job w j in
      let rest = serve_jobs w' none lines in
      if go_on
      then prefix events rest
      else record { world = w'; events = events; code = some 1; armed = none }
