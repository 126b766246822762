-- ===== src/Coordinate/Serve/Started.antt =====
-- Which jobs the loop of the coordinator starts (shard/shard/coordinate.py).
use shard_glm_image.Base.{
  ℕ, ◌≡◌, ◌≤◌, refl, ap, Option, none, some, List, [], ◌∷◌, ◌++◌, Bool, arith, map, Bool-cases, inl,
  inr, ◌||◌, String,
}
use shard_glm_image.Coordinate.Stream.{State, fresh}
use shard_glm_image.Coordinate.Job.{
  Job, edge, other, Ended, returned, raised, Dial, connected, refused, World, Engine, Event, start,
  token, retry, metrics, done, fatal, attempt, called, ladder, retry_on, degrade, run_job,
}
use shard_glm_image.Coordinate.Serve.{
  Line, blank, unparseable, not_object, job, metric_events, perf_of, perf_keys, settled_outcome,
  report, prefix, serve_job, serve_jobs, Served,
}

-- The jobs that the events start.
abbrev pub started : List Event → List ℕ
started [] = []
started (start j ∷ es) = j ∷ started es
started (token j d ∷ es) = started es
started (retry j n ∷ es) = started es
started (metrics j m ∷ es) = started es
started (done j r n b ∷ es) = started es
started (fatal j ∷ es) = started es

-- The jobs among the lines.
abbrev pub job_ids : List Line → List ℕ
job_ids [] = []
job_ids (blank ∷ lines) = job_ids lines
job_ids (unparseable ∷ lines) = job_ids lines
job_ids (not_object ∷ lines) = job_ids lines
job_ids (job j ∷ lines) = j.job_id ∷ job_ids lines

started-append : (xs ys : List Event) → started (xs ++ ys) ≡ started xs ++ started ys
started-append [] ys = refl
started-append (start j ∷ xs) ys = ap (◌∷◌ j) (started-append xs ys)
started-append (token j d ∷ xs) ys = started-append xs ys
started-append (retry j n ∷ xs) ys = started-append xs ys
started-append (metrics j m ∷ xs) ys = started-append xs ys
started-append (done j r n b ∷ xs) ys = started-append xs ys
started-append (fatal j ∷ xs) ys = started-append xs ys

-- Nothing that happens inside a job starts a job.
started-tokens : (j : ℕ) (ds : List (List ℕ)) → started (map (token j) ds) ≡ []
started-tokens j [] = refl
started-tokens j (d ∷ ds) = started-tokens j ds

module _ (e : Engine) where
  started-attempt :
      (w : World) (j : Job) (s : State) (ids : Option (List ℕ))
      → started (attempt e w j s ids).1 ≡ []
  unfolding attempt
  started-attempt w j s ids = rw (started-tokens j.job_id)

  started-retry_on :
      (w : World) (j : Job) (s : State) (ids : List ℕ) (d : Dial)
      → started (retry_on e w j s ids d).1 ≡ []
  unfolding retry_on
  started-retry_on w j s ids (refused f) = refl
  started-retry_on w j s ids (connected pipe ret) =
      started-attempt (record w { chans = record { pipe = pipe; ret = ret } }) j s (some ids)

  started-ladder :
      (w : World) (j : Job) (s : State) (armed : Bool) (dial : Option (World → Dial))
      (ended : Ended)
      → started (ladder e w j s armed dial ended).1 ≡ []
  unfolding ladder
  started-ladder w j s armed dial (raised f) = refl
  started-ladder w j s armed none (returned r) = refl
  started-ladder w j s armed (some dial) (returned r) =
      ground (arith, started-retry_on (degrade w) j s r.output_ids (dial (degrade w)))

  started-run_job : (w : World) (j : Job) → started (run_job e w j).1 ≡ []
  unfolding run_job
  started-run_job w j =
      let (state, events, ended) = attempt e w j fresh none in
      rw (started-append, started-attempt w j fresh none)
        (started-ladder (called w) j state (e.eagle_armed w.flags) e.redial ended)

started-metric_events :
    (j : ℕ) (ms : List (String × ℕ)) (rest : List Event)
    → started (metric_events j ms ++ rest) ≡ started rest
unfolding metric_events
started-metric_events j [] rest = refl
started-metric_events j (m ∷ ms) rest = refl

started-report : (j : Job) (ended : Ended) → started (report j ended).0 ≡ []
unfolding report
started-report j (returned r) = ground (
  arith,
  started-metric_events j.job_id (perf_of perf_keys r.metrics)
      (done j.job_id (settled_outcome r) j.nonce (r.eagle_degraded || r.degraded_retry) ∷ []),
)
started-report j (raised edge) = refl
started-report j (raised other) = refl

started-serve_job : (e : Engine) (w : World) (j : Job) → started (serve_job e w j).1 ≡ j.job_id ∷ []
unfolding serve_job
started-serve_job e w j =
    rw (started-append, started-run_job e w j)
      (ap (◌∷◌ j.job_id) (started-report j (run_job e w j).2))

abbrev pub HasOther : List Line → Type 0
HasOther [] = ⊥
HasOther (not_object ∷ lines) = Unit
HasOther (blank ∷ lines) = HasOther lines
HasOther (unparseable ∷ lines) = HasOther lines
HasOther (job j ∷ lines) = HasOther lines

-- The exit codes 0 and 1, and an exception, which only a line that is no object raises.
abbrev pub IsExit : List Line → Option ℕ → Type 0
IsExit lines (some c) = c ≤ 1
IsExit lines none = HasOther lines

-- The events start a first part of the jobs, all of them with exit code 0, and the watchdog holds no
-- job.
abbrev pub Starts : List ℕ → Served → Type 0
Starts ids s =
    ((more : List ℕ) × (ids ≡ started s.events ++ more) × (s.code ≡ some 0 → more ≡ []))
    × (s.armed ≡ none)

Starts-prefix :
    (id : ℕ) (ids : List ℕ) (events : List Event) (s : Served)
    → started events ≡ id ∷ []
    → Starts ids s
    → Starts (id ∷ ids) (prefix events s)
unfolding prefix
Starts-prefix id ids events s one ((more, e1, e2), armed) =
    ((more, rw (started-append, one) (ap (◌∷◌ id) e1), e2), armed)

-- The loop starts the jobs in the order of their lines and skips none: it has always started a first
-- part of the jobs of stdin, and with exit code 0 all of them; the watchdog holds no job at the end.
pub serve_jobs-started :
    (e : Engine) (w : World) (lines : List Line)
    → Starts (job_ids lines) (serve_jobs e w none lines)
unfolding serve_jobs
serve_jobs-started e w [] = (([], refl, λ h. refl), refl)
serve_jobs-started e w (blank ∷ lines) = serve_jobs-started e w lines
serve_jobs-started e w (unparseable ∷ lines) = serve_jobs-started e w lines
serve_jobs-started e w (not_object ∷ lines) =
    ((job_ids lines, refl, λ h. absurd (ground arith)), refl)
serve_jobs-started e w (job j ∷ lines) = elim (Bool-cases (serve_job e w j).2) [
  | inl go ↦ rw go (
      Starts-prefix j.job_id (job_ids lines) (serve_job e w j).1
        (serve_jobs e (serve_job e w j).0 none lines) (started-serve_job e w j)
        (serve_jobs-started e (serve_job e w j).0 lines))
  | inr stop ↦
      rw stop ((job_ids lines, rw (started-serve_job e w j), λ h. absurd (ground arith)), refl)
]
