-- ===== src/Coordinate/Serve/Protocol.antt =====
-- The stdout contract of the coordinator, as a machine that accepts its events
-- (shard/shard/coordinate.py).
use shard_glm_image.Base.{
  ℕ, ◌≡◌, refl, ◌∙◌, Option, none, some, List, [], ◌∷◌, ◌++◌, Bool, arith, map, Bool-cases,
  Option-cases, inl, inr, ◌||◌, ite, ℕ_discrete, String,
}
use shard_glm_image.Coordinate.Stream.{State, fresh}
use shard_glm_image.Coordinate.Job.{
  Job, edge, other, Ended, returned, raised, Dial, connected, refused, World, Engine, Event, start,
  token, retry, metrics, done, fatal, attempt, called, ladder, retry_on, degrade, run_job,
}
use shard_glm_image.Coordinate.Serve.{
  Line, blank, unparseable, not_object, job, metric_events, perf_of, perf_keys, settled_outcome,
  report, prefix, serve_job, serve_jobs,
}

-- The job that is open, if any; `none` when an event breaks the contract.
unfoldable pub step : Option ℕ → Event → Option (Option ℕ)
step none (start j) = some (some j)
step none (fatal none) = some none
step (some j) (token i d) = ite (ℕ_discrete i j) (some (some j)) none
step (some j) (retry i n) = ite (ℕ_discrete i j) (some (some j)) none
step (some j) (metrics i m) = ite (ℕ_discrete i j) (some (some j)) none
step (some j) (done i r n b) = ite (ℕ_discrete i j) (some none) none
step (some j) (fatal (some i)) = ite (ℕ_discrete i j) (some none) none
step _ _ = none

-- The state after the events, if all of them are accepted.
unfoldable pub accepts : Option ℕ → List Event → Option (Option ℕ)
accepts s [] = some s
accepts s (ev ∷ evs) = elim (step s ev) [ none ↦ none | some s' ↦ accepts s' evs ]

accepts-append :
    (xs ys : List Event) (s s' : Option ℕ)
    → accepts s xs ≡ some s'
    → accepts s (xs ++ ys) ≡ accepts s' ys
unfolding accepts
accepts-append [] ys s s' h = ground arith
accepts-append (x ∷ xs) ys s s' h = elim (Option-cases (step s x)) [
  | inl bad ↦ ground arith
  | inr (t, good) ↦ ground (arith, accepts-append xs ys t s')
]

accepts-tokens : (j : ℕ) (ds : List (List ℕ)) → accepts (some j) (map (token j) ds) ≡ some (some j)
unfolding accepts step
accepts-tokens j [] = refl
accepts-tokens j (d ∷ ds) = ground (arith, accepts-tokens j ds)

module _ (e : Engine) where
  accepts-attempt :
      (w : World) (j : Job) (s : State) (ids : Option (List ℕ))
      → accepts (some j.job_id) (attempt e w j s ids).1 ≡ some (some j.job_id)
  unfolding attempt
  accepts-attempt w j s ids = accepts-tokens j.job_id _

  accepts-retry_on :
      (w : World) (j : Job) (s : State) (ids : List ℕ) (d : Dial)
      → accepts (some j.job_id) (retry_on e w j s ids d).1 ≡ some (some j.job_id)
  unfolding retry_on accepts
  accepts-retry_on w j s ids (refused f) = refl
  accepts-retry_on w j s ids (connected pipe ret) =
      accepts-attempt (record w { chans = record { pipe = pipe; ret = ret } }) j s (some ids)

  accepts-ladder :
      (w : World) (j : Job) (s : State) (armed : Bool) (dial : Option (World → Dial))
      (ended : Ended)
      → accepts (some j.job_id) (ladder e w j s armed dial ended).1 ≡ some (some j.job_id)
  unfolding ladder accepts step
  accepts-ladder w j s armed dial (raised f) = refl
  accepts-ladder w j s armed none (returned r) = refl
  accepts-ladder w j s armed (some dial) (returned r) =
      ground (arith, accepts-retry_on (degrade w) j s r.output_ids (dial (degrade w)))

  accepts-run_job :
      (w : World) (j : Job) → accepts (some j.job_id) (run_job e w j).1 ≡ some (some j.job_id)
  unfolding run_job
  accepts-run_job w j =
      accepts-append _ _ _ _ (accepts-attempt w j fresh none)
      ∙ accepts-ladder (called w) j _ _ e.redial _

accepts-metric_events :
    (j : ℕ) (ms : List (String × ℕ)) (rest : List Event)
    → accepts (some j) (metric_events j ms ++ rest) ≡ accepts (some j) rest
unfolding metric_events accepts step
accepts-metric_events j [] rest = refl
accepts-metric_events j (m ∷ ms) rest = ground arith

accepts-report : (j : Job) (ended : Ended) → accepts (some j.job_id) (report j ended).0 ≡ some none
unfolding report accepts step
accepts-report j (returned r) = ground (
  arith,
  accepts-metric_events j.job_id (perf_of perf_keys r.metrics)
      (done j.job_id (settled_outcome r) j.nonce (r.eagle_degraded || r.degraded_retry) ∷ []),
)
accepts-report j (raised edge) = ground arith
accepts-report j (raised other) = ground arith

accepts-serve_job :
    (e : Engine) (w : World) (j : Job) → accepts none (serve_job e w j).1 ≡ some none
unfolding serve_job accepts step
accepts-serve_job e w j =
    accepts-append (run_job e w j).1 _ _ _ (accepts-run_job e w j)
    ∙ accepts-report j (run_job e w j).2

-- Whatever the engine does and whatever stands on stdin, the events of the coordinator keep the
-- contract: a job is started, then has its tokens, retries and metrics, each with its own id, and is
-- closed by exactly one SHARD_JOB_DONE or SHARD_JOB_FATAL before another job starts; and the loop
-- never ends with a job open.
pub accepts-serve_jobs :
    (e : Engine) (w : World) (armed : Option ℕ) (lines : List Line)
    → accepts none (serve_jobs e w armed lines).events ≡ some none
unfolding serve_jobs accepts step prefix
accepts-serve_jobs e w armed [] = refl
accepts-serve_jobs e w armed (blank ∷ lines) = accepts-serve_jobs e w armed lines
accepts-serve_jobs e w armed (unparseable ∷ lines) = accepts-serve_jobs e w armed lines
accepts-serve_jobs e w armed (not_object ∷ lines) = refl
accepts-serve_jobs e w armed (job j ∷ lines) = elim (Bool-cases (serve_job e w j).2) [
  | inl go ↦
      rw (go, accepts-append (serve_job e w j).1 _ _ _ (accepts-serve_job e w j))
        (accepts-serve_jobs e (serve_job e w j).0 none lines)
  | inr stop ↦ rw stop (accepts-serve_job e w j)
]
