-- ===== src/Engine/Routes.antt =====
-- The console's editorial requests of api/routes.py: who may make them, and what is kept of a
-- refused one. A handler that answers inside its `async with RunContext.open()` commits.
use adam_abundance.Base.{
  ℕ, String, Bool, Option, none, some, List, Result, if◌then◌else◌, pure, gets, ◌>>=◌, ◌>>◌,
}
use adam_abundance.Base.Table.{find}
use adam_abundance.Base.Text.{strip}
use adam_abundance.Users.Rbac.{Role, can_approve}
use adam_abundance.Trends.Lifecycle.{LifecycleError, is_blank}
use adam_abundance.Trends.Rows.{Text, Pipeline, Job, pipeline_keyed, job_keyed}
use adam_abundance.Trends.PipelineRepo.{close}
use adam_abundance.Trends.Rollup.{refresh_rollup}
use adam_abundance.Trends.JobRepo.{pipeline_of, review_job, regenerate_job}
use adam_abundance.Engine.Session.{Session, EngineError, lifecycle, Act, on_db, transaction}
use adam_abundance.Engine.World.{World}
use adam_abundance.Engine.Start.{approve_and_start, decline_pipeline}
use adam_abundance.Engine.Publish.{publish_job}

-- The signed-in user, with the role and the brands under which the request acts.
pub record User : Type 0 where
  pub email : String
  pub role : Role
  pub brands : Option (List String)

-- A redirect; 404; `_FORBIDDEN`; 400 with an error of the lifecycle; 400 for empty instructions;
-- 502.
pub data Answer : Type 0 where
  redirected not_found forbidden : Answer
  refused : LifecycleError → Answer
  nothing_asked : Answer
  failed : EngineError → Answer

module _ {A : Type 0} where
  abbrev pub answer : Result EngineError A → Session → Result EngineError Answer × Session
  answer (Result.ok a) s = (Result.ok redirected, s)
  answer (Result.err (lifecycle e)) s = (Result.ok (refused e), s)
  answer (Result.err (EngineError.store_refused e)) s =
      (Result.err (EngineError.store_refused e), s)
  answer (Result.err (EngineError.crashed e)) s = (Result.err (EngineError.crashed e), s)

  -- `try: … except LifecycleError: return …`
  abbrev pub caught : Act A → Act Answer
  caught m s = let (r, s') = m s in answer r s'

  abbrev pub answer_any : Result EngineError A → Session → Result EngineError Answer × Session
  answer_any (Result.ok a) s = (Result.ok redirected, s)
  answer_any (Result.err (lifecycle e)) s = (Result.ok (refused e), s)
  answer_any (Result.err (EngineError.store_refused e)) s =
      (Result.ok (failed (EngineError.store_refused e)), s)
  answer_any (Result.err (EngineError.crashed e)) s =
      (Result.ok (failed (EngineError.crashed e)), s)

  -- The same, and `except Exception: return …` after it.
  abbrev pub caught_any : Act A → Act Answer
  caught_any m s = let (r, s') = m s in answer_any r s'

-- `_can_approve`
abbrev pub may_approve : User → String → Bool
may_approve u brand = can_approve u.role u.brands brand

abbrev pub guarded : User → Option Pipeline → Act Answer → Act Answer
guarded u none m = pure not_found
guarded u (some p) m = if may_approve u p.brand then m else pure forbidden

-- The request finds its pipeline, and its user may approve the pipeline's brand.
abbrev pub on_pipeline : User → ℕ → Act Answer → Act Answer
on_pipeline u i m s = guarded u (find i s.db.pipelines) m s

abbrev pub pipeline_of_found : Option Job → Session → Option Pipeline
pipeline_of_found none s = none
pipeline_of_found (some j) s = pipeline_of j s.db

-- The same for the job's own pipeline.
abbrev pub on_job : User → ℕ → Act Answer → Act Answer
on_job u i m s = guarded u (pipeline_of_found (find i s.db.jobs) s) m s

pub data Request : Type 0 where
  approve_request : ℕ → List String → Option Text → Request
  decline_request : ℕ → Option String → Request
  close_request : ℕ → Option String → Request
  review_request : ℕ → Bool → Request
  regenerate_request : ℕ → Text → Request
  publish_request : ℕ → Request

-- `job.pipeline_id`, read before the verdict.
abbrev pub rollup_job : World → Option Job → Act (Unit {0})
rollup_job w none = pure tt
rollup_job w (some j) = elim j.pipeline_id [
  | none ↦ pure tt
  | some p ↦ (do on_db (refresh_rollup w.now p); pure tt)
]

abbrev pub review_and_rollup : World → User → ℕ → Bool → Act (Unit {0})
review_and_rollup w u i ok = do
  j ← gets (λ s. find i s.db.jobs)
  on_db (review_job w.now i u.email ok)
  rollup_job w j

abbrev pub regenerate_and_rollup : World → User → ℕ → Text → Act (Unit {0})
regenerate_and_rollup w u i instructions = do
  j ← gets (λ s. find i s.db.jobs)
  on_db (regenerate_job w.now i u.email instructions)
  rollup_job w j

-- The six handlers, inside their transaction.
unfoldable pub handler : World → User → Request → Act Answer
handler w u (approve_request i picked instructions) =
    on_pipeline u i (caught (approve_and_start w i u.email picked instructions none))
handler w u (decline_request i reason) =
    on_pipeline u i (caught (decline_pipeline w i u.email reason))
handler w u (close_request i reason) =
    on_pipeline u i (caught (on_db (close w.now i u.email reason)))
handler w u (review_request i ok) = on_job u i (caught (review_and_rollup w u i ok))
handler w u (regenerate_request i instructions) =
    if is_blank (strip instructions)
    then pure nothing_asked
    else on_job u i (caught (regenerate_and_rollup w u i instructions))
handler w u (publish_request i) = on_job u i (caught_any (publish_job w i u.email))

unfoldable pub handle : World → User → Request → Session → Result EngineError Answer × Session
unfolding handler transaction
handle w u r s = transaction (handler w u r) s
