-- ===== src/Engine/History.antt =====
-- Any sequence of the engine's transactions, of editors' requests and of other repository calls.
use mathlib.Core.Path.{subst}
use adam_abundance.Base.{
  sym, ℕ, ◌≡◌, refl, Bool, Option, none, some, List, [], ◌∷◌, ◌++◌, ◌-◌, length, inl, inr,
  Bool-cases, Option-cases, Result, ok, err,
}
use adam_abundance.Base.Along.{Preorder, Keeps, Keeps-bind, Keeps-gets, Keeps-pure}
use adam_abundance.Base.Table.{find}
use adam_abundance.Base.Text.{strip}
use adam_abundance.Trends.Lifecycle.{is_blank}
use adam_abundance.Trends.Rows.{Text, Pipeline, Job, job_keyed, pipeline_keyed}
use adam_abundance.Trends.PipelineRepo.{close}
use adam_abundance.Trends.Rollup.{refresh_rollup}
use adam_abundance.Trends.JobRepo.{
  review_job, regenerate_job, claim_queued, claim_stuck_running, reap_dead_running,
}
use adam_abundance.Trends.Lawful.{Lawful}
use adam_abundance.Trends.PipelineLawful.{refresh_rollup-Lawful, close-Lawful}
use adam_abundance.Trends.JobLawful.{
  claim_queued-Lawful, claim_stuck_running-Lawful, reap_dead_running-Lawful,
}
use adam_abundance.Trends.ReviewLawful.{review_job-Lawful, regenerate_job-Lawful}
use adam_abundance.Trends.History.{Call, after, after-Lawful}
use adam_abundance.Engine.Session.{Session, EngineError, Act, on_db, transaction}
use adam_abundance.Engine.World.{World}
use adam_abundance.Engine.Start.{approve_and_start, decline_pipeline}
use adam_abundance.Engine.Worker.{claim_jobs, process_job}
use adam_abundance.Engine.Publish.{publish_job}
use adam_abundance.Engine.Routes.{
  pipeline_of_found, User, Answer, answer, answer_any, caught, caught_any, guarded, may_approve,
  on_pipeline, on_job, rollup_job, review_and_rollup, regenerate_and_rollup, Request,
  approve_request, decline_request, close_request, review_request, regenerate_request,
  publish_request, handler, handle,
}
use adam_abundance.Engine.Lawful.{
  LawfulSession, LawfulSession-Preorder, Keeps-on_db, Keeps-on_rows, Keeps-transaction,
}
use adam_abundance.Engine.StartLawful.{approve_and_start-Lawful, decline_pipeline-Lawful}
use adam_abundance.Engine.WorkerRules.{process_job-Keeps}
use adam_abundance.Engine.PublishLawful.{Lawful-Rules, publish_job-Lawful}

abbrev L : Preorder LawfulSession
L = LawfulSession-Preorder

answer-state : {A : Type 0} (r : Result EngineError A) (s : Session) → (answer r s).1 ≡ s
answer-state (ok a) s = refl
answer-state (err (EngineError.lifecycle e)) s = refl
answer-state (err (EngineError.store_refused e)) s = refl
answer-state (err (EngineError.crashed e)) s = refl

answer_any-state : {A : Type 0} (r : Result EngineError A) (s : Session) → (answer_any r s).1 ≡ s
answer_any-state (ok a) s = refl
answer_any-state (err (EngineError.lifecycle e)) s = refl
answer_any-state (err (EngineError.store_refused e)) s = refl
answer_any-state (err (EngineError.crashed e)) s = refl

module _ {A : Type 0} {R : Session → Session → Type 0} where
  caught-Keeps : (m : Act A) → Keeps R m → Keeps R (caught m)
  caught-Keeps m h = record {
    along = λ s. subst (λ z. R s z) (sym (answer-state (m s).0 (m s).1)) (h.along s);
  }

  caught_any-Keeps : (m : Act A) → Keeps R m → Keeps R (caught_any m)
  caught_any-Keeps m h = record {
    along = λ s. subst (λ z. R s z) (sym (answer_any-state (m s).0 (m s).1)) (h.along s);
  }

guarded-Lawful :
    (u : User) (p : Option Pipeline) (m : Act Answer)
    → Keeps LawfulSession m
    → Keeps LawfulSession (guarded u p m)
guarded-Lawful u none m h = Keeps-pure L Answer.not_found
guarded-Lawful u (some p) m h = elim (Bool-cases (may_approve u p.brand)) [
  | inl b ↦ rw b h
  | inr b ↦ rw b (Keeps-pure L Answer.forbidden)
]

on_pipeline-Lawful :
    (u : User) (i : ℕ) (m : Act Answer)
    → Keeps LawfulSession m
    → Keeps LawfulSession (on_pipeline u i m)
on_pipeline-Lawful u i m h = record {
  along = λ s. (guarded-Lawful u (find i s.db.pipelines) m h).along s;
}

on_job-Lawful :
    (u : User) (i : ℕ) (m : Act Answer) → Keeps LawfulSession m → Keeps LawfulSession (on_job u i m)
on_job-Lawful u i m h = record {
  along = λ s. (guarded-Lawful u (pipeline_of_found (find i s.db.jobs) s) m h).along s;
}

module _ (w : World) where
  rolled_up : (p : ℕ) → Keeps LawfulSession (on_db (refresh_rollup w.now p))
  rolled_up p = Keeps-on_db Lawful (refresh_rollup w.now p) (refresh_rollup-Lawful w.now p)

  rollup_job-Lawful : (j : Option Job) → Keeps LawfulSession (rollup_job w j)
  rollup_job-Lawful none = Keeps-pure L tt
  rollup_job-Lawful (some j) = elim (Option-cases j.pipeline_id) [
    | inl e ↦ rw e (Keeps-pure L tt)
    | inr (p, e) ↦ rw e (Keeps-bind L (rolled_up p) λ _. Keeps-pure L tt)
  ]

  review_and_rollup-Lawful :
      (u : User) (i : ℕ) (verdict : Bool) → Keeps LawfulSession (review_and_rollup w u i verdict)
  review_and_rollup-Lawful u i verdict =
      Keeps-bind L (Keeps-gets L (λ s. find i s.db.jobs)) λ (j : Option Job).
        Keeps-bind L
          (Keeps-on_db Lawful (review_job w.now i u.email verdict)
            (review_job-Lawful w.now i u.email verdict))
          λ _. rollup_job-Lawful j

  regenerate_and_rollup-Lawful :
      (u : User) (i : ℕ) (t : Text) → Keeps LawfulSession (regenerate_and_rollup w u i t)
  regenerate_and_rollup-Lawful u i t =
      Keeps-bind L (Keeps-gets L (λ s. find i s.db.jobs)) λ (j : Option Job).
        Keeps-bind L
          (Keeps-on_db Lawful (regenerate_job w.now i u.email t)
            (regenerate_job-Lawful w.now i u.email t))
          λ _. rollup_job-Lawful j

  handler-Lawful : (u : User) (r : Request) → Keeps LawfulSession (handler w u r)
  unfolding handler
  handler-Lawful u (approve_request i picked t) = on_pipeline-Lawful u i _ (
      caught-Keeps (approve_and_start w i u.email picked t none)
        (approve_and_start-Lawful w i u.email picked t none))
  handler-Lawful u (decline_request i reason) = on_pipeline-Lawful u i _ (
      caught-Keeps (decline_pipeline w i u.email reason)
        (decline_pipeline-Lawful w i u.email reason))
  handler-Lawful u (close_request i reason) = on_pipeline-Lawful u i _ (
      caught-Keeps (on_db (close w.now i u.email reason))
        (Keeps-on_db Lawful (close w.now i u.email reason) (close-Lawful w.now i u.email reason)))
  handler-Lawful u (review_request i verdict) =
      on_job-Lawful u i _
        (caught-Keeps (review_and_rollup w u i verdict) (review_and_rollup-Lawful u i verdict))
  handler-Lawful u (regenerate_request i t) = elim (Bool-cases (is_blank (strip t))) [
    | inl b ↦ rw b (Keeps-pure L Answer.nothing_asked)
    | inr b ↦ rw b (
        on_job-Lawful u i _
          (caught-Keeps (regenerate_and_rollup w u i t) (regenerate_and_rollup-Lawful u i t)))
  ]
  handler-Lawful u (publish_request i) =
      on_job-Lawful u i _
        (caught_any-Keeps (publish_job w i u.email) (publish_job-Lawful w i u.email))

  claim_jobs-Lawful :
      (locked : ℕ → Bool) (limit : ℕ) → Keeps LawfulSession (claim_jobs w locked limit)
  unfolding claim_jobs
  claim_jobs-Lawful locked limit =
      Keeps-bind L
        (Keeps-on_rows Lawful (claim_queued w.now locked limit)
          (claim_queued-Lawful w.now locked limit))
        λ (ids : List ℕ).
          Keeps-bind L
            (Keeps-on_rows Lawful
              (claim_stuck_running w.now locked (w.now - 300) (limit - length ids))
              (claim_stuck_running-Lawful w.now locked (w.now - 300) (limit - length ids)))
            λ (stuck : List ℕ).
              Keeps-bind L
                (Keeps-on_db Lawful (reap_dead_running w.now locked (w.now - 1800))
                  (reap_dead_running-Lawful w.now locked (w.now - 1800)))
                λ _. Keeps-pure L (ids ++ stuck)

-- One transaction: an editor's request, the sweep's claim, one turn of a sweep, or a call of a
-- repository's method from elsewhere, which may be kept or rolled back.
pub data Step : Type 0 where
  request : World → User → Request → Step
  claim : World → (ℕ → Bool) → ℕ → Step
  turn : World → ℕ → Step
  call : Call → Step

unfoldable pub take_step : Step → Session → Session
take_step (request w u r) s = (handle w u r s).1
take_step (claim w locked limit) s = (transaction (claim_jobs w locked limit) s).1
take_step (turn w i) s = (process_job w i s).1
take_step (call c) s = record s { db = after c s.db }

unfoldable pub take_steps : List Step → Session → Session
take_steps [] s = s
take_steps (x ∷ xs) s = take_steps xs (take_step x s)

take_step-Lawful : (x : Step) (s : Session) → LawfulSession s (take_step x s)
unfolding take_step handle
take_step-Lawful (request w u r) s = (Keeps-transaction L (handler-Lawful w u r)).along s
take_step-Lawful (claim w locked limit) s =
    (Keeps-transaction L (claim_jobs-Lawful w locked limit)).along s
take_step-Lawful (turn w i) s = process_job-Keeps Lawful-Rules w i s
take_step-Lawful (call c) s = after-Lawful c s.db

-- However editors' requests, the claims and turns of any number of sweeps, and other calls of the
-- repository follow each other, in whatever worlds: every pipeline and every job is still there,
-- in its place, and its status has moved along the transition tables only.
pub take_steps-Lawful : (xs : List Step) (s : Session) → Lawful s.db (take_steps xs s).db
unfolding take_steps
take_steps-Lawful [] s = L.same s
take_steps-Lawful (x ∷ xs) s =
    L.then s (take_step x s) (take_steps xs (take_step x s)) (take_step-Lawful x s)
      (take_steps-Lawful xs (take_step x s))
