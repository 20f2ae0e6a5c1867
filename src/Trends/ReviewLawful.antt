-- ===== src/Trends/ReviewLawful.antt =====
-- Reviewing and regenerating a job (`review_job`, `regenerate_job` of trends/repo.py) moves statuses
-- along the tables only.
use adam_abundance.Base.{
  ℕ, ◌+◌, ◌≡◌, refl, sym, ap, String, Bool, not, Option, none, some, List, [], ◌∷◌, inl, inr,
  Bool-cases, Option-cases, pure, raise_if, modify, ◌>>=◌, ◌>>◌, if◌then◌else◌,
}
use adam_abundance.Base.Along.{Along, Along-bind_at}
use adam_abundance.Base.Table.{find}
use adam_abundance.Trends.Lifecycle.{
  JobStatus, job_may, is_non_human, is_terminal_pipeline, bad_job_move,
}
use adam_abundance.Trends.Reach.{stay, move}
use adam_abundance.Trends.Rows.{
  Text, Detail, Pipeline, Job, Db, Action, pipeline_keyed, job_keyed, put_job, on_job, attempt_of,
}
use adam_abundance.Trends.PipelineRepo.{logged}
use adam_abundance.Trends.JobRepo.{
  Field, set_reviewed, pipeline_of, check_recoverable, mark_job, log_on, review_job, requeued,
  regenerate_job,
}
use adam_abundance.Trends.Lawful.{Lawful, Lawful-Preorder, put_pipeline-Lawful, put_job-Lawful}
use adam_abundance.Trends.JobLawful.{mark_job-Lawful}

module _ (now : ℕ) where
  then_pure-Lawful :
      {A B : Type 0} (m : Action A) (x : B) (s : Db)
      → Lawful s (m s).1
      → Lawful s ((m >> pure x) s).1
  then_pure-Lawful m x s h =
      Along-bind_at Lawful-Preorder m (λ _. pure x) s h (λ _ _. Lawful-Preorder.same (m s).1)

  -- The job's pipeline, read before, is where it was and gets one event more.
  log_on-Lawful :
      (p : Option Pipeline) (i : Option ℕ) (s : Db) (actor event : String) (d : Detail)
      → p ≡ elim i [ none ↦ none | some k ↦ find k s.pipelines ]
      → Lawful s (log_on now p (logged now actor event d) s).1
  log_on-Lawful none i s actor event d e = Lawful-Preorder.same s
  log_on-Lawful (some p) none s actor event d e = cc
  log_on-Lawful (some p) (some k) s actor event d e =
      put_pipeline-Lawful k p (logged now actor event d p) s (sym e) (refl, stay)

  check_state : (p : Option Pipeline) (u : Db) → (check_recoverable p u).1 ≡ u
  check_state none u = refl
  check_state (some p) u = elim (Bool-cases (is_terminal_pipeline p.status)) [
    | inl b ↦ rw b refl
    | inr b ↦ rw b refl
  ]

  requeue : Text → ℕ → String → Job → Option Pipeline → Action Job
  requeue instructions i actor j p = do
    raise_if (not (job_may j.status JobStatus.queued)) (bad_job_move j.status JobStatus.queued)
    modify (put_job (requeued now instructions j))
    log_on now p (logged now actor "regenerate_requested" (attempt_of i (j.attempt + 1)))
    pure (requeued now instructions j)

  requeue-Lawful :
      (instructions : Text) (i : ℕ) (actor : String) (j : Job) (s : Db)
      → find i s.jobs ≡ some j
      → Lawful s (requeue instructions i actor j (pipeline_of j s) s).1
  unfolding requeue
  requeue-Lawful instructions i actor j s e =
      elim (Bool-cases (job_may j.status JobStatus.queued)) [
        | inl m ↦ rw m (
            Lawful-Preorder.then s (put_job (requeued now instructions j) s)
              ((log_on now (pipeline_of j s)
                    (logged now actor "regenerate_requested" (attempt_of i (j.attempt + 1)))
                  >> pure (requeued now instructions j))
                (put_job (requeued now instructions j) s)).1
              (put_job-Lawful i j (requeued now instructions j) s e (refl, move stay m))
              (then_pure-Lawful
                (log_on now (pipeline_of j s)
                  (logged now actor "regenerate_requested" (attempt_of i (j.attempt + 1))))
                (requeued now instructions j) (put_job (requeued now instructions j) s)
                (log_on-Lawful (pipeline_of j s) j.pipeline_id _ actor _ _ refl)))
        | inr m ↦ rw m (Lawful-Preorder.same s)
      ]

  pub regenerate_job-Lawful :
      (i : ℕ) (actor : String) (instructions : Text)
      → Along Lawful (regenerate_job now i actor instructions)
  unfolding regenerate_job requeue
  regenerate_job-Lawful i actor instructions s = elim (Bool-cases (is_non_human actor)) [
    | inl b ↦ rw b (Lawful-Preorder.same s)
    | inr b ↦ elim (Option-cases (find i s.jobs)) [
      | inl e ↦ rw (b, e) (Lawful-Preorder.same s)
      | inr (j, e) ↦
          rw (b, e)
            (Along-bind_at Lawful-Preorder (check_recoverable (pipeline_of j s))
              (λ _. requeue instructions i actor j (pipeline_of j s)) s
              (rw (check_state (pipeline_of j s) s) (Lawful-Preorder.same s))
              λ _ h.
                rw (check_state (pipeline_of j s) s) (requeue-Lawful instructions i actor j s e))
    ]
  ]

  mark_job-pipelines :
      (i : ℕ) (status : JobStatus) (fields : List Field) (s : Db)
      → (mark_job now i status fields s).1.pipelines ≡ s.pipelines
  unfolding mark_job
  mark_job-pipelines i status fields s = elim (Option-cases (find i s.jobs)) [
    | inl e ↦ rw e refl
    | inr (j, e) ↦ elim (Bool-cases (job_may j.status status)) [
      | inl m ↦ rw (e, m) refl
      | inr m ↦ rw (e, m) refl
    ]
  ]

  still :
      (p : Option ℕ) (s t : Db)
      → t.pipelines ≡ s.pipelines
      → (elim p [ none ↦ none | some i ↦ find i s.pipelines ])
        ≡ (elim p [ none ↦ none | some i ↦ find i t.pipelines ])
  still none s t e = refl
  still (some i) s t e = ap (find i) (sym e)

  review : ℕ → String → Bool → Option Pipeline → Action Job
  review i actor approve p = do
    j' ←
        mark_job now i (if approve then JobStatus.approved else JobStatus.rejected)
          (set_reviewed actor now ∷ [])
    log_on now p
        (logged now actor (if approve then "preview_approved" else "preview_rejected") (on_job i))
    pure j'

  review-Lawful :
      (i : ℕ) (actor : String) (approve : Bool) (j : Job) (s : Db)
      → Lawful s (review i actor approve (pipeline_of j s) s).1
  unfolding review
  review-Lawful i actor approve j s =
      Along-bind_at Lawful-Preorder (mark_job now i verdict seen)
        (λ j'. log_on now (pipeline_of j s) (logged now actor told (on_job i)) >> pure j') s
        (mark_job-Lawful now i verdict seen s)
        λ j' h.
          then_pure-Lawful (log_on now (pipeline_of j s) (logged now actor told (on_job i))) j'
            (mark_job now i verdict seen s).1
            (log_on-Lawful (pipeline_of j s) j.pipeline_id (mark_job now i verdict seen s).1 actor
              told (on_job i)
              (still j.pipeline_id s (mark_job now i verdict seen s).1
                (mark_job-pipelines i verdict seen s)))
    where
      verdict : JobStatus
      verdict = if approve then JobStatus.approved else JobStatus.rejected

      told : String
      told = if approve then "preview_approved" else "preview_rejected"

      seen : List Field
      seen = set_reviewed actor now ∷ []

  pub review_job-Lawful :
      (i : ℕ) (actor : String) (approve : Bool) → Along Lawful (review_job now i actor approve)
  unfolding review_job review
  review_job-Lawful i actor approve s = elim (Bool-cases (is_non_human actor)) [
    | inl b ↦ rw b (Lawful-Preorder.same s)
    | inr b ↦ elim (Option-cases (find i s.jobs)) [
      | inl e ↦ rw (b, e) (Lawful-Preorder.same s)
      | inr (j, e) ↦
          rw (b, e)
            (Along-bind_at Lawful-Preorder (check_recoverable (pipeline_of j s))
              (λ _. review i actor approve (pipeline_of j s)) s
              (rw (check_state (pipeline_of j s) s) (Lawful-Preorder.same s))
              λ _ h. rw (check_state (pipeline_of j s) s) (review-Lawful i actor approve j s))
    ]
  ]
