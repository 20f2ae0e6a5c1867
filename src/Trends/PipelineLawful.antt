-- ===== src/Trends/PipelineLawful.antt =====
-- The pipeline half of `PipelineRepo` moves statuses along the tables only.
use adam_abundance.Base.{
  ℕ, ◌≡◌, refl, sym, ap, String, Bool, true, false, not, ◌&&◌, ◌||◌, Option, some, List, [], ◌∷◌,
  map, inl, inr, Bool-cases, Option-cases, Result, ok, err, pure, modify, ◌>>=◌, ◌>>◌,
}
use adam_abundance.Base.Along.{Along, Along-bind_at}
use adam_abundance.Base.Table.{find, find-put_key, key-find}
use adam_abundance.Trends.Lifecycle.{
  PipelineStatus, JobStatus, LifecycleError, pipeline_may, job_may, is_non_human,
  validate_content_types, same_pipeline, is_terminal_pipeline,
}
use adam_abundance.Trends.Reach.{Reach, stay, move, Evolves-append}
use adam_abundance.Trends.Rows.{
  Text, Pipeline, Job, Db, Action, lift, pipeline_keyed, put_pipeline, ContentType,
}
use adam_abundance.Trends.PipelineRepo.{
  create, approve, decline, close, set_status, open_for_trend, insert_pipeline, new_pipeline,
  with_approval, retype, approved_pipeline, cancel_job, jobs_of, is_job_of, is_settled,
}
use adam_abundance.Trends.Rollup.{refresh_rollup, rollup_of, rollup_status, settle, closed_if}
use adam_abundance.Trends.Lawful.{
  SamePipeline-Preorder, SameJob, Lawful, Lawful-Preorder, put_pipeline-Lawful, map_jobs-Lawful,
  same_jobs,
}

true_if : (b : Bool) → not b ≡ false → b ≡ true
true_if true h = refl
true_if false h = cc

module _ (now : ℕ) where
  pub create-Lawful :
      (trend_id : Option ℕ) (brand : String) (asked : List String) (by : String)
      (instructions : Option Text)
      → Along Lawful (create now trend_id brand asked by instructions)
  unfolding create
  create-Lawful trend_id brand asked by instructions s =
      elim (Option-cases (open_for_trend trend_id s.pipelines)) [
        | inl e ↦ rw e (inserted (validate_content_types asked))
        | inr (k, e) ↦ rw e (Lawful-Preorder.same s)
      ]
    where
      inserted :
          (r : Result LifecycleError (List ContentType))
          → Lawful s
              ((lift r >>= λ cts.
                  insert_pipeline now
                    (λ id. new_pipeline now id trend_id brand asked by instructions cts))
                s).1
      inserted (ok cts) = (Evolves-append SamePipeline-Preorder s.pipelines _, same_jobs s.jobs)
      inserted (err x) = Lawful-Preorder.same s

  -- A checked move of the row that was found.
  moved :
      (i : ℕ) (p p' : Pipeline) (s : Db)
      → find i s.pipelines ≡ some p
      → p'.id ≡ p.id
      → pipeline_may p.status p'.status ≡ true
      → Lawful s (put_pipeline p' s)
  moved i p p' s e h m = put_pipeline-Lawful i p p' s e (h, move stay m)

  same_ok : (p p' : Pipeline) → ◌≡◌ {A = Result LifecycleError Pipeline} (ok p) (ok p') → p ≡ p'
  same_ok p p' h = cc

  abbrev Kept : Pipeline → Pipeline → Type 0
  Kept p p' = (p'.id ≡ p.id) × (p'.status ≡ p.status)

  with_types :
      (r : Result LifecycleError (List ContentType)) (p p' : Pipeline) (s : Db)
      → ((lift r >>= λ cts. pure (record p { content_types = cts })) s).0 ≡ ok p'
      → Kept p p'
  with_types (ok cts) p p' s h =
      let e = same_ok _ p' h in (ap (λ q. q.id) (sym e), ap (λ q. q.status) (sym e))
  with_types (err x) p p' s h = cc

  retype-Kept :
      (asked : List String) (p p' : Pipeline) (s : Db) → (retype asked p s).0 ≡ ok p' → Kept p p'
  retype-Kept [] p p' s h =
      let e = same_ok _ p' h in (ap (λ q. q.id) (sym e), ap (λ q. q.status) (sym e))
  retype-Kept (t ∷ ts) p p' s h = with_types (validate_content_types (t ∷ ts)) p p' s h

  retype-state : (asked : List String) (p : Pipeline) (s : Db) → (retype asked p s).1 ≡ s
  retype-state [] p s = refl
  retype-state (t ∷ ts) p s = typed (validate_content_types (t ∷ ts))
    where
      typed :
          (r : Result LifecycleError (List ContentType))
          → ((lift r >>= λ cts. pure (record p { content_types = cts })) s).1 ≡ s
      typed (ok cts) = refl
      typed (err x) = refl

  stored : String → Option Text → Pipeline → Action Pipeline
  stored approver instructions p = do
    modify (put_pipeline (approved_pipeline now approver instructions p))
    pure (approved_pipeline now approver instructions p)

  finish : List String → String → Option Text → Pipeline → Action Pipeline
  unfolding stored
  finish asked approver instructions p = retype asked p >>= stored approver instructions

  finish-Lawful :
      (asked : List String) (by : String) (instructions : Option Text) (i : ℕ) (p : Pipeline)
      (s : Db)
      → find i s.pipelines ≡ some p
      → Lawful s (finish asked by instructions p s).1
  unfolding finish stored
  finish-Lawful asked by instructions i p s e =
      Along-bind_at Lawful-Preorder (retype asked p) (stored by instructions) s
        (rw (retype-state asked p s) (Lawful-Preorder.same s))
        λ p' h. rw (retype-state asked p s) (
          put_pipeline-Lawful i p _ s e
            ((retype-Kept asked p p' s h).0, rw ((retype-Kept asked p p' s h).1) stay))

  pub approve-Lawful :
      (i : ℕ) (by : String) (asked : List String) (instructions : Option Text)
      → Along Lawful (approve now i by asked instructions)
  unfolding approve finish stored
  approve-Lawful i by asked instructions s = elim (Bool-cases (is_non_human by)) [
    | inl b ↦ rw b (Lawful-Preorder.same s)
    | inr b ↦ elim (Option-cases (find i s.pipelines)) [
      | inl e ↦ rw (b, e) (Lawful-Preorder.same s)
      | inr (p, e) ↦ elim (Bool-cases (pipeline_may p.status PipelineStatus.approved)) [
        | inl m ↦
            rw (b, e, m)
              (Lawful-Preorder.then s (put_pipeline (with_approval now by p) s)
                (finish asked by instructions (with_approval now by p)
                  (put_pipeline (with_approval now by p) s)).1
                (moved i p _ s e refl m)
                (finish-Lawful asked by instructions i (with_approval now by p) _ (
                  find-put_key i (with_approval now by p) p s.pipelines e
                    (key-find i p s.pipelines e))))
        | inr m ↦ rw (b, e, m) (Lawful-Preorder.same s)
      ]
    ]
  ]

  pub decline-Lawful :
      (i : ℕ) (actor : String) (reason : Option String) → Along Lawful (decline now i actor reason)
  unfolding decline
  decline-Lawful i actor reason s = elim (Bool-cases (is_non_human actor)) [
    | inl b ↦ rw b (Lawful-Preorder.same s)
    | inr b ↦ elim (Option-cases (find i s.pipelines)) [
      | inl e ↦ rw (b, e) (Lawful-Preorder.same s)
      | inr (p, e) ↦ elim (Bool-cases (pipeline_may p.status PipelineStatus.declined)) [
        | inl m ↦ rw (b, e, m) (moved i p _ s e refl m)
        | inr m ↦ rw (b, e, m) (Lawful-Preorder.same s)
      ]
    ]
  ]

  cancelled : (i : ℕ) (j : Job) → SameJob j (cancel_job now i j)
  unfolding job_may
  cancelled i j = elim (Bool-cases (is_job_of i j && not (is_settled j.status))) [
    | inl b ↦ rw b (refl, may_cancel j.status (and_right _ _ b))
    | inr b ↦ rw b (refl, stay)
  ]
    where
      and_right : (a b : Bool) → a && b ≡ true → b ≡ true
      and_right true b h = h
      and_right false b h = cc

      may_cancel :
          (st : JobStatus) → not (is_settled st) ≡ true → Reach job_may st JobStatus.cancelled
      may_cancel JobStatus.queued h = move stay refl
      may_cancel JobStatus.running h = move stay refl
      may_cancel JobStatus.preview_ready h = move stay refl
      may_cancel JobStatus.approved h = move stay refl
      may_cancel JobStatus.published h = cc
      may_cancel JobStatus.rejected h = move stay refl
      may_cancel JobStatus.failed h = move stay refl
      may_cancel JobStatus.cancelled h = stay

  pub close-Lawful :
      (i : ℕ) (actor : String) (reason : Option String) → Along Lawful (close now i actor reason)
  unfolding close
  close-Lawful i actor reason s = elim (Bool-cases (is_non_human actor)) [
    | inl b ↦ rw b (Lawful-Preorder.same s)
    | inr b ↦ elim (Option-cases (find i s.pipelines)) [
      | inl e ↦ rw (b, e) (Lawful-Preorder.same s)
      | inr (p, e) ↦ elim (Bool-cases (pipeline_may p.status PipelineStatus.closed)) [
        | inl m ↦
            rw (b, e, m)
              ((moved i p _ s e refl m).0, (map_jobs-Lawful (cancel_job now i) s (cancelled i)).1)
        | inr m ↦ rw (b, e, m) (Lawful-Preorder.same s)
      ]
    ]
  ]

  pub set_status-Lawful :
      (i : ℕ) (status : PipelineStatus) (actor : String) (detail : Option String)
      → Along Lawful (set_status now i status actor detail)
  unfolding set_status
  set_status-Lawful i status actor detail s = elim (Option-cases (find i s.pipelines)) [
    | inl e ↦ rw e (Lawful-Preorder.same s)
    | inr (p, e) ↦ elim (Bool-cases (pipeline_may p.status status)) [
      | inl m ↦ rw (e, m) (moved i p _ s e refl m)
      | inr m ↦ rw (e, m) (Lawful-Preorder.same s)
    ]
  ]

  closed_if-Kept : (new : PipelineStatus) (p : Pipeline) → Kept p (closed_if now new p)
  closed_if-Kept PipelineStatus.closed p = (refl, refl)
  closed_if-Kept PipelineStatus.pending_approval p = (refl, refl)
  closed_if-Kept PipelineStatus.approved p = (refl, refl)
  closed_if-Kept PipelineStatus.generating p = (refl, refl)
  closed_if-Kept PipelineStatus.previews_ready p = (refl, refl)
  closed_if-Kept PipelineStatus.published p = (refl, refl)
  closed_if-Kept PipelineStatus.partially_published p = (refl, refl)
  closed_if-Kept PipelineStatus.declined p = (refl, refl)
  closed_if-Kept PipelineStatus.failed p = (refl, refl)
  closed_if-Kept PipelineStatus.expired p = (refl, refl)

  settle-Lawful :
      (i : ℕ) (new : PipelineStatus) (p : Pipeline) (s : Db)
      → find i s.pipelines ≡ some p
      → Lawful s (settle now new p s).1
  settle-Lawful i new p s e =
      elim (Bool-cases (same_pipeline new p.status || not (pipeline_may p.status new))) [
        | inl b ↦ rw b (Lawful-Preorder.same s)
        | inr b ↦ rw b (
            put_pipeline-Lawful i p _ s e (
              (closed_if-Kept new (record p { status = new })).0,
              rw ((closed_if-Kept new (record p { status = new })).1)
                  (move stay (true_if _ (or_right _ _ b))),
            ))
      ]
    where
      or_right : (a b : Bool) → a || b ≡ false → b ≡ false
      or_right true b h = cc
      or_right false b h = h

  abbrev job_statuses : ℕ → Db → List JobStatus
  job_statuses i s = map (λ j. j.status) (jobs_of i s)

  pub refresh_rollup-Lawful : (i : ℕ) → Along Lawful (refresh_rollup now i)
  unfolding refresh_rollup
  refresh_rollup-Lawful i s = elim (Option-cases (find i s.pipelines)) [
    | inl e ↦ rw e (Lawful-Preorder.same s)
    | inr (p, e) ↦ rw e (
        Along-bind_at Lawful-Preorder (rollup_of now (job_statuses i s) p) (λ new. pure (some new))
          s (rolled_up p e (job_statuses i s))
          λ a h. Lawful-Preorder.same (rollup_of now (job_statuses i s) p s).1)
  ]
    where
      rolled_up :
          (p : Pipeline)
          → find i s.pipelines ≡ some p
          → (sts : List JobStatus) → Lawful s (rollup_of now sts p s).1
      rolled_up p e [] = Lawful-Preorder.same s
      rolled_up p e (st ∷ sts) = elim (Bool-cases (is_terminal_pipeline p.status)) [
        | inl b ↦ rw b (Lawful-Preorder.same s)
        | inr b ↦ rw b (settle-Lawful i (rollup_status (st ∷ sts) p.status) p s e)
      ]
