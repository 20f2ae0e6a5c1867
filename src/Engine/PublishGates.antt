-- ===== src/Engine/PublishGates.antt =====
-- What has been asked and what has been written where `publish_job` returns.
use mathlib.Core.Path.{subst}
use adam_abundance.Base.{
  ℕ, ◌≡◌, refl, sym, ap, ◌∙◌, String, true, false, not, Option, none, some, List, inl, inr,
  Bool-cases, Option-cases, Result, ok, err, pure, gets, ◌>>=◌, ◌>>◌, bind-inv, bind-ok,
}
use adam_abundance.Base.Along.{Preorder, Keeps, Keeps-bind, Keeps-gets, Keeps-pure}
use adam_abundance.Base.Table.{find, put}
use adam_abundance.Memory.Store.{write}
use adam_abundance.Trends.Lifecycle.{
  LifecycleError, JobStatus, TrendStatus, same_job, job_may, trend_may,
}
use adam_abundance.Trends.Rows.{Pipeline, Job, Db, job_keyed, pipeline_keyed, trend_keyed}
use adam_abundance.Trends.TrendRepo.{set_status as set_trend_status}
use adam_abundance.Trends.Rollup.{refresh_rollup}
use adam_abundance.Trends.JobRepo.{Field, marked, mark_job}
use adam_abundance.Engine.Session.{Session, EngineError, Act, on_result, on_db, on_memory}
use adam_abundance.Engine.World.{World}
use adam_abundance.Engine.Publish.{
  hand_off, published_entry, complete_trend, is_published, close_out, publish_fields,
  publish_passed,
}
use adam_abundance.Engine.Lawful.{Within, Within-Preorder, Keeps-on_db, Keeps-on_memory}
use adam_abundance.Engine.WorkerRules.{roll_up_cost-db}
use adam_abundance.Engine.HandOff.{hand_off-Keeps}
use adam_abundance.Engine.Waiting.{SameJobs, SameJobs-Preorder, refresh_rollup-jobs}

abbrev Same : Session → Session → Type 0
Same s s' = s' ≡ s

Same-Preorder : Preorder Same
Same-Preorder = record { same = λ s. refl; then = λ a b c h k. k ∙ h }

on_db-inv :
    {A : Type 0} (s : Session) (r : Result LifecycleError A) (d : Db) (a : A)
    → (on_result s r d).0 ≡ ok a
    → (r ≡ ok a) × ((on_result s r d).1 ≡ record s { db = d })
on_db-inv s (ok b) d a h = (cc, refl)
on_db-inv s (err e) d a h = cc

-- A job that was marked: it was there, might be moved, and only its row has changed.
mark_job-inv :
    (now i : ℕ) (st : JobStatus) (fields : List Field) (d : Db) (j' : Job)
    → (mark_job now i st fields d).0 ≡ ok j'
    → (j : Job) × (find i d.jobs ≡ some j)
      × (j' ≡ marked now st fields j)
      × ((mark_job now i st fields d).1.jobs ≡ put j'.id j' d.jobs)
unfolding mark_job
mark_job-inv now i st fields d j' h = elim (Option-cases (find i d.jobs)) [
  | inl e ↦ absurd (refused (rw e at h))
  | inr (j, e) ↦ elim (Bool-cases (job_may j.status st)) [
    | inl m ↦ written j e m (rw (e, m) at h)
    | inr m ↦ absurd (refused (rw (e, m) at h))
  ]
]
  where
    refused : {x : LifecycleError} → ◌≡◌ {A = Result LifecycleError Job} (err x) (ok j') → ⊥
    refused k = cc

    same_job_row : (a : Job) → ◌≡◌ {A = Result LifecycleError Job} (ok a) (ok j') → a ≡ j'
    same_job_row a k = cc

    written :
        (j : Job)
        → find i d.jobs ≡ some j
        → job_may j.status st ≡ true
        → ◌≡◌ {A = Result LifecycleError Job} (ok (marked now st fields j)) (ok j')
        → (j : Job) × (find i d.jobs ≡ some j)
          × (j' ≡ marked now st fields j)
          × ((mark_job now i st fields d).1.jobs ≡ put j'.id j' d.jobs)
    written j e m k =
        let eq = same_job_row (marked now st fields j) k in
        (j, e, sym eq, rw (e, m) (ap (λ x. put x.id x d.jobs) eq))

set_trend_status-jobs :
    (now i : ℕ) (st : TrendStatus) (d : Db) → (set_trend_status now i st d).1.jobs ≡ d.jobs
unfolding set_trend_status
set_trend_status-jobs now i st d = elim (Option-cases (find i d.trends)) [
  | inl e ↦ rw e refl
  | inr (t, e) ↦ elim (Bool-cases (trend_may t.status st)) [
    | inl m ↦ rw (e, m) refl
    | inr m ↦ rw (e, m) refl
  ]
]

same_row : (a b : Job) → ◌≡◌ {A = Result EngineError Job} (ok a) (ok b) → a ≡ b
same_row a b h = cc

pub approved_only :
    (st : JobStatus) → not (same_job st JobStatus.approved) ≡ false → st ≡ JobStatus.approved
approved_only JobStatus.queued h = cc
approved_only JobStatus.running h = cc
approved_only JobStatus.preview_ready h = cc
approved_only JobStatus.approved h = refl
approved_only JobStatus.published h = cc
approved_only JobStatus.rejected h = cc
approved_only JobStatus.failed h = cc
approved_only JobStatus.cancelled h = cc

module _ (w : World) where
  hand_off-state : (p : Pipeline) (j : Job) (s : Session) → (hand_off w p j s).1 ≡ s
  hand_off-state p j = (hand_off-Keeps Same-Preorder w p j).along

  abbrev J : Db → Db → Type 0
  J = SameJobs w.now

  P : Preorder (Within J)
  P = Within-Preorder (SameJobs-Preorder w.now)

  complete_trend-J : (t : Option ℕ) → Keeps (Within J) (complete_trend w t)
  complete_trend-J none = Keeps-pure P tt
  complete_trend-J (some t) =
      Keeps-on_db J (set_trend_status w.now t TrendStatus.completed)
        (set_trend_status-jobs w.now t TrendStatus.completed)

  close_out-J : (p : Option Pipeline) → Keeps (Within J) (close_out w p)
  close_out-J none = Keeps-pure P tt
  close_out-J (some p) = elim (Bool-cases (is_published p.status)) [
    | inl b ↦ rw b (
        Keeps-bind P (complete_trend-J p.trend_id)
          λ _. record { along = λ s. ap (λ d. d.jobs) (roll_up_cost-db w p.id s) })
    | inr b ↦ rw b (Keeps-pure P tt)
  ]

  -- What follows the mark.
  after_mark : Pipeline → String → String → Job → Act Job
  after_mark p actor result j' = do
    on_memory (write w.ttls w.now false (published_entry w p j' actor result))
    on_db (refresh_rollup w.now p.id)
    now_p ← gets (λ s. find p.id s.db.pipelines)
    close_out w now_p
    pure j'

  after_mark-J :
      (p : Pipeline) (actor result : String) (j' : Job)
      → Keeps (Within J) (after_mark p actor result j')
  unfolding after_mark
  after_mark-J p actor result j' =
      Keeps-bind P
        (Keeps-on_memory J (SameJobs-Preorder w.now)
          (write w.ttls w.now false (published_entry w p j' actor result)))
        λ _.
          Keeps-bind P (Keeps-on_db J (refresh_rollup w.now p.id) (refresh_rollup-jobs w.now p.id))
            λ _.
              Keeps-bind P (Keeps-gets P (λ s. find p.id s.db.pipelines))
                λ (p' : Option Pipeline). Keeps-bind P (close_out-J p') λ _. Keeps-pure P j'

  after_mark-row :
      (p : Pipeline) (actor result : String) (j' a : Job) (s : Session)
      → (after_mark p actor result j' s).0 ≡ ok a
      → j' ≡ a
  unfolding after_mark
  after_mark-row p actor result j' a s h =
      let m1 = on_memory (write w.ttls w.now false (published_entry w p j' actor result)) in
      let (x1, e1, h1) = bind-inv m1 _ s a h in
      let (x2, e2, h2) = bind-inv (on_db (refresh_rollup w.now p.id)) _ (m1 s).1 a h1 in
      let u = (on_db (refresh_rollup w.now p.id) (m1 s).1).1 in
      let (x3, e3, h3) = bind-inv (close_out w (find p.id u.db.pipelines)) (λ _. pure j') u a h2 in
      same_row j' a h3

  abbrev mark_published : Job → String → String → Act Job
  mark_published j actor result =
      on_db (mark_job w.now j.id JobStatus.published (publish_fields w actor result))

  publish_passed-split :
      (p : Pipeline) (j : Job) (actor result : String) (j1 : Job) (s : Session)
      → (hand_off w p j s).0 ≡ ok result
      → (mark_published j actor result s).0 ≡ ok j1
      → publish_passed w p j actor s
        ≡ after_mark p actor result j1 (mark_published j actor result s).1
  unfolding publish_passed after_mark
  publish_passed-split p j actor result j1 s h k =
      bind-ok (hand_off w p j) _ s result h
      ∙ ap (λ z. (mark_published j actor result >>= after_mark p actor result) z)
          (hand_off-state p j s)
      ∙ bind-ok (mark_published j actor result) (after_mark p actor result) s j1 k

  rest_of : Pipeline → Job → String → String → Act Job
  rest_of p j actor result = mark_published j actor result >>= after_mark p actor result

  split_at :
      (p : Pipeline) (j : Job) (actor : String) (s : Session)
      → publish_passed w p j actor s ≡ (hand_off w p j >>= rest_of p j actor) s
  unfolding publish_passed rest_of after_mark
  split_at p j actor s = refl

  -- The job that is returned, and what has become of the jobs.
  abbrev pub Published : Job → String → Job → Session → Session → Type 0
  Published j actor j' s s' =
      (result : String) × (j0 : Job) × (find j.id s.db.jobs ≡ some j0)
      × (j' ≡ marked w.now JobStatus.published (publish_fields w actor result) j0)
      × (s'.db.jobs ≡ put j'.id j' s.db.jobs)

  pub publish_passed-Published :
      (p : Pipeline) (j : Job) (actor : String) (j' : Job) (s : Session)
      → (publish_passed w p j actor s).0 ≡ ok j'
      → Published j actor j' s (publish_passed w p j actor s).1
  unfolding rest_of
  publish_passed-Published p j actor j' s h =
      let (result, e, h1) =
        bind-inv (hand_off w p j) (rest_of p j actor) s j'
          (sym (ap (λ x. x.0) (split_at p j actor s)) ∙ h) in
      let h1' = subst (λ z. (rest_of p j actor result z).0 ≡ ok j') (hand_off-state p j s) h1 in
      let m = mark_published j actor result in
      let (j1, e1, h2) = bind-inv m (after_mark p actor result) s j' h1' in
      let d = mark_job w.now j.id JobStatus.published (publish_fields w actor result) s.db in
      let (e2, state) = on_db-inv s d.0 d.1 j1 e1 in
      let (j0, found, row, jobs) =
        mark_job-inv w.now j.id JobStatus.published (publish_fields w actor result) s.db j1 e2 in
      let same = after_mark-row p actor result j1 j' (m s).1 h2 in
      (
        result,
        j0,
        found,
        sym same ∙ row,
        ap (λ x. x.1.db.jobs) (publish_passed-split p j actor result j1 s e e1)
            ∙ (after_mark-J p actor result j1).along (m s).1
            ∙ ap (λ x. x.db.jobs) state
            ∙ jobs
            ∙ ap (λ x. put x.id x s.db.jobs) same,
      )
