-- ===== src/Engine/Waiting.antt =====
-- Which jobs still wait in the queue: none that had left it comes back by the work of a sweep.
use mathlib.Core.Path.{subst}
use adam_abundance.Base.{
  ℕ, zero, suc, ◌≤◌, ◌≡◌, refl, sym, ◌∙◌, Bool, false, not, ◌||◌, Option, none, some, List, [], ◌∷◌,
  map, keep, length, All, arith, inl, inr, Bool-cases, Option-cases, pure,
}
use adam_abundance.Base.Along.{Preorder, Along, Along-bind}
use adam_abundance.Base.Table.{find, All-find, All-put}
use adam_abundance.Trends.Lifecycle.{
  JobStatus, PipelineStatus, same_job, job_may, is_terminal_pipeline, same_pipeline, pipeline_may,
}
use adam_abundance.Trends.Rows.{Pipeline, Job, Db, pipeline_keyed, job_keyed, put_job}
use adam_abundance.Trends.PipelineRepo.{is_job_of}
use adam_abundance.Trends.Rollup.{rollup_status, settle, rollup_of, rollup_found, refresh_rollup}
use adam_abundance.Trends.JobRepo.{Field, claim, is_claimable, marked, mark_job}
use adam_abundance.Trends.JobLawful.{claim-hit, claim-miss, set_fields-Kept}
use adam_abundance.Engine.WorkerRules.{Rules}

module _ (now : ℕ) where
  settle-jobs :
      (new : PipelineStatus) (p : Pipeline) (s : Db) → (settle now new p s).1.jobs ≡ s.jobs
  settle-jobs new p s =
      elim (Bool-cases (same_pipeline new p.status || not (pipeline_may p.status new))) [
        | inl b ↦ rw b refl
        | inr b ↦ rw b refl
      ]

  rollup_of-jobs :
      (sts : List JobStatus) (p : Pipeline) (s : Db) → (rollup_of now sts p s).1.jobs ≡ s.jobs
  rollup_of-jobs [] p s = refl
  rollup_of-jobs (st ∷ sts) p s = elim (Bool-cases (is_terminal_pipeline p.status)) [
    | inl b ↦ rw b refl
    | inr b ↦ rw b (settle-jobs (rollup_status (st ∷ sts) p.status) p s)
  ]

  abbrev pub SameJobs : Db → Db → Type 0
  SameJobs s s' = s'.jobs ≡ s.jobs

  pub SameJobs-Preorder : Preorder SameJobs
  SameJobs-Preorder = record { same = λ s. refl; then = λ a b c h k. k ∙ h }

  rollup_found-jobs :
      (i : ℕ) (p : Option Pipeline) (s : Db) → (rollup_found now i p s).1.jobs ≡ s.jobs
  rollup_found-jobs i none s = refl
  rollup_found-jobs i (some p) s =
      let sts = map (λ j. j.status) (keep (λ j. is_job_of i j) s.jobs) in
      Along-bind SameJobs-Preorder (rollup_of now sts p) (λ new. pure (some new))
        (rollup_of-jobs sts p) (λ new u. refl) s

  -- A rollup changes no job.
  pub refresh_rollup-jobs : (i : ℕ) (s : Db) → (refresh_rollup now i s).1.jobs ≡ s.jobs
  unfolding refresh_rollup
  refresh_rollup-jobs i s = rollup_found-jobs i (find i s.pipelines) s

module _ (p : Job → Bool) where
  none_of : (js : List Job) → length (keep p js) ≤ 0 → All (λ j. p j ≡ false) js
  none_of [] h = tt
  none_of (j ∷ js) h = elim (Bool-cases (p j)) [
    | inl b ↦ absurd (no_fewer (rw b at h))
    | inr b ↦ (b, none_of js (rw b at h))
  ]
    where
      no_fewer : suc (length (keep p js)) ≤ 0 → ⊥
      no_fewer k = omega arith

  -- A claim of at least as many rows as are selected leaves none that is.
  pub claim-drains :
      (f : Job → Job) (n : ℕ) (js : List Job)
      → ((j : Job) → p (f j) ≡ false)
      → length (keep p js) ≤ n
      → All (λ j. p j ≡ false) (claim p f n js).1
  claim-drains f zero js h k = none_of js k
  claim-drains f (suc n) [] h k = tt
  claim-drains f (suc n) (j ∷ js) h k = elim (Bool-cases (p j)) [
    | inl b ↦
        subst (λ c. All (λ j. p j ≡ false) c.1) (sym (claim-hit p f n j js b))
          (h j, claim-drains f n js h (fewer (rw b at k)))
    | inr b ↦
        subst (λ c. All (λ j. p j ≡ false) c.1) (sym (claim-miss p f n j js b))
          (b, claim-drains f (suc n) js h (rw b at k))
  ]
    where
      fewer : suc (length (keep p js)) ≤ suc n → length (keep p js) ≤ n
      fewer e = omega arith

  -- A claim whose rewriting keeps a predicate.
  pub claim-All :
      (P : Job → Type 0) (f : Job → Job) (n : ℕ) (js : List Job)
      → ((j : Job) → P j → P (f j))
      → All P js
      → All P (claim p f n js).1
  claim-All P f zero js h a = a
  claim-All P f (suc n) [] h a = tt
  claim-All P f (suc n) (j ∷ js) h a = elim (Bool-cases (p j)) [
    | inl b ↦
        subst (λ c. All P c.1) (sym (claim-hit p f n j js b)) (h j a.0, claim-All P f n js h a.1)
    | inr b ↦
        subst (λ c. All P c.1) (sym (claim-miss p f n j js b)) (a.0, claim-All P f (suc n) js h a.1)
  ]

module _ (at : ℕ) (locked : ℕ → Bool) where
  abbrev pub NotWaiting : Job → Type 0
  NotWaiting j = is_claimable at locked j ≡ false

  -- No row that a worker might claim is queued.
  abbrev pub NoneWaiting : Db → Type 0
  NoneWaiting s = All NotWaiting s.jobs

  abbrev pub Drained : Db → Db → Type 0
  Drained s s' = NoneWaiting s → NoneWaiting s'

  pub Drained-Preorder : Preorder Drained
  Drained-Preorder = record { same = λ s h. h; then = λ a b c h k x. k (h x) }

  marked-NotWaiting :
      (now : ℕ) (st : JobStatus) (fields : List Field) (j : Job)
      → same_job st JobStatus.queued ≡ false
      → NotWaiting (marked now st fields j)
  marked-NotWaiting now st fields j h =
      rw (set_fields-Kept fields (record j { status = st; updated_at = now })).1 (rw h refl)

  mark_job-Drained :
      (now i : ℕ) (st : JobStatus) (fields : List Field)
      → same_job st JobStatus.queued ≡ false
      → Along Drained (mark_job now i st fields)
  unfolding mark_job
  mark_job-Drained now i st fields h s a = elim (Option-cases (find i s.jobs)) [
    | inl e ↦ rw e a
    | inr (j, e) ↦ elim (Bool-cases (job_may j.status st)) [
      | inl m ↦
          rw (e, m)
            (All-put NotWaiting _ (marked now st fields j) s.jobs
              (marked-NotWaiting now st fields j h) a)
      | inr m ↦ rw (e, m) a
    ]
  ]

  pub refresh_rollup-Drained : (now i : ℕ) → Along Drained (refresh_rollup now i)
  refresh_rollup-Drained now i s a =
      subst (λ js. All NotWaiting js) (sym (refresh_rollup-jobs now i s)) a

  put_job-Drained :
      (j j' : Job) (s : Db)
      → find j.id s.jobs ≡ some j
      → j'.id ≡ j.id
      → j'.status ≡ j.status
      → Drained s (put_job j' s)
  put_job-Drained j j' s e h k a =
      All-put NotWaiting _ j' s.jobs (rw (h, k) (All-find NotWaiting j.id j s.jobs a e)) a

  pub Drained-Rules : Rules Drained
  Drained-Rules = record {
    order = Drained-Preorder;
    marks = mark_job-Drained;
    rolls = refresh_rollup-Drained;
    touches = put_job-Drained;
  }
