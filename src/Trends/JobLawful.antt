-- ===== src/Trends/JobLawful.antt =====
-- The job half of `PipelineRepo` moves statuses along the tables only.
use mathlib.Core.Path.{subst}
use adam_abundance.Base.{
  ℕ, zero, suc, ◌≡◌, refl, sym, String, Bool, true, false, ◌&&◌, Option, List, [], ◌∷◌, map, keep,
  inl, inr, Bool-cases, Option-cases, pure, ◌>>◌, length,
}
use adam_abundance.Base.Along.{Along, Along-bind}
use adam_abundance.Base.Table.{find}
use adam_abundance.Trends.Lifecycle.{JobStatus, job_may, same_job}
use adam_abundance.Trends.Reach.{Reach, stay, move, Evolves, Evolves-append}
use adam_abundance.Trends.Rows.{Text, Job, Db, pipeline_keyed, job_keyed, ContentType}
use adam_abundance.Trends.JobRepo.{
  Field, set_error, set_external_ref, set_preview, set_cost, set_result_ref, set_reviewed,
  set_field, set_fields, claim, add_job, start_job, touch_job, is_claimable, claim_queued, is_stuck,
  claim_stuck_running, is_dead, rollup_all, reap_if, reap_dead_running, marked, mark_job,
  distinct_ids,
}
use adam_abundance.Trends.Rollup.{refresh_rollup}
use adam_abundance.Trends.Lawful.{
  SameJob, SameJob-Preorder, Lawful, Lawful-Preorder, put_job-Lawful, map_jobs-Lawful, same_jobs,
  same_pipelines,
}
use adam_abundance.Trends.PipelineLawful.{refresh_rollup-Lawful}

-- A row that is selected is the next one claimed; one that is not is passed over.
pub claim-hit :
    (p : Job → Bool) (f : Job → Job) (n : ℕ) (j : Job) (js : List Job)
    → p j ≡ true
    → claim p f (suc n) (j ∷ js) ≡ (j.id ∷ (claim p f n js).0, f j ∷ (claim p f n js).1)
claim-hit p f n j js b = rw (claim, b) refl

pub claim-miss :
    (p : Job → Bool) (f : Job → Job) (n : ℕ) (j : Job) (js : List Job)
    → p j ≡ false
    → claim p f (suc n) (j ∷ js) ≡ ((claim p f (suc n) js).0, j ∷ (claim p f (suc n) js).1)
claim-miss p f n j js b = rw (claim, b) refl

-- What a claim selects may move, so the rows of a claim do.
claim-Evolves :
    (p : Job → Bool) (f : Job → Job) (n : ℕ) (js : List Job)
    → ((j : Job) → p j ≡ true → SameJob j (f j))
    → Evolves SameJob js (claim p f n js).1
claim-Evolves p f zero js h = same_jobs js
claim-Evolves p f (suc n) [] h = tt
claim-Evolves p f (suc n) (j ∷ js) h = elim (Bool-cases (p j)) [
  | inl b ↦
      subst (λ c. Evolves SameJob (j ∷ js) c.1) (sym (claim-hit p f n j js b))
        (h j b, claim-Evolves p f n js h)
  | inr b ↦
      subst (λ c. Evolves SameJob (j ∷ js) c.1) (sym (claim-miss p f n j js b))
        (SameJob-Preorder.same j, claim-Evolves p f (suc n) js h)
]

may_start :
    (st : JobStatus) (r : Bool)
    → same_job st JobStatus.queued && r ≡ true
    → Reach job_may st JobStatus.running
unfolding job_may
may_start JobStatus.queued r h = move stay refl
may_start JobStatus.running r h = cc
may_start JobStatus.preview_ready r h = cc
may_start JobStatus.approved r h = cc
may_start JobStatus.published r h = cc
may_start JobStatus.rejected r h = cc
may_start JobStatus.failed r h = cc
may_start JobStatus.cancelled r h = cc

and_left : (a b : Bool) → a && b ≡ true → a ≡ true
and_left true b h = refl
and_left false b h = cc

may_fail :
    (st : JobStatus) (r : Bool)
    → same_job st JobStatus.running && r ≡ true
    → Reach job_may st JobStatus.failed
unfolding job_may
may_fail JobStatus.queued r h = cc
may_fail JobStatus.running r h = move stay refl
may_fail JobStatus.preview_ready r h = cc
may_fail JobStatus.approved r h = cc
may_fail JobStatus.published r h = cc
may_fail JobStatus.rejected r h = cc
may_fail JobStatus.failed r h = cc
may_fail JobStatus.cancelled r h = cc

pub set_fields-Kept :
    (fs : List Field) (j : Job)
    → ((set_fields fs j).id ≡ j.id) × ((set_fields fs j).status ≡ j.status)
set_fields-Kept [] j = (refl, refl)
set_fields-Kept (set_error e ∷ fs) j = set_fields-Kept fs (set_field (set_error e) j)
set_fields-Kept (set_external_ref r ∷ fs) j = set_fields-Kept fs (set_field (set_external_ref r) j)
set_fields-Kept (set_preview r m ∷ fs) j = set_fields-Kept fs (set_field (set_preview r m) j)
set_fields-Kept (set_cost c ∷ fs) j = set_fields-Kept fs (set_field (set_cost c) j)
set_fields-Kept (set_result_ref r ∷ fs) j = set_fields-Kept fs (set_field (set_result_ref r) j)
set_fields-Kept (set_reviewed b at ∷ fs) j = set_fields-Kept fs (set_field (set_reviewed b at) j)

module _ (now : ℕ) where
  pub add_job-Lawful :
      (i : ℕ) (ct : ContentType) (transport : String) (instructions : Option Text)
      (persona : Option ℕ)
      → Along Lawful (add_job now i ct transport instructions persona)
  unfolding add_job
  add_job-Lawful i ct transport instructions persona s =
      (same_pipelines s.pipelines, Evolves-append SameJob-Preorder s.jobs _)

  pub mark_job-Lawful :
      (i : ℕ) (status : JobStatus) (fields : List Field)
      → Along Lawful (mark_job now i status fields)
  unfolding mark_job
  mark_job-Lawful i status fields s = elim (Option-cases (find i s.jobs)) [
    | inl e ↦ rw e (Lawful-Preorder.same s)
    | inr (j, e) ↦ elim (Bool-cases (job_may j.status status)) [
      | inl m ↦
          rw (e, m)
            (put_job-Lawful i j (marked now status fields j) s e (
              (set_fields-Kept fields _).0,
              rw ((set_fields-Kept fields (record j { status = status; updated_at = now })).1)
                  (move stay m),
            ))
      | inr m ↦ rw (e, m) (Lawful-Preorder.same s)
    ]
  ]

  module _ (locked : ℕ → Bool) where
    pub claim_queued-Lawful : (limit : ℕ) (s : Db) → Lawful s (claim_queued now locked limit s).1
    unfolding claim_queued
    claim_queued-Lawful limit s = (
      same_pipelines s.pipelines,
      claim-Evolves (is_claimable now locked) (start_job now) limit s.jobs
          λ j h. (refl, may_start j.status _ h),
    )

    pub claim_stuck_running-Lawful :
        (cutoff limit : ℕ) (s : Db) → Lawful s (claim_stuck_running now locked cutoff limit s).1
    unfolding claim_stuck_running
    claim_stuck_running-Lawful cutoff limit s = (
      same_pipelines s.pipelines,
      claim-Evolves (is_stuck now locked cutoff) (touch_job now) limit s.jobs λ j h. (refl, stay),
    )

    reap_if-SameJob : (cutoff : ℕ) (j : Job) → SameJob j (reap_if now locked cutoff j)
    reap_if-SameJob cutoff j = elim (Bool-cases (is_dead now locked cutoff j)) [
      | inl b ↦ rw b (refl, may_fail j.status _ (and_left _ _ (and_left _ _ b)))
      | inr b ↦ rw b (SameJob-Preorder.same j)
    ]

    rollup_all-Lawful : (is : List ℕ) → Along Lawful (rollup_all now locked is)
    rollup_all-Lawful [] s = Lawful-Preorder.same s
    rollup_all-Lawful (i ∷ is) s =
        Along-bind Lawful-Preorder (refresh_rollup now i) (λ _. rollup_all now locked is)
          (refresh_rollup-Lawful now i) (λ _. rollup_all-Lawful is) s

    pub reap_dead_running-Lawful : (cutoff : ℕ) → Along Lawful (reap_dead_running now locked cutoff)
    unfolding reap_dead_running
    reap_dead_running-Lawful cutoff s =
        Lawful-Preorder.then s (reaped s)
          ((rollup_all now locked (touched s) >> pure (dead_count s)) (reaped s)).1
          (map_jobs-Lawful (reap_if now locked cutoff) s (reap_if-SameJob cutoff))
          (Along-bind Lawful-Preorder (rollup_all now locked (touched s)) (λ _. pure (dead_count s))
            (rollup_all-Lawful (touched s)) (λ _ u. Lawful-Preorder.same u) (reaped s))
      where
        dead_count : Db → ℕ
        dead_count u = length (keep (is_dead now locked cutoff) u.jobs)

        touched : Db → List ℕ
        touched u =
            distinct_ids (map (λ j. j.pipeline_id) (keep (is_dead now locked cutoff) u.jobs))

        reaped : Db → Db
        reaped u = record u { jobs = map (reap_if now locked cutoff) u.jobs }
