-- ===== src/Trends/Rollup/Stuck.antt =====
-- Jobs for which `refresh_rollup` (trends/repo.py) has no rule.
use adam_abundance.Base.{
  ℕ, ◌≡◌, refl, Bool, true, false, ◌&&◌, some, List, [], ◌∷◌, map, any, all, inl, inr, Bool-cases,
  Result,
}
use adam_abundance.Base.Table.{find}
use adam_abundance.Trends.Lifecycle.{
  PipelineStatus, JobStatus, same_job, same_pipeline, is_terminal_pipeline,
}
use adam_abundance.Trends.Rows.{Pipeline, Db, pipeline_keyed}
use adam_abundance.Trends.PipelineRepo.{jobs_of}
use adam_abundance.Trends.Rollup.{
  refresh_rollup, rollup_of, rollup_status, is_live, is_over, is_shown,
}

-- Failed or rejected.
abbrev pub is_lost : JobStatus → Bool
is_lost JobStatus.failed = true
is_lost JobStatus.rejected = true
is_lost _ = false

abbrev pub is_failed : JobStatus → Bool
is_failed st = same_job st JobStatus.failed

abbrev pub is_rejected : JobStatus → Bool
is_rejected st = same_job st JobStatus.rejected

none_live : (sts : List JobStatus) → all is_lost sts ≡ true → any is_live sts ≡ false
none_live [] h = refl
none_live (JobStatus.failed ∷ sts) h = none_live sts h
none_live (JobStatus.rejected ∷ sts) h = none_live sts h
none_live (JobStatus.queued ∷ sts) h = cc
none_live (JobStatus.running ∷ sts) h = cc
none_live (JobStatus.preview_ready ∷ sts) h = cc
none_live (JobStatus.approved ∷ sts) h = cc
none_live (JobStatus.published ∷ sts) h = cc
none_live (JobStatus.cancelled ∷ sts) h = cc

none_shown : (sts : List JobStatus) → all is_lost sts ≡ true → any is_shown sts ≡ false
none_shown [] h = refl
none_shown (JobStatus.failed ∷ sts) h = none_shown sts h
none_shown (JobStatus.rejected ∷ sts) h = none_shown sts h
none_shown (JobStatus.queued ∷ sts) h = cc
none_shown (JobStatus.running ∷ sts) h = cc
none_shown (JobStatus.preview_ready ∷ sts) h = cc
none_shown (JobStatus.approved ∷ sts) h = cc
none_shown (JobStatus.published ∷ sts) h = cc
none_shown (JobStatus.cancelled ∷ sts) h = cc

-- A job with one property refutes a test that it fails.
not_all :
    (p q : JobStatus → Bool) (sts : List JobStatus)
    → ((st : JobStatus) → p st ≡ true → q st ≡ false)
    → any p sts ≡ true
    → all q sts ≡ false
not_all p q [] k h = cc
not_all p q (st ∷ sts) k h = elim (Bool-cases (p st)) [
  | inl b ↦ rw (k st b) refl
  | inr b ↦ rest (q st) (not_all p q sts k (rw b at h))
]
  where
    rest : (b : Bool) {c : Bool} → c ≡ false → b && c ≡ false
    rest true e = e
    rest false e = refl

failed_not_over : (st : JobStatus) → is_failed st ≡ true → is_over st ≡ false
failed_not_over JobStatus.failed h = refl
failed_not_over JobStatus.rejected h = cc
failed_not_over JobStatus.queued h = cc
failed_not_over JobStatus.running h = cc
failed_not_over JobStatus.preview_ready h = cc
failed_not_over JobStatus.approved h = cc
failed_not_over JobStatus.published h = cc
failed_not_over JobStatus.cancelled h = cc

rejected_not_failed : (st : JobStatus) → is_rejected st ≡ true → is_failed st ≡ false
rejected_not_failed JobStatus.rejected h = refl
rejected_not_failed JobStatus.failed h = cc
rejected_not_failed JobStatus.queued h = cc
rejected_not_failed JobStatus.running h = cc
rejected_not_failed JobStatus.preview_ready h = cc
rejected_not_failed JobStatus.approved h = cc
rejected_not_failed JobStatus.published h = cc
rejected_not_failed JobStatus.cancelled h = cc

rollup_status-stuck :
    (sts : List JobStatus) (old : PipelineStatus)
    → all is_lost sts ≡ true
    → any is_failed sts ≡ true
    → any is_rejected sts ≡ true
    → rollup_status sts old ≡ old
unfolding rollup_status
rollup_status-stuck sts old l f r =
    rw
      (
        none_live sts l,
        not_all is_failed is_over sts failed_not_over f,
        not_all is_rejected is_failed sts rejected_not_failed r,
        none_shown sts l,
      )
      refl

-- The statuses of a pipeline's jobs.
abbrev pub job_statuses : ℕ → Db → List JobStatus
job_statuses i s = map (λ j. j.status) (jobs_of i s)

rollup_of-stuck :
    (now : ℕ) (sts : List JobStatus) (p : Pipeline) (s : Db)
    → rollup_status sts p.status ≡ p.status
    → rollup_of now sts p s ≡ (Result.ok p.status, s)
rollup_of-stuck now [] p s h = refl
rollup_of-stuck now (st ∷ sts) p s h = elim (Bool-cases (is_terminal_pipeline p.status)) [
  | inl b ↦ rw b refl
  | inr b ↦ rw (b, h, same p.status) refl
]
  where
    same : (st : PipelineStatus) → same_pipeline st st ≡ true
    same PipelineStatus.pending_approval = refl
    same PipelineStatus.approved = refl
    same PipelineStatus.generating = refl
    same PipelineStatus.previews_ready = refl
    same PipelineStatus.published = refl
    same PipelineStatus.partially_published = refl
    same PipelineStatus.declined = refl
    same PipelineStatus.closed = refl
    same PipelineStatus.failed = refl
    same PipelineStatus.expired = refl

-- A pipeline whose jobs have all failed or been rejected, with at least one of each, keeps its
-- status under `refresh_rollup`: no rule applies, and nothing is changed.
refresh_rollup-stuck :
    (now i : ℕ) (p : Pipeline) (s : Db)
    → find i s.pipelines ≡ some p
    → all is_lost (job_statuses i s) ≡ true
    → any is_failed (job_statuses i s) ≡ true
    → any is_rejected (job_statuses i s) ≡ true
    → refresh_rollup now i s ≡ (Result.ok (some p.status), s)
unfolding refresh_rollup
refresh_rollup-stuck now i p s e l f r =
    rw
      (
        e,
        rollup_of-stuck now (job_statuses i s) p s
            (rollup_status-stuck (job_statuses i s) p.status l f r),
      )
      refl
