-- ===== src/Trends/Rollup.antt =====
-- `PipelineRepo.refresh_rollup` of trends/repo.py: the pipeline's status as its jobs call for it.
pub mod Stuck
use adam_abundance.Base.{
  ℕ, String, Bool, not, ◌||◌, Option, none, some, List, [], ◌∷◌, map, any, all, keep, length,
  count_if, ◌==◌, if◌then◌else◌, pure, gets, modify, str_eq, ◌>>=◌, ◌>>◌,
}
use adam_abundance.Base.Table.{find}
use adam_abundance.Trends.Lifecycle.{
  PipelineStatus, JobStatus, pipeline_may, same_job, same_pipeline, is_terminal_pipeline,
}
use adam_abundance.Trends.Rows.{Pipeline, nothing, Action, pipeline_keyed, put_pipeline}
use adam_abundance.Trends.PipelineRepo.{jobs_of, logged, status_name}

-- `text or default`
abbrev pub text_or : Option String → String → String
text_or none d = d
text_or (some t) d = if str_eq t "" then d else t

-- The status that the jobs' statuses call for; where none applies, the pipeline's own.
abbrev pub is_live : JobStatus → Bool
is_live st = same_job st JobStatus.queued || same_job st JobStatus.running

abbrev pub is_over : JobStatus → Bool
is_over st =
    same_job st JobStatus.published
    || same_job st JobStatus.rejected
    || same_job st JobStatus.cancelled

abbrev pub is_shown : JobStatus → Bool
is_shown st =
    same_job st JobStatus.preview_ready
    || same_job st JobStatus.approved
    || same_job st JobStatus.published

abbrev pub over_status : ℕ → ℕ → PipelineStatus
over_status published uncancelled =
    if published == 0
    then PipelineStatus.closed
    else if published == uncancelled
    then PipelineStatus.published
    else PipelineStatus.partially_published

unfoldable pub rollup_status : List JobStatus → PipelineStatus → PipelineStatus
rollup_status sts old =
    if any is_live sts
    then PipelineStatus.generating
    else if all is_over sts
    then over_status (count_if (λ st. same_job st JobStatus.published) sts)
        (length (keep (λ st. not (same_job st JobStatus.cancelled)) sts))
    else if all (λ st. same_job st JobStatus.failed) sts
    then PipelineStatus.failed
    else if any is_shown sts
    then PipelineStatus.previews_ready
    else old

module _ (now : ℕ) where
  abbrev pub closed_if : PipelineStatus → Pipeline → Pipeline
  closed_if PipelineStatus.closed p = record p {
    closed_at = some now;
    close_reason = some (text_or p.close_reason "all previews rejected");
  }
  closed_if _ p = p

  abbrev pub rolled : PipelineStatus → Pipeline → Pipeline
  rolled new p =
      logged now "pipeline" (status_name new) nothing (closed_if new (record p { status = new }))

  -- The source's own test and its caught `LifecycleError`: a move that the table does not allow is
  -- not made.
  abbrev pub settle : PipelineStatus → Pipeline → Action PipelineStatus
  settle new p =
      if same_pipeline new p.status || not (pipeline_may p.status new)
      then pure p.status
      else (do modify (put_pipeline (rolled new p)); pure new)

  abbrev pub rollup_of : List JobStatus → Pipeline → Action PipelineStatus
  rollup_of [] p = pure p.status
  rollup_of (st ∷ sts) p =
      if is_terminal_pipeline p.status
      then pure p.status
      else settle (rollup_status (st ∷ sts) p.status) p

  abbrev pub rollup_found : ℕ → Option Pipeline → Action (Option PipelineStatus)
  rollup_found i none = pure none
  rollup_found i (some p) = do
    sts ← gets (λ s. map (λ j. j.status) (jobs_of i s))
    new ← rollup_of sts p
    pure (some new)

  -- The empty text that the source returns for a missing pipeline is `none`.
  unfoldable pub refresh_rollup : ℕ → Action (Option PipelineStatus)
  unfolding rollup_status
  refresh_rollup i s = rollup_found i (find i s.pipelines) s
