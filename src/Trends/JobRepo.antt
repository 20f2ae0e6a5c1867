-- ===== src/Trends/JobRepo.antt =====
-- The job half of `PipelineRepo` (trends/repo.py). The statements with SKIP LOCKED see the rows
-- that other workers hold as `locked`; rows stand in the order of their ids.
use adam_abundance.Base.{
  ℕ, zero, suc, ◌+◌, String, Bool, true, false, not, ◌&&◌, Option, none, some, List, [], ◌∷◌, ◌++◌,
  map, keep, length, ltb, ◌==◌, if◌then◌else◌, is_none, is_some, Result, pure, raise_if, gets,
  modify, ◌>>=◌, ◌>>◌,
}
use adam_abundance.Base.Table.{find}
use adam_abundance.Base.Text.{strip}
use adam_abundance.Trends.Lifecycle.{
  JobStatus, human_required, bad_job_move, not_recoverable, job_not_found, is_non_human, job_may,
  same_job, is_terminal_pipeline, is_blank,
}
use adam_abundance.Trends.Rows.{
  ContentType, Text, Pipeline, Job, on_job, attempt_of, Db, Action, pipeline_keyed, job_keyed,
  put_pipeline, put_job, or_raise,
}
use adam_abundance.Trends.PipelineRepo.{logged}
use adam_abundance.Trends.Rollup.{refresh_rollup}

-- The keyword arguments of `mark_job`.
pub data Field : Type 0 where
  set_error : Option String → Field
  set_external_ref : Option String → Field
  set_preview : Option String → Option String → Field
  set_cost : Option ℕ → Field
  set_result_ref : Option String → Field
  set_reviewed : String → ℕ → Field

abbrev pub set_field : Field → Job → Job
set_field (set_error e) j = record j { error = e }
set_field (set_external_ref r) j = record j { external_ref = r }
set_field (set_preview r m) j = record j { preview_ref = r; preview_meta = m }
set_field (set_cost c) j = record j { cost = c }
set_field (set_result_ref r) j = record j { result_ref = r }
set_field (set_reviewed by at) j = record j { reviewed_by = some by; reviewed_at = some at }

abbrev pub set_fields : List Field → Job → Job
set_fields [] j = j
set_fields (f ∷ fs) j = set_fields fs (set_field f j)

-- The first `n` rows that `p` selects are rewritten by `f`; their ids are returned.
abbrev pub claim : (Job → Bool) → (Job → Job) → ℕ → List Job → List ℕ × List Job
claim p f zero js = ([], js)
claim p f (suc n) [] = ([], [])
claim p f (suc n) (j ∷ js) = elim (p j) [
  | true ↦ (let (ids, rest) = claim p f n js in (j.id ∷ ids, f j ∷ rest))
  | false ↦ (let (ids, rest) = claim p f (suc n) js in (ids, j ∷ rest))
]

abbrev pub get_job : ℕ → Action Job
get_job i = do found ← gets (λ s. find i s.jobs); or_raise found (job_not_found i)

-- `job.pipeline`
abbrev pub pipeline_of : Job → Db → Option Pipeline
pipeline_of j s = elim j.pipeline_id [ none ↦ none | some i ↦ find i s.pipelines ]

abbrev pub check_recoverable : Option Pipeline → Action (Unit {0})
check_recoverable none = pure tt
check_recoverable (some p) = raise_if (is_terminal_pipeline p.status) (not_recoverable p.status)

abbrev pub stripped_text_or : Text → Option Text → Option Text
stripped_text_or t old = if is_blank (strip t) then old else some (strip t)

-- `dict.fromkeys` of the ids that are there.
abbrev pub distinct_ids : List (Option ℕ) → List ℕ
distinct_ids [] = []
distinct_ids (none ∷ is) = distinct_ids is
distinct_ids (some i ∷ is) = i ∷ keep (λ k. not (k == i)) (distinct_ids is)

module _ (now : ℕ) where
  abbrev pub insert_job : (ℕ → Job) → Action Job
  insert_job j s = (
    Result.ok (j s.next_job),
    record s { jobs = s.jobs ++ j s.next_job ∷ []; next_job = s.next_job + 1 },
  )

  unfoldable pub add_job : ℕ → ContentType → String → Option Text → Option ℕ → Action Job
  add_job pipeline_id content_type transport instructions persona_id = insert_job λ id. record {
    id = id;
    pipeline_id = some pipeline_id;
    content_type = content_type;
    transport = transport;
    status = JobStatus.queued;
    instructions = instructions;
    persona_id = persona_id;
    attempt = 1;
    preview_ref = none;
    preview_meta = none;
    external_ref = none;
    result_ref = none;
    cost = none;
    error = none;
    reviewed_by = none;
    reviewed_at = none;
    updated_at = now;
    history = [];
  }

  abbrev pub start_job : Job → Job
  start_job j = record j { status = JobStatus.running; updated_at = now }

  abbrev pub touch_job : Job → Job
  touch_job j = record j { updated_at = now }

  abbrev pub fail_job : Job → Job
  fail_job j = record j {
    status = JobStatus.failed;
    updated_at = now;
    error = some "worker died mid-generation — regenerate to retry";
  }

  module _ (locked : ℕ → Bool) where
    abbrev pub is_claimable : Job → Bool
    is_claimable j = same_job j.status JobStatus.queued && not (locked j.id)

    unfoldable pub claim_queued : ℕ → Db → List ℕ × Db
    claim_queued limit s =
        let (ids, jobs) = claim is_claimable start_job limit s.jobs in
        (ids, record s { jobs = jobs })

    abbrev pub is_stuck : ℕ → Job → Bool
    is_stuck cutoff j =
        same_job j.status JobStatus.running
        && is_some j.external_ref
        && ltb j.updated_at cutoff
        && not (locked j.id)

    unfoldable pub claim_stuck_running : ℕ → ℕ → Db → List ℕ × Db
    claim_stuck_running cutoff limit s =
        let (ids, jobs) = claim (is_stuck cutoff) touch_job limit s.jobs in
        (ids, record s { jobs = jobs })

    abbrev pub is_dead : ℕ → Job → Bool
    is_dead cutoff j =
        same_job j.status JobStatus.running
        && is_none j.external_ref
        && ltb j.updated_at cutoff
        && not (locked j.id)

    abbrev pub rollup_all : List ℕ → Action (Unit {0})
    rollup_all [] = pure tt
    rollup_all (i ∷ is) = do refresh_rollup now i; rollup_all is

    abbrev pub reap_if : ℕ → Job → Job
    reap_if cutoff j = if is_dead cutoff j then fail_job j else j

    unfoldable pub reap_dead_running : ℕ → Action ℕ
    reap_dead_running cutoff = do
      dead ← gets (λ s. keep (is_dead cutoff) s.jobs)
      modify (λ s. record s { jobs = map (reap_if cutoff) s.jobs })
      rollup_all (distinct_ids (map (λ j. j.pipeline_id) dead))
      pure (length dead)

  abbrev pub marked : JobStatus → List Field → Job → Job
  marked status fields j = set_fields fields (record j { status = status; updated_at = now })

  -- The named fields are set after the status.
  unfoldable pub mark_job : ℕ → JobStatus → List Field → Action Job
  mark_job i status fields = do
    j ← get_job i
    raise_if (not (job_may j.status status)) (bad_job_move j.status status)
    modify (put_job (marked status fields j))
    pure (marked status fields j)

  abbrev pub log_on : Option Pipeline → (Pipeline → Pipeline) → Action (Unit {0})
  log_on none f = pure tt
  log_on (some p) f = modify (put_pipeline (f p))

  unfoldable pub review_job : ℕ → String → Bool → Action Job
  unfolding mark_job
  review_job i actor approve = do
    raise_if (is_non_human actor) human_required
    j ← get_job i
    p ← gets (pipeline_of j)
    check_recoverable p
    j' ←
        mark_job i (if approve then JobStatus.approved else JobStatus.rejected)
          (set_reviewed actor now ∷ [])
    log_on p
        (logged now actor (if approve then "preview_approved" else "preview_rejected") (on_job i))
    pure j'

  abbrev pub requeued : Text → Job → Job
  requeued instructions j = record j {
    history =
        j.history
        ++ record {
          attempt = j.attempt;
          instructions = j.instructions;
          preview_ref = j.preview_ref;
          preview_meta = j.preview_meta;
          at = now;
        }
          ∷ [];
    attempt = j.attempt + 1;
    instructions = stripped_text_or instructions j.instructions;
    status = JobStatus.queued;
    preview_ref = none;
    preview_meta = none;
    error = none;
    updated_at = now;
  }

  unfoldable pub regenerate_job : ℕ → String → Text → Action Job
  regenerate_job i actor instructions = do
    raise_if (is_non_human actor) human_required
    j ← get_job i
    p ← gets (pipeline_of j)
    check_recoverable p
    raise_if (not (job_may j.status JobStatus.queued)) (bad_job_move j.status JobStatus.queued)
    modify (put_job (requeued instructions j))
    log_on p (logged now actor "regenerate_requested" (attempt_of i (j.attempt + 1)))
    pure (requeued instructions j)
