-- ===== src/Trends/PipelineRepo.antt =====
-- `PipelineRepo` of trends/repo.py; `now` is the reading of the clock.
use adam_abundance.Base.{
  ℕ, ◌+◌, String, Bool, true, false, not, ◌&&◌, Option, none, some, List, [], ◌∷◌, ◌++◌, map, keep,
  count_if, ◌==◌, if◌then◌else◌, str_eq, Result, pure, raise, raise_if, gets, modify, ◌>>=◌, ◌>>◌,
}
use adam_abundance.Base.Table.{find}
use adam_abundance.Base.Text.{strip}
use adam_abundance.Trends.Lifecycle.{
  PipelineStatus, JobStatus, human_required, bad_pipeline_move, pipeline_not_found, already_open,
  is_non_human, pipeline_may, is_open_pipeline, validate_content_types, is_blank,
}
use adam_abundance.Trends.Rows.{
  ContentType, Text, Pipeline, Job, Detail, nothing, note, types, asked_types, Db, Action,
  pipeline_keyed, job_keyed, put_pipeline, lift, or_raise,
}

-- `WHERE trend_id = … AND status IN (open)`, the first such id.
abbrev pub is_for : ℕ → Option ℕ → Bool
is_for t none = false
is_for t (some u) = u == t

abbrev pub is_open_for : ℕ → Pipeline → Bool
is_open_for t p = is_for t p.trend_id && is_open_pipeline p.status

abbrev first_open : ℕ → List Pipeline → Option ℕ
first_open t [] = none
first_open t (p ∷ ps) = if is_open_for t p then some p.id else first_open t ps

abbrev pub open_for_trend : Option ℕ → List Pipeline → Option ℕ
open_for_trend none ps = none
open_for_trend (some t) ps = first_open t ps

abbrev pub refuse_open : Option ℕ → Action (Unit {0})
refuse_open none = pure tt
refuse_open (some i) = raise (already_open i)

-- The jobs of a pipeline, as `pipeline.jobs` has them.
abbrev pub is_job_of : ℕ → Job → Bool
is_job_of i j = is_for i j.pipeline_id

abbrev pub jobs_of : ℕ → Db → List Job
jobs_of i s = keep (is_job_of i) s.jobs

abbrev pub stripped_or : Option Text → Option Text → Option Text
stripped_or none old = old
stripped_or (some t) old = if is_blank (strip t) then old else some (strip t)

unfoldable pub open_count : String → Db → ℕ
open_count brand s = count_if (λ p. str_eq p.brand brand && is_open_pipeline p.status) s.pipelines

abbrev pub status_name : PipelineStatus → String
status_name PipelineStatus.pending_approval = "pending_approval"
status_name PipelineStatus.approved = "approved"
status_name PipelineStatus.generating = "generating"
status_name PipelineStatus.previews_ready = "previews_ready"
status_name PipelineStatus.published = "published"
status_name PipelineStatus.partially_published = "partially_published"
status_name PipelineStatus.declined = "declined"
status_name PipelineStatus.closed = "closed"
status_name PipelineStatus.failed = "failed"
status_name PipelineStatus.expired = "expired"

abbrev pub get_pipeline : ℕ → Action Pipeline
get_pipeline i = do found ← gets (λ s. find i s.pipelines); or_raise found (pipeline_not_found i)

abbrev pub check_move : PipelineStatus → PipelineStatus → Action (Unit {0})
check_move a b = raise_if (not (pipeline_may a b)) (bad_pipeline_move a b)

-- A list of content types that is given and not empty is validated after the approval has
-- already been written to the row.
abbrev pub retype : List String → Pipeline → Action Pipeline
retype [] p = pure p
retype (t ∷ ts) p = do
  cts ← lift (validate_content_types (t ∷ ts))
  pure (record p { content_types = cts })

abbrev pub note_of : Option String → Detail
note_of none = nothing
note_of (some t) = note t

abbrev pub is_settled : JobStatus → Bool
is_settled JobStatus.published = true
is_settled JobStatus.cancelled = true
is_settled _ = false

module _ (now : ℕ) where
  -- `_log_event`
  abbrev pub logged : String → String → Detail → Pipeline → Pipeline
  logged actor event detail p = record p {
    events = p.events ++ record { at = now; actor = actor; event = event; detail = detail } ∷ [];
  }

  abbrev pub new_pipeline :
      ℕ → Option ℕ → String → List String → String → Option Text → List ContentType → Pipeline
  new_pipeline id trend_id brand asked requested_by instructions cleaned_types = record {
    id = id;
    trend_id = trend_id;
    brand = brand;
    status = PipelineStatus.pending_approval;
    requested_by = requested_by;
    instructions = instructions;
    content_types = cleaned_types;
    approved_by = none;
    approved_at = none;
    declined_by = none;
    declined_at = none;
    closed_at = none;
    close_reason = none;
    created_at = now;
    events =
        record { at = now; actor = requested_by; event = "created"; detail = asked_types asked }
        ∷ [];
  }

  abbrev pub insert_pipeline : (ℕ → Pipeline) → Action Pipeline
  insert_pipeline p s = (
    Result.ok (p s.next_pipeline),
    record s {
      pipelines = s.pipelines ++ p s.next_pipeline ∷ [];
      next_pipeline = s.next_pipeline + 1;
    },
  )

  unfoldable pub create : Option ℕ → String → List String → String → Option Text → Action Pipeline
  create trend_id brand asked requested_by instructions = do
    dup ← gets (λ s. open_for_trend trend_id s.pipelines)
    refuse_open dup
    cts ← lift (validate_content_types asked)
    insert_pipeline (λ id. new_pipeline id trend_id brand asked requested_by instructions cts)

  abbrev pub with_approval : String → Pipeline → Pipeline
  with_approval approver p = record p {
    status = PipelineStatus.approved;
    approved_by = some approver;
    approved_at = some now;
  }

  abbrev pub approved_pipeline : String → Option Text → Pipeline → Pipeline
  approved_pipeline approver instructions p =
      logged approver "approved" (types p.content_types)
        (record p { instructions = stripped_or instructions p.instructions })

  unfoldable pub approve : ℕ → String → List String → Option Text → Action Pipeline
  approve i approver asked instructions = do
    raise_if (is_non_human approver) human_required
    p ← get_pipeline i
    check_move p.status PipelineStatus.approved
    modify (put_pipeline (with_approval approver p))
    p' ← retype asked (with_approval approver p)
    modify (put_pipeline (approved_pipeline approver instructions p'))
    pure (approved_pipeline approver instructions p')

  unfoldable pub decline : ℕ → String → Option String → Action Pipeline
  decline i actor reason = do
    raise_if (is_non_human actor) human_required
    p ← get_pipeline i
    check_move p.status PipelineStatus.declined
    let p' = logged actor "declined" (note_of reason) (record p {
      status = PipelineStatus.declined;
      declined_by = some actor;
      declined_at = some now;
      close_reason = reason;
    })
    modify (put_pipeline p')
    pure p'

  abbrev pub cancel_job : ℕ → Job → Job
  cancel_job i j =
      if is_job_of i j && not (is_settled j.status)
      then record j { status = JobStatus.cancelled; updated_at = now }
      else j

  unfoldable pub close : ℕ → String → Option String → Action Pipeline
  close i actor reason = do
    raise_if (is_non_human actor) human_required
    p ← get_pipeline i
    check_move p.status PipelineStatus.closed
    let p' =
        logged actor "closed" (note_of reason)
          (record p { status = PipelineStatus.closed; closed_at = some now; close_reason = reason })
    modify (λ s. record s { jobs = map (cancel_job i) s.jobs })
    modify (put_pipeline p')
    pure p'

  abbrev pub set_status_of :
      PipelineStatus → String → Option String → Option Pipeline → Action (Unit {0})
  set_status_of status actor detail none = pure tt
  set_status_of status actor detail (some p) = do
    check_move p.status status
    modify (
        put_pipeline
          (logged actor (status_name status) (note_of detail) (record p { status = status })))

  unfoldable pub set_status : ℕ → PipelineStatus → String → Option String → Action (Unit {0})
  set_status i status actor detail s = set_status_of status actor detail (find i s.pipelines) s
