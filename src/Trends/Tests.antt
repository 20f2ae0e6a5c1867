-- ===== src/Trends/Tests.antt =====
-- A concrete session: what the repositories do with it, and the theorems at it.
use adam_abundance.Base.{ℕ, ◌+◌, ◌≡◌, refl, Bool, false, none, some, List, [], ◌∷◌, ◌++◌, Result}
use adam_abundance.Base.Text.{codes}
use adam_abundance.Base.Table.{find}
use adam_abundance.Trends.Lifecycle.{
  PipelineStatus, JobStatus, unknown_content_types, is_non_human, pipeline_may,
  validate_content_types,
}
use adam_abundance.Trends.Rows.{Activity, Pipeline, Job, Db, pipeline_keyed, job_keyed}
use adam_abundance.Trends.PipelineRepo.{approve, with_approval}
use adam_abundance.Trends.JobRepo.{claim_queued}
use adam_abundance.Trends.TrendRepo.{Sighting}
use adam_abundance.Trends.Lawful.{Lawful}
use adam_abundance.Trends.Claims.{claim_queued-claim_queued}
use adam_abundance.Trends.Atomicity.{approve-invalid}
use adam_abundance.Trends.History.{
  Call, approve_call, close_call, claim_call, rollup_call, mark_call, after, after_all,
  after_all-Lawful, after_all-terminal, after_all-settled, after-machine, ByMachine,
}

abbrev pipeline : PipelineStatus → Pipeline
pipeline st = record {
  id = 1;
  trend_id = some 4;
  brand = "hotcars";
  status = st;
  requested_by = "scout";
  instructions = none;
  content_types = codes "article" ∷ [];
  approved_by = none;
  approved_at = none;
  declined_by = none;
  declined_at = none;
  closed_at = none;
  close_reason = none;
  created_at = 5;
  events = [];
}

abbrev job : ℕ → JobStatus → Job
job i st = record {
  id = i;
  pipeline_id = some 1;
  content_type = codes "article";
  transport = "internal";
  status = st;
  instructions = none;
  persona_id = none;
  attempt = 1;
  preview_ref = none;
  preview_meta = none;
  external_ref = none;
  result_ref = none;
  cost = none;
  error = none;
  reviewed_by = none;
  reviewed_at = none;
  updated_at = 5;
  history = [];
}

abbrev session : PipelineStatus → List Job → Db
session st jobs = record {
  trends = [];
  activity = [];
  pipelines = pipeline st ∷ [];
  jobs = jobs;
  next_trend = 5;
  next_pipeline = 2;
  next_job = 9;
}

abbrev nobody : ℕ → Bool
nobody i = false

abbrev calls : List Call
calls =
    approve_call 10 1 "Dana" [] none
    ∷ claim_call 11 nobody 1
    ∷ mark_call 12 7 JobStatus.preview_ready []
    ∷ rollup_call 12 1
    ∷ close_call 13 1 "Dana" none
    ∷ []

abbrev queue : List Job
queue = job 6 JobStatus.running ∷ job 7 JobStatus.queued ∷ job 8 JobStatus.queued ∷ []

after_all-Lawful_example :
    Lawful
      (session PipelineStatus.pending_approval queue)
      (after_all calls (session PipelineStatus.pending_approval queue))
after_all-Lawful_example = after_all-Lawful calls (session PipelineStatus.pending_approval queue)

after_all-terminal_example :
    (p' : Pipeline) × (find 1 (after_all calls (session PipelineStatus.declined queue)).pipelines
      ≡ some p')
    × (p'.status ≡ (pipeline PipelineStatus.declined).status)
after_all-terminal_example =
    after_all-terminal calls (session PipelineStatus.declined queue) 1
      (pipeline PipelineStatus.declined) refl refl

after_all-settled_example :
    (j' : Job) × (find 6
        (after_all calls (session PipelineStatus.generating (job 6 JobStatus.published ∷ []))).jobs
      ≡ some j')
    × (j'.status ≡ (job 6 JobStatus.published).status)
after_all-settled_example =
    after_all-settled calls (session PipelineStatus.generating (job 6 JobStatus.published ∷ [])) 6
      (job 6 JobStatus.published) refl refl

after-machine_example :
    after (approve_call 10 1 " Scheduler" [] none) (session PipelineStatus.pending_approval queue)
    ≡ session PipelineStatus.pending_approval queue
unfolding is_non_human ByMachine
after-machine_example =
    after-machine (approve_call 10 1 " Scheduler" [] none)
      (session PipelineStatus.pending_approval queue) refl

claim_queued-claim_queued_example :
    (claim_queued 11 nobody 1 (session PipelineStatus.generating queue)).0
      ++ (claim_queued 11 nobody 1
          (claim_queued 11 nobody 1 (session PipelineStatus.generating queue)).1).0
    ≡ (claim_queued 11 nobody (1 + 1) (session PipelineStatus.generating queue)).0
claim_queued-claim_queued_example =
    claim_queued-claim_queued 11 nobody 1 1 (session PipelineStatus.generating queue)

approve-invalid_example :
    ((approve 10 1 "Dana" ("podcast" ∷ []) none (session PipelineStatus.pending_approval [])).0
      ≡ Result.err (unknown_content_types (codes "podcast" ∷ [])))
    × (find 1
          (approve 10 1 "Dana"
            ("podcast" ∷ [])
            none
            (session PipelineStatus.pending_approval [])).1.pipelines
        ≡ some (with_approval 10 "Dana" (pipeline PipelineStatus.pending_approval)))
unfolding is_non_human pipeline_may validate_content_types
approve-invalid_example =
    approve-invalid 10 1 "Dana" "podcast" [] none (pipeline PipelineStatus.pending_approval)
      (session PipelineStatus.pending_approval []) (unknown_content_types (codes "podcast" ∷ []))
      refl refl refl refl

abbrev lost : List Job
lost = job 6 JobStatus.failed ∷ job 7 JobStatus.rejected ∷ []

abbrev sighting : Sighting
sighting = record {
  brand = "hotcars";
  cluster_key = "new-model";
  headline = "New model";
  score = 70;
  score_breakdown = "";
  velocity = 3;
  source_count = 4;
  signal_count = 9;
  covered_by_us = some false;
  entities = "";
  evidence = [];
  ttl_hours = 48;
  dedup_days = 14;
  origin = "scout";
}

abbrev sample : ℕ → Activity
sample score = record {
  trend_id = 4;
  as_of = 7;
  external_score = some score;
  onsite_sessions = none;
  article_count = none;
}
