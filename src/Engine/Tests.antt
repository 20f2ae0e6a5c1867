-- ===== src/Engine/Tests.antt =====
-- A concrete session of the engine: what its transactions do with it, and the theorems at it.
use adam_abundance.Base.{
  ℕ, ◌≡◌, refl, String, Bool, true, false, none, some, List, [], ◌∷◌, length, arith, ok, err,
}
use adam_abundance.Base.Text.{codes}
use adam_abundance.Base.Table.{put}
use adam_abundance.Memory.Types.{default_ttl}
use adam_abundance.Memory.Store.{
  invalid_scope, is_valid_scope, write, new_entry, apply_fact_gate, resolve_expiry,
}
use adam_abundance.Trends.Rollup.{refresh_rollup, rollup_status}
use adam_abundance.Governor.Caps.{default_caps}
use adam_abundance.Governor.Budget.{Governor}
use adam_abundance.Users.Rbac.{Role, can_approve}
use adam_abundance.Trends.Lifecycle.{
  PipelineStatus, JobStatus, TrendStatus, is_non_human, job_may, pipeline_may,
}
use adam_abundance.Trends.Rows.{Trend, Pipeline, Job, job_keyed, pipeline_keyed}
use adam_abundance.Trends.JobRepo.{marked, mark_job}
use adam_abundance.Trends.Lawful.{Lawful}
use adam_abundance.Engine.Pay.{cost_keyed, no_meta}
use adam_abundance.Engine.Session.{Session, EngineError, store_refused}
use adam_abundance.Engine.World.{World, GenerationResult, unavailable}
use adam_abundance.Engine.Worker.{Outcome, Tally, run_job, process_job, run_job_sweep}
use adam_abundance.Engine.Publish.{publish_fields, publish_job}
use adam_abundance.Engine.Routes.{User, approve_request, review_request, publish_request, handle}
use adam_abundance.Engine.Waiting.{NoneWaiting}
use adam_abundance.Engine.History.{Step, request, claim, turn, take_steps, take_steps-Lawful}
use adam_abundance.Engine.Sweep.{claimed_ids, total, run_job_sweep-NoneWaiting, run_job_sweep-total}
use adam_abundance.Engine.Crash.{Failed, process_job-crash}
use adam_abundance.Engine.KillSwitch.{Transport, with_transport, kill_switch_lem}
use adam_abundance.Engine.TwoGates.{Passed, publish_job_lem}
use adam_abundance.Engine.Rbac.{target, handle-Forbidden}

abbrev trend : Trend
trend = record {
  id = 4;
  brand = "hotcars";
  cluster_key = "ford-recall";
  headline = "Ford recall";
  score = some 60;
  score_breakdown = "{}";
  velocity = 2;
  source_count = some 2;
  signal_count = some 3;
  covered_by_us = none;
  entities = "{}";
  evidence = [];
  status = TrendStatus.proposed;
  origin = "scout";
  created_at = 5;
  last_seen_at = some 5;
  expires_at = none;
  dossier = none;
  dossier_ref = none;
  state = none;
  suppressed = false;
  suppressed_by = none;
  peak_at = none;
}

abbrev pipeline : String → PipelineStatus → Pipeline
pipeline brand st = record {
  id = 1;
  trend_id = some 4;
  brand = brand;
  status = st;
  requested_by = "scout";
  instructions = none;
  content_types = codes "article" ∷ [];
  approved_by = none;
  approved_at = none;
  declined_by = none;
  declined_at = none;
  closed_at = none;
  close_reason = none;
  created_at = 5;
  events = [];
}

abbrev job : ℕ → JobStatus → Job
job i st = record {
  id = i;
  pipeline_id = some 1;
  content_type = codes "article";
  transport = "llm";
  status = st;
  instructions = none;
  persona_id = none;
  attempt = 1;
  preview_ref = none;
  preview_meta = none;
  external_ref = none;
  result_ref = none;
  cost = some 250;
  error = none;
  reviewed_by = none;
  reviewed_at = none;
  updated_at = 5;
  history = [];
}

abbrev governor : Governor
governor = record {
  caps = default_caps;
  eff_caps = none;
  setting = record { row = none; readable = true };
  ledger = [];
  memory = record { entries = []; next_id = 1 };
}

abbrev session : String → PipelineStatus → List Job → Session
session brand st jobs = record {
  db = record {
    trends = trend ∷ [];
    activity = [];
    pipelines = pipeline brand st ∷ [];
    jobs = jobs;
    next_trend = 5;
    next_pipeline = 2;
    next_job = 9;
  };
  governor = governor;
  personas = record { rows = []; next_id = 1 };
  baselines = [];
  costs = [];
}

abbrev draft : GenerationResult
draft = record {
  ok = true;
  pending = false;
  preview_markdown = "# Ford recall";
  preview_meta = "{}";
  external_ref = none;
  cost_micros = 1200;
  error = none;
}

abbrev drafting : Transport
drafting name j p t g = (ok draft, g)

abbrev out_of_service : Transport
out_of_service name j p t g = (err (unavailable "no key"), g)

abbrev world : Bool → World
world kill = record {
  now = 10000;
  kill_switch = kill;
  ttls = default_ttl;
  transports = [];
  transport = drafting;
  put_text = λ p j text. some "preview.md";
  read_meta = λ t. no_meta;
  topic_of = λ r. none;
  emaki = record {
    base = "";
    email = none;
    password = none;
    login = true;
    active_brand = λ b. 200;
    push = λ t. none;
  };
  message = λ e. "worker error";
}

abbrev nobody : ℕ → Bool
nobody i = false

abbrev editor : User
editor = record {
  email = "dana@example.org";
  role = Role.brand_user;
  brands = some ("hotcars" ∷ []);
}

abbrev visitor : User
visitor = record { email = "vic@example.org"; role = Role.viewer; brands = none }

-- The whole way of one pipeline, by requests and one sweep.
abbrev steps : List Step
steps =
    request (world false) editor (approve_request 1 [] none)
    ∷ claim (world false) nobody 5
    ∷ turn (world false) 9
    ∷ request (world false) editor (review_request 9 true)
    ∷ request (world false) editor (publish_request 9)
    ∷ []

take_steps-Lawful_example :
    Lawful
      (session "hotcars" PipelineStatus.pending_approval []).db
      (take_steps steps (session "hotcars" PipelineStatus.pending_approval [])).db
take_steps-Lawful_example =
    take_steps-Lawful steps (session "hotcars" PipelineStatus.pending_approval [])

abbrev queue : List Job
queue = job 6 JobStatus.running ∷ job 7 JobStatus.queued ∷ job 8 JobStatus.queued ∷ []

abbrev generating : Session
generating = session "hotcars" PipelineStatus.generating queue

run_job_sweep-NoneWaiting_example :
    NoneWaiting 10000 nobody
      (run_job_sweep (world false) (λ i. world false) nobody 2 generating).1.db
run_job_sweep-NoneWaiting_example =
    run_job_sweep-NoneWaiting (world false) nobody (λ i. world false) 2 generating (omega arith)

run_job_sweep-total_example :
    (t : Tally) × ((run_job_sweep (world false) (λ i. world false) nobody 2 generating).0 ≡ ok t)
    × (total t ≡ length (claimed_ids (world false) nobody 2 generating))
run_job_sweep-total_example =
    run_job_sweep-total (world false) nobody (λ i. world false) 2 generating

-- A brand that the memory does not know makes the worker's transaction raise.
abbrev strange : Session
strange = session "elsewhere" PipelineStatus.generating queue

abbrev unknown_brand : EngineError
unknown_brand = store_refused (invalid_scope "elsewhere")

kill_switch_lem_example :
    ((process_job (world true) 6 generating).0 ≡ Outcome.failed)
    × ((process_job (world true) 6 generating).1.governor ≡ generating.governor)
    × ((t : Transport)
        → process_job (with_transport t (world true)) 6 generating
          ≡ process_job (world true) 6 generating)
    × ((publish_job (world true) 6 "dana" generating).1 ≡ generating)
kill_switch_lem_example = kill_switch_lem (world true) 6 "dana" generating refl

handle-Forbidden_example :
    (handle (world false) visitor (publish_request 7) generating).1 ≡ generating
unfolding target can_approve
handle-Forbidden_example =
    handle-Forbidden (world false) visitor (publish_request 7) generating refl

run_job-strange : (run_job (world false) 6 strange).0 ≡ err unknown_brand
unfolding run_job mark_job job_may is_valid_scope write new_entry apply_fact_gate resolve_expiry
run_job-strange = refl

process_job-crash_example :
    ((process_job (world false) 6 strange).0 ≡ Outcome.failed)
    × Failed
        (world false)
        unknown_brand
        (job 6 JobStatus.running)
        strange
        (process_job (world false) 6 strange).1
unfolding job_may
process_job-crash_example =
    process_job-crash (world false) 6 unknown_brand strange (job 6 JobStatus.running)
      run_job-strange refl refl

abbrev approved_queue : List Job
approved_queue = job 6 JobStatus.approved ∷ job 7 JobStatus.preview_ready ∷ []

abbrev previews : Session
previews = session "hotcars" PipelineStatus.previews_ready approved_queue

abbrev handed_off : Job
handed_off =
    marked 10000 JobStatus.published (publish_fields (world false) "dana" "manual_handoff")
      (job 6 JobStatus.approved)

publish_job-handed_off : (publish_job (world false) 6 "dana" previews).0 ≡ ok handed_off
unfolding publish_job mark_job job_may is_valid_scope write new_entry apply_fact_gate resolve_expiry
    is_non_human refresh_rollup pipeline_may rollup_status
publish_job-handed_off = refl

publish_job_lem_example :
    (j : Job) × (p : Pipeline) × Passed (world false) 6 "dana" previews j p
    × (handed_off.status ≡ JobStatus.published)
    × (handed_off.reviewed_by ≡ some "dana")
    × ((publish_job (world false) 6 "dana" previews).1.db.jobs ≡ put 6 handed_off previews.db.jobs)
publish_job_lem_example =
    publish_job_lem (world false) 6 "dana" previews handed_off publish_job-handed_off
