-- ===== src/Trends/Rows.antt =====
-- The rows of `trend`, `trend_activity`, `content_pipeline` and `content_job` (db/models.py), and
-- the session's tables. A time is a number of seconds; a score is a whole number of its smallest
-- unit, since it is only compared and kept; JSON that is only passed on is a text.
use adam_abundance.Base.{ℕ, String, Bool, Option, none, List, Result, Exec, pure, raise}
use adam_abundance.Base.Table.{Keyed, put}
use adam_abundance.Trends.Lifecycle.{PipelineStatus, JobStatus, TrendStatus, LifecycleError}

pub data TrendState : Type 0 where
  emerging rising peak declining dormant : TrendState

-- A content type as its code points, after cleaning.
abbrev pub ContentType : Type 0
ContentType = List ℕ

-- Free text whose code points the program looks at.
abbrev pub Text : Type 0
Text = List ℕ

pub record Trend : Type 0 where
  pub id : ℕ
  pub brand : String
  pub cluster_key : String
  pub headline : String
  pub score : Option ℕ
  pub score_breakdown : String
  pub velocity : ℕ
  pub source_count : Option ℕ
  pub signal_count : Option ℕ
  pub covered_by_us : Option Bool
  pub entities : String
  pub evidence : List String
  pub status : TrendStatus
  pub origin : String
  pub created_at : ℕ
  pub last_seen_at : Option ℕ
  pub expires_at : Option ℕ
  pub dossier : Option String
  pub dossier_ref : Option String
  pub state : Option TrendState
  pub suppressed : Bool
  pub suppressed_by : Option String
  pub peak_at : Option ℕ

pub record Activity : Type 0 where
  pub trend_id : ℕ
  pub as_of : ℕ
  pub external_score : Option ℕ
  pub onsite_sessions : Option ℕ
  pub article_count : Option ℕ

-- An entry of the audit timeline.
pub data Detail : Type 0 where
  nothing : Detail
  note : String → Detail
  types : List ContentType → Detail
  asked_types : List String → Detail
  on_job : ℕ → Detail
  attempt_of : ℕ → ℕ → Detail

pub record Event : Type 0 where
  pub at : ℕ
  pub actor : String
  pub event : String
  pub detail : Detail

pub record Pipeline : Type 0 where
  pub id : ℕ
  pub trend_id : Option ℕ
  pub brand : String
  pub status : PipelineStatus
  pub requested_by : String
  pub instructions : Option Text
  pub content_types : List ContentType
  pub approved_by : Option String
  pub approved_at : Option ℕ
  pub declined_by : Option String
  pub declined_at : Option ℕ
  pub closed_at : Option ℕ
  pub close_reason : Option String
  pub created_at : ℕ
  pub events : List Event

-- What `history` keeps of an attempt.
pub record Attempt : Type 0 where
  pub attempt : ℕ
  pub instructions : Option Text
  pub preview_ref : Option String
  pub preview_meta : Option String
  pub at : ℕ

pub record Job : Type 0 where
  pub id : ℕ
  pub pipeline_id : Option ℕ
  pub content_type : ContentType
  pub transport : String
  pub status : JobStatus
  pub instructions : Option Text
  pub persona_id : Option ℕ
  pub attempt : ℕ
  pub preview_ref : Option String
  pub preview_meta : Option String
  pub external_ref : Option String
  pub result_ref : Option String
  pub cost : Option ℕ
  pub error : Option String
  pub reviewed_by : Option String
  pub reviewed_at : Option ℕ
  pub updated_at : ℕ
  pub history : List Attempt

instance abbrev pub trend_keyed : Keyed Trend
trend_keyed = record { key = λ t. t.id }

instance abbrev pub pipeline_keyed : Keyed Pipeline
pipeline_keyed = record { key = λ p. p.id }

instance abbrev pub job_keyed : Keyed Job
job_keyed = record { key = λ j. j.id }

pub record Db : Type 0 where
  pub trends : List Trend
  pub activity : List Activity
  pub pipelines : List Pipeline
  pub jobs : List Job
  pub next_trend : ℕ
  pub next_pipeline : ℕ
  pub next_job : ℕ

-- An action on the session.
abbrev pub Action : Type 0 → Type 0
Action A = Exec Db LifecycleError A

abbrev pub put_trend : Trend → Db → Db
put_trend t s = record s { trends = put t.id t s.trends }

abbrev pub put_pipeline : Pipeline → Db → Db
put_pipeline p s = record s { pipelines = put p.id p s.pipelines }

abbrev pub put_job : Job → Db → Db
put_job j s = record s { jobs = put j.id j s.jobs }

abbrev pub lift : {A : Type 0} → Result LifecycleError A → Action A
lift r s = (r, s)

abbrev pub or_raise : {A : Type 0} → Option A → LifecycleError → Action A
or_raise none e = raise e
or_raise (Option.some a) e = pure a
