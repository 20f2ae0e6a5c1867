-- ===== src/Trends/Lifecycle.antt =====
-- trends/lifecycle.py, over the statuses of db/enums.py. A status is one of those constants: a text
-- that is none of them has no transition in the source either.
use adam_abundance.Base.{
  ℕ, String, Bool, true, false, not, ◌||◌, List, [], ◌∷◌, any, keep, Result, ◌==◌, if◌then◌else◌,
}
use adam_abundance.Base.Text.{codes, strip, lower, is_one_of, same_codes}

pub data PipelineStatus : Type 0 where
  pending_approval approved generating previews_ready published : PipelineStatus
  partially_published declined closed failed expired : PipelineStatus

pub data JobStatus : Type 0 where
  queued running preview_ready approved published rejected failed cancelled : JobStatus

pub data TrendStatus : Type 0 where
  detected dossier_building proposed approved declined dismissed expired completed : TrendStatus

abbrev pub pipeline_number : PipelineStatus → ℕ
pipeline_number PipelineStatus.pending_approval = 0
pipeline_number PipelineStatus.approved = 1
pipeline_number PipelineStatus.generating = 2
pipeline_number PipelineStatus.previews_ready = 3
pipeline_number PipelineStatus.published = 4
pipeline_number PipelineStatus.partially_published = 5
pipeline_number PipelineStatus.declined = 6
pipeline_number PipelineStatus.closed = 7
pipeline_number PipelineStatus.failed = 8
pipeline_number PipelineStatus.expired = 9

abbrev pub job_number : JobStatus → ℕ
job_number JobStatus.queued = 0
job_number JobStatus.running = 1
job_number JobStatus.preview_ready = 2
job_number JobStatus.approved = 3
job_number JobStatus.published = 4
job_number JobStatus.rejected = 5
job_number JobStatus.failed = 6
job_number JobStatus.cancelled = 7

abbrev pub trend_number : TrendStatus → ℕ
trend_number TrendStatus.detected = 0
trend_number TrendStatus.dossier_building = 1
trend_number TrendStatus.proposed = 2
trend_number TrendStatus.approved = 3
trend_number TrendStatus.declined = 4
trend_number TrendStatus.dismissed = 5
trend_number TrendStatus.expired = 6
trend_number TrendStatus.completed = 7

abbrev pub same_pipeline : PipelineStatus → PipelineStatus → Bool
same_pipeline a b = pipeline_number a == pipeline_number b

abbrev pub same_job : JobStatus → JobStatus → Bool
same_job a b = job_number a == job_number b

abbrev pub same_trend : TrendStatus → TrendStatus → Bool
same_trend a b = trend_number a == trend_number b

-- `_PIPELINE_TRANSITIONS`
abbrev pub pipeline_next : PipelineStatus → List PipelineStatus
pipeline_next PipelineStatus.pending_approval =
    PipelineStatus.approved ∷ PipelineStatus.declined ∷ PipelineStatus.expired
    ∷ PipelineStatus.closed ∷ []
pipeline_next PipelineStatus.approved =
    PipelineStatus.generating ∷ PipelineStatus.closed ∷ PipelineStatus.failed ∷ []
pipeline_next PipelineStatus.generating =
    PipelineStatus.previews_ready ∷ PipelineStatus.failed ∷ PipelineStatus.closed ∷ []
pipeline_next PipelineStatus.previews_ready =
    PipelineStatus.generating ∷ PipelineStatus.published ∷ PipelineStatus.partially_published
    ∷ PipelineStatus.closed ∷ []
pipeline_next PipelineStatus.partially_published =
    PipelineStatus.generating ∷ PipelineStatus.published ∷ PipelineStatus.closed ∷ []
pipeline_next PipelineStatus.published = PipelineStatus.closed ∷ []
pipeline_next PipelineStatus.failed = PipelineStatus.generating ∷ PipelineStatus.closed ∷ []
pipeline_next PipelineStatus.declined = []
pipeline_next PipelineStatus.expired = []
pipeline_next PipelineStatus.closed = []

-- `_JOB_TRANSITIONS`
abbrev pub job_next : JobStatus → List JobStatus
job_next JobStatus.queued = JobStatus.running ∷ JobStatus.cancelled ∷ []
job_next JobStatus.running = JobStatus.preview_ready ∷ JobStatus.failed ∷ JobStatus.cancelled ∷ []
job_next JobStatus.preview_ready =
    JobStatus.approved ∷ JobStatus.rejected ∷ JobStatus.queued ∷ JobStatus.cancelled ∷ []
job_next JobStatus.approved =
    JobStatus.published ∷ JobStatus.queued ∷ JobStatus.rejected ∷ JobStatus.cancelled ∷ []
job_next JobStatus.rejected = JobStatus.queued ∷ JobStatus.cancelled ∷ []
job_next JobStatus.failed = JobStatus.queued ∷ JobStatus.cancelled ∷ []
job_next JobStatus.published = []
job_next JobStatus.cancelled = []

-- `_TREND_TRANSITIONS`
abbrev pub trend_next : TrendStatus → List TrendStatus
trend_next TrendStatus.detected =
    TrendStatus.dossier_building ∷ TrendStatus.proposed ∷ TrendStatus.dismissed
    ∷ TrendStatus.expired ∷ []
trend_next TrendStatus.dossier_building =
    TrendStatus.detected ∷ TrendStatus.proposed ∷ TrendStatus.dismissed ∷ TrendStatus.expired ∷ []
trend_next TrendStatus.proposed =
    TrendStatus.approved ∷ TrendStatus.declined ∷ TrendStatus.dismissed ∷ TrendStatus.expired ∷ []
trend_next TrendStatus.approved =
    TrendStatus.completed ∷ TrendStatus.declined ∷ TrendStatus.dismissed ∷ []
trend_next TrendStatus.dismissed = []
trend_next TrendStatus.declined = []
trend_next TrendStatus.expired = []
trend_next TrendStatus.completed = []

unfoldable pub pipeline_may : PipelineStatus → PipelineStatus → Bool
pipeline_may a b = any (same_pipeline b) (pipeline_next a)

unfoldable pub job_may : JobStatus → JobStatus → Bool
job_may a b = any (same_job b) (job_next a)

-- The trend's validation accepts its own status too.
unfoldable pub trend_may : TrendStatus → TrendStatus → Bool
trend_may a b = same_trend a b || any (same_trend b) (trend_next a)

-- PIPELINE_OPEN_STATUSES, PIPELINE_TERMINAL_STATUSES and TREND_OPEN_STATUSES
abbrev pub is_open_pipeline : PipelineStatus → Bool
is_open_pipeline PipelineStatus.pending_approval = true
is_open_pipeline PipelineStatus.approved = true
is_open_pipeline PipelineStatus.generating = true
is_open_pipeline PipelineStatus.previews_ready = true
is_open_pipeline PipelineStatus.partially_published = true
is_open_pipeline _ = false

abbrev pub is_terminal_pipeline : PipelineStatus → Bool
is_terminal_pipeline PipelineStatus.declined = true
is_terminal_pipeline PipelineStatus.closed = true
is_terminal_pipeline PipelineStatus.expired = true
is_terminal_pipeline _ = false

abbrev pub is_open_trend : TrendStatus → Bool
is_open_trend TrendStatus.detected = true
is_open_trend TrendStatus.dossier_building = true
is_open_trend TrendStatus.proposed = true
is_open_trend TrendStatus.approved = true
is_open_trend _ = false

pub data LifecycleError : Type 0 where
  human_required : LifecycleError
  bad_pipeline_move : PipelineStatus → PipelineStatus → LifecycleError
  bad_job_move : JobStatus → JobStatus → LifecycleError
  bad_trend_move : TrendStatus → TrendStatus → LifecycleError
  not_recoverable : PipelineStatus → LifecycleError
  unknown_content_types : List (List ℕ) → LifecycleError
  no_content_type : LifecycleError
  pipeline_not_found trend_not_found job_not_found : ℕ → LifecycleError
  already_open : ℕ → LifecycleError
  trend_not_open : TrendStatus → LifecycleError
  trend_suppressed : LifecycleError
  kill_switch_on : LifecycleError
  preview_not_approved : LifecycleError
  emaki_not_configured : LifecycleError
  emaki_wrong_brand : ℕ → LifecycleError

-- `_NON_HUMAN_ACTORS`
abbrev pub non_human : List String
non_human = "" ∷ "system" ∷ "orchestrator" ∷ "trend_scout" ∷ "scout" ∷ "scheduler" ∷ []

unfoldable pub is_non_human : String → Bool
is_non_human actor = is_one_of (lower (strip (codes actor))) non_human

-- CONTENT_TYPES
abbrev pub content_types : List String
content_types = "article" ∷ "social_post" ∷ "newsletter_blurb" ∷ "video_script" ∷ []

abbrev pub is_blank : List ℕ → Bool
is_blank [] = true
is_blank (c ∷ cs) = false

-- `[t.strip().lower() for t in types if t and t.strip()]`, as code points
abbrev pub cleaned : List String → List (List ℕ)
cleaned [] = []
cleaned (t ∷ ts) =
    let rest = cleaned ts in
    if is_blank (strip (codes t)) then rest else lower (strip (codes t)) ∷ rest

-- `list(dict.fromkeys(xs))`: each first occurrence.
abbrev pub dedup : List (List ℕ) → List (List ℕ)
dedup [] = []
dedup (x ∷ xs) = x ∷ keep (λ y. not (same_codes x y)) (dedup xs)

abbrev pub checked_types : List (List ℕ) → List (List ℕ) → Result LifecycleError (List (List ℕ))
checked_types (u ∷ us) cs = Result.err (unknown_content_types (u ∷ us))
checked_types [] [] = Result.err no_content_type
checked_types [] (c ∷ cs) = Result.ok (dedup (c ∷ cs))

unfoldable pub validate_content_types : List String → Result LifecycleError (List (List ℕ))
validate_content_types types =
    checked_types (keep (λ t. not (is_one_of t content_types)) (cleaned types)) (cleaned types)
