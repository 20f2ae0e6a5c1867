-- ===== src/Engine/Start.antt =====
-- `approve_and_start` and `decline_pipeline` of trends/pipeline.py. What Slack is told changes no
-- row.
use adam_abundance.Base.{
  ℕ, String, not, Option, none, some, List, [], ◌∷◌, if◌then◌else◌, pure, gets, ◌>>=◌, ◌>>◌,
}
use adam_abundance.Base.Table.{find}
use adam_abundance.Trends.Lifecycle.{
  PipelineStatus, TrendStatus, trend_not_open, trend_suppressed, is_open_trend, same_trend,
}
use adam_abundance.Trends.Rows.{ContentType, Text, Trend, Pipeline, Db, trend_keyed, pipeline_keyed}
use adam_abundance.Trends.PipelineRepo.{get_pipeline, approve, decline, set_status}
use adam_abundance.Trends.TrendRepo.{set_status as set_trend_status}
use adam_abundance.Trends.JobRepo.{add_job}
use adam_abundance.Engine.Personas.{WriterPersona, pick_persona}
use adam_abundance.Engine.Session.{Act, on_db, best_effort, refuse_if}
use adam_abundance.Engine.World.{World, transport_for}

-- `pipeline.trend`
abbrev pub trend_of : Pipeline → Db → Option Trend
trend_of p s = elim p.trend_id [ none ↦ none | some t ↦ find t s.trends ]

-- The two gates on the trend: it must be open, and not suppressed.
abbrev pub check_trend : Option Trend → Act (Unit {0})
check_trend none = pure tt
check_trend (some t) = do
  refuse_if (not (is_open_trend t.status)) (trend_not_open t.status)
  refuse_if t.suppressed trend_suppressed

abbrev pub persona_id_of : Option WriterPersona → Option ℕ
persona_id_of none = none
persona_id_of (some p) = some p.id

module _ (w : World) where
  unfoldable pub add_jobs : ℕ → Option ℕ → List ContentType → Act (Unit {0})
  unfolding transport_for
  add_jobs i persona [] = pure tt
  add_jobs i persona (ct ∷ cts) = do
    on_db (add_job w.now i ct (transport_for w.transports ct) none persona)
    add_jobs i persona cts

  -- The trend follows; a `LifecycleError` of its own leaves it as it is.
  abbrev pub start_trend : Option ℕ → Act (Unit {0})
  start_trend none = pure tt
  start_trend (some t) = best_effort (on_db (set_trend_status w.now t TrendStatus.approved))

  -- The row that is returned is the one that the session holds.
  unfoldable pub approve_and_start :
      ℕ → String → List String → Option Text → Option ℕ → Act Pipeline
  unfolding add_jobs
  approve_and_start i approver asked instructions persona_id = do
    found ← on_db (get_pipeline i)
    trend ← gets (λ s. trend_of found s.db)
    check_trend trend
    p ← on_db (approve w.now i approver asked instructions)
    chosen ← gets (λ s. pick_persona p.brand persona_id s.personas s.db.jobs)
    add_jobs p.id (persona_id_of chosen) p.content_types
    on_db (set_status w.now p.id PipelineStatus.generating approver (some "jobs queued"))
    start_trend p.trend_id
    on_db (get_pipeline p.id)

  abbrev pub decline_trend : Option Trend → Act (Unit {0})
  decline_trend none = pure tt
  decline_trend (some t) =
      if same_trend t.status TrendStatus.proposed
      then on_db (set_trend_status w.now t.id TrendStatus.declined)
      else pure tt

  unfoldable pub decline_pipeline : ℕ → String → Option String → Act Pipeline
  decline_pipeline i actor reason = do
    p ← on_db (decline w.now i actor reason)
    trend ← gets (λ s. trend_of p s.db)
    decline_trend trend
    pure p
