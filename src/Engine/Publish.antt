-- ===== src/Engine/Publish.antt =====
-- `publish_job` and `_emaki_push` of trends/pipeline.py: the second human gate. The rows of
-- `tool_call_log` and what Slack is told are left out.
use adam_abundance.Base.{
  ℕ, String, Bool, true, false, not, ◌&&◌, Option, none, some, List, [], ◌∷◌, leb, if◌then◌else◌,
  str_eq, pure, raise, gets, ◌>>=◌, ◌>>◌,
}
use adam_abundance.Base.Table.{find}
use adam_abundance.Memory.Types.{EntryType, text, num, spelled, EntryDraft}
use adam_abundance.Memory.Store.{write}
use adam_abundance.Trends.Lifecycle.{
  JobStatus, PipelineStatus, TrendStatus, human_required, kill_switch_on, preview_not_approved,
  emaki_not_configured, emaki_wrong_brand, not_recoverable, job_not_found, is_non_human, same_job,
  is_terminal_pipeline,
}
use adam_abundance.Trends.Rows.{Pipeline, Job, pipeline_keyed}
use adam_abundance.Trends.Rollup.{refresh_rollup}
use adam_abundance.Trends.TrendRepo.{set_status as set_trend_status}
use adam_abundance.Trends.JobRepo.{
  Field, set_result_ref, set_reviewed, get_job, pipeline_of, mark_job,
}
use adam_abundance.Engine.Session.{crashed, Act, on_db, on_memory, or_refuse, refuse_if}
use adam_abundance.Engine.World.{World}
use adam_abundance.Engine.CostRollup.{roll_up_cost}
use adam_abundance.Engine.Worker.{engine_entry}

abbrev pub is_given : Option String → Bool
is_given none = false
is_given (some t) = not (str_eq t "")

abbrev pub is_published : PipelineStatus → Bool
is_published PipelineStatus.published = true
is_published PipelineStatus.partially_published = true
is_published _ = false

abbrev pub pushed : Option String → Act String
pushed none = raise (crashed "emaki-publish failed")
pushed (some accepted) = pure accepted

-- `raise_for_status`
abbrev pub crash_if : Bool → String → Act (Unit {0})
crash_if true e = raise (crashed e)
crash_if false e = pure tt

module _ (w : World) where
  -- The push runs under the session's active brand, so a refused change of brand ends it.
  unfoldable pub emaki_push : String → Option String → Act String
  emaki_push brand topic = do
    refuse_if
        (not (
          not (str_eq w.emaki.base "")
          && is_given w.emaki.email
          && is_given w.emaki.password
          && is_given topic))
        emaki_not_configured
    crash_if (not w.emaki.login) "login failed"
    refuse_if (leb 400 (w.emaki.active_brand brand))
        (emaki_wrong_brand (w.emaki.active_brand brand))
    pushed (elim topic [ none ↦ none | some t ↦ w.emaki.push t ])

  -- `(job.external_ref or {}).get("topic_id")`
  abbrev pub topic : Job → Option String
  topic j = elim j.external_ref [ none ↦ none | some r ↦ w.topic_of r ]

  -- The artifact that is handed off is the job's preview.
  unfoldable pub hand_off : Pipeline → Job → Act String
  unfolding emaki_push
  hand_off p j =
      if str_eq j.transport "hc_viral_hits" && is_given (topic j)
      then emaki_push p.brand (topic j)
      else pure "manual_handoff"

  unfoldable pub published_entry : Pipeline → Job → String → String → EntryDraft
  published_entry p j actor result = engine_entry EntryType.decision p.brand (
      ("kind", text "trend_content_published")
      ∷ ("pipeline_id", num p.id)
      ∷ ("job_id", num j.id)
      ∷ ("content_type", spelled j.content_type)
      ∷ ("approved_by", text actor)
      ∷ ("result", text result)
      ∷ [])

  abbrev pub complete_trend : Option ℕ → Act (Unit {0})
  complete_trend none = pure tt
  complete_trend (some t) = on_db (set_trend_status w.now t TrendStatus.completed)

  -- `pipeline` is the session's row, so its status is the one after the rollup.
  abbrev pub close_out : Option Pipeline → Act (Unit {0})
  close_out none = pure tt
  close_out (some p) =
      if is_published p.status then (do complete_trend p.trend_id; roll_up_cost w p.id) else pure tt

  abbrev pub publish_fields : String → String → List Field
  publish_fields actor result = set_result_ref (some result) ∷ set_reviewed actor w.now ∷ []

  -- From the hand-off on, for a job that has passed every gate.
  unfoldable pub publish_passed : Pipeline → Job → String → Act Job
  unfolding hand_off published_entry
  publish_passed p j actor = do
    result ← hand_off p j
    j' ← on_db (mark_job w.now j.id JobStatus.published (publish_fields actor result))
    on_memory (write w.ttls w.now false (published_entry p j' actor result))
    on_db (refresh_rollup w.now p.id)
    now_p ← gets (λ s. find p.id s.db.pipelines)
    close_out now_p
    pure j'

  unfoldable pub publish_job : ℕ → String → Act Job
  unfolding publish_passed
  publish_job i actor = do
    refuse_if (is_non_human actor) human_required
    refuse_if w.kill_switch kill_switch_on
    j ← on_db (get_job i)
    p' ← gets (λ s. pipeline_of j s.db)
    p ← or_refuse p' (job_not_found i)
    refuse_if (is_terminal_pipeline p.status) (not_recoverable p.status)
    refuse_if (not (same_job j.status JobStatus.approved)) preview_not_approved
    publish_passed p j actor
