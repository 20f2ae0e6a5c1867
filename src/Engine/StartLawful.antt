-- ===== src/Engine/StartLawful.antt =====
-- `approve_and_start` and `decline_pipeline` move statuses along the tables only.
use adam_abundance.Base.{
  ℕ, String, not, Option, none, some, List, [], ◌∷◌, inl, inr, Bool-cases, Option-cases,
}
use adam_abundance.Base.Along.{Preorder, Along, Keeps, Keeps-bind, Keeps-gets, Keeps-pure}
use adam_abundance.Base.Table.{find}
use adam_abundance.Trends.Lifecycle.{PipelineStatus, TrendStatus, is_open_trend, same_trend}
use adam_abundance.Trends.Rows.{ContentType, Text, Trend, pipeline_keyed}
use adam_abundance.Trends.PipelineRepo.{get_pipeline, approve, decline, set_status}
use adam_abundance.Trends.TrendRepo.{set_status as set_trend_status}
use adam_abundance.Trends.JobRepo.{add_job}
use adam_abundance.Trends.Lawful.{Lawful, Lawful-Preorder}
use adam_abundance.Trends.PipelineLawful.{approve-Lawful, decline-Lawful, set_status-Lawful}
use adam_abundance.Trends.JobLawful.{add_job-Lawful}
use adam_abundance.Engine.Personas.{pick_persona}
use adam_abundance.Engine.Session.{on_db}
use adam_abundance.Engine.World.{World, transport_for}
use adam_abundance.Engine.Start.{
  trend_of, check_trend, persona_id_of, add_jobs, start_trend, approve_and_start, decline_trend,
  decline_pipeline,
}
use adam_abundance.Engine.Lawful.{
  LawfulSession, LawfulSession-Preorder, Keeps-on_db, Keeps-best_effort, set_trend_status-Lawful,
  Keeps-refuse_if,
}

get_pipeline-Lawful : (i : ℕ) → Along Lawful (get_pipeline i)
get_pipeline-Lawful i s = elim (Option-cases (find i s.pipelines)) [
  | inl e ↦ rw e (Lawful-Preorder.same s)
  | inr (p, e) ↦ rw e (Lawful-Preorder.same s)
]

abbrev L : Preorder LawfulSession
L = LawfulSession-Preorder

check_trend-Lawful : (t : Option Trend) → Keeps LawfulSession (check_trend t)
check_trend-Lawful none = Keeps-pure L tt
check_trend-Lawful (some t) =
    Keeps-bind L (Keeps-refuse_if L (not (is_open_trend t.status)) _)
      λ _. Keeps-refuse_if L t.suppressed _

module _ (w : World) where
  add_jobs-Lawful :
      (i : ℕ) (persona : Option ℕ) (cts : List ContentType)
      → Keeps LawfulSession (add_jobs w i persona cts)
  unfolding add_jobs
  add_jobs-Lawful i persona [] = Keeps-pure L tt
  add_jobs-Lawful i persona (ct ∷ cts) =
      Keeps-bind L
        (Keeps-on_db Lawful (add_job w.now i ct (transport_for w.transports ct) none persona)
          (add_job-Lawful w.now i ct (transport_for w.transports ct) none persona))
        λ _. add_jobs-Lawful i persona cts

  start_trend-Lawful : (t : Option ℕ) → Keeps LawfulSession (start_trend w t)
  start_trend-Lawful none = Keeps-pure L tt
  start_trend-Lawful (some t) =
      Keeps-best_effort L (on_db (set_trend_status w.now t TrendStatus.approved)) (
        Keeps-on_db Lawful (set_trend_status w.now t TrendStatus.approved)
          (set_trend_status-Lawful w.now t TrendStatus.approved))

  pub approve_and_start-Lawful :
      (i : ℕ) (by : String) (asked : List String) (instructions : Option Text) (persona : Option ℕ)
      → Keeps LawfulSession (approve_and_start w i by asked instructions persona)
  unfolding approve_and_start
  approve_and_start-Lawful i by asked instructions persona =
      Keeps-bind L (Keeps-on_db Lawful (get_pipeline i) (get_pipeline-Lawful i)) λ found.
        Keeps-bind L (Keeps-gets L (λ s. trend_of found s.db)) λ trend.
          Keeps-bind L (check_trend-Lawful trend) λ _.
            Keeps-bind L
              (Keeps-on_db Lawful (approve w.now i by asked instructions)
                (approve-Lawful w.now i by asked instructions))
              λ p.
                Keeps-bind L (Keeps-gets L (λ s. pick_persona p.brand persona s.personas s.db.jobs))
                  λ chosen.
                    Keeps-bind L (add_jobs-Lawful p.id (persona_id_of chosen) p.content_types) λ _.
                      Keeps-bind L
                        (Keeps-on_db Lawful
                          (set_status w.now p.id PipelineStatus.generating by (some "jobs queued"))
                          (set_status-Lawful w.now p.id PipelineStatus.generating by
                            (some "jobs queued")))
                        λ _.
                          Keeps-bind L (start_trend-Lawful p.trend_id)
                            λ _. Keeps-on_db Lawful (get_pipeline p.id) (get_pipeline-Lawful p.id)

  decline_trend-Lawful : (t : Option Trend) → Keeps LawfulSession (decline_trend w t)
  decline_trend-Lawful none = Keeps-pure L tt
  decline_trend-Lawful (some t) = elim (Bool-cases (same_trend t.status TrendStatus.proposed)) [
    | inl b ↦ rw b (
        Keeps-on_db Lawful (set_trend_status w.now t.id TrendStatus.declined)
          (set_trend_status-Lawful w.now t.id TrendStatus.declined))
    | inr b ↦ rw b (Keeps-pure L tt)
  ]

  pub decline_pipeline-Lawful :
      (i : ℕ) (actor : String) (reason : Option String)
      → Keeps LawfulSession (decline_pipeline w i actor reason)
  unfolding decline_pipeline
  decline_pipeline-Lawful i actor reason =
      Keeps-bind L
        (Keeps-on_db Lawful (decline w.now i actor reason) (decline-Lawful w.now i actor reason))
        λ p.
          Keeps-bind L (Keeps-gets L (λ s. trend_of p s.db))
            λ (t : Option Trend). Keeps-bind L (decline_trend-Lawful t) λ _. Keeps-pure L p
