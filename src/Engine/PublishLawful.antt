-- ===== src/Engine/PublishLawful.antt =====
-- The publish gate moves statuses along the tables only.
use adam_abundance.Base.{
  ℕ, String, false, not, Option, none, some, inl, inr, Bool-cases, Option-cases,
}
use adam_abundance.Base.Along.{Preorder, Along, Keeps, Keeps-bind, Keeps-gets, Keeps-pure}
use adam_abundance.Base.Table.{find}
use adam_abundance.Memory.Store.{write}
use adam_abundance.Trends.Lifecycle.{
  JobStatus, TrendStatus, same_job, is_terminal_pipeline, is_non_human, not_recoverable,
  job_not_found, preview_not_approved,
}
use adam_abundance.Trends.Reach.{stay}
use adam_abundance.Trends.Rows.{Pipeline, Job, job_keyed, pipeline_keyed}
use adam_abundance.Trends.TrendRepo.{set_status as set_trend_status}
use adam_abundance.Trends.Rollup.{refresh_rollup}
use adam_abundance.Trends.JobRepo.{mark_job, get_job, pipeline_of}
use adam_abundance.Trends.Lawful.{Lawful, Lawful-Preorder, put_job-Lawful}
use adam_abundance.Trends.PipelineLawful.{refresh_rollup-Lawful}
use adam_abundance.Trends.JobLawful.{mark_job-Lawful}
use adam_abundance.Engine.World.{World}
use adam_abundance.Engine.Publish.{
  published_entry, complete_trend, is_published, close_out, publish_fields, publish_passed,
  publish_job,
}
use adam_abundance.Engine.Lawful.{
  LawfulSession, LawfulSession-Preorder, Keeps-on_db, Keeps-on_memory, Keeps-refuse_if,
  set_trend_status-Lawful,
}
use adam_abundance.Engine.WorkerRules.{Rules, roll_up_cost-Keeps}
use adam_abundance.Engine.HandOff.{or_refuse-Keeps, hand_off-Keeps}

pub Lawful-Rules : Rules Lawful
Lawful-Rules = record {
  order = Lawful-Preorder;
  marks = λ now i st fields h. mark_job-Lawful now i st fields;
  rolls = refresh_rollup-Lawful;
  touches = λ j j' s e h k. put_job-Lawful j.id j j' s e (h, rw k stay);
}

abbrev L : Preorder LawfulSession
L = LawfulSession-Preorder

get_job-Lawful : (i : ℕ) → Along Lawful (get_job i)
get_job-Lawful i s = elim (Option-cases (find i s.jobs)) [
  | inl e ↦ rw e (Lawful-Preorder.same s)
  | inr (j, e) ↦ rw e (Lawful-Preorder.same s)
]

module _ (w : World) where
  complete_trend-Lawful : (t : Option ℕ) → Keeps LawfulSession (complete_trend w t)
  complete_trend-Lawful none = Keeps-pure L tt
  complete_trend-Lawful (some t) =
      Keeps-on_db Lawful (set_trend_status w.now t TrendStatus.completed)
        (set_trend_status-Lawful w.now t TrendStatus.completed)

  close_out-Lawful : (p : Option Pipeline) → Keeps LawfulSession (close_out w p)
  close_out-Lawful none = Keeps-pure L tt
  close_out-Lawful (some p) = elim (Bool-cases (is_published p.status)) [
    | inl b ↦ rw b (
        Keeps-bind L (complete_trend-Lawful p.trend_id) λ _. roll_up_cost-Keeps Lawful-Rules w p.id)
    | inr b ↦ rw b (Keeps-pure L tt)
  ]

  publish_passed-Lawful :
      (p : Pipeline) (j : Job) (actor : String) → Keeps LawfulSession (publish_passed w p j actor)
  unfolding publish_passed
  publish_passed-Lawful p j actor = Keeps-bind L (hand_off-Keeps L w p j) λ (result : String).
      Keeps-bind L
        (Keeps-on_db Lawful
          (mark_job w.now j.id JobStatus.published (publish_fields w actor result))
          (mark_job-Lawful w.now j.id JobStatus.published (publish_fields w actor result)))
        λ (j' : Job).
          Keeps-bind L
            (Keeps-on_memory Lawful Lawful-Preorder
              (write w.ttls w.now false (published_entry w p j' actor result)))
            λ _.
              Keeps-bind L
                (Keeps-on_db Lawful (refresh_rollup w.now p.id) (refresh_rollup-Lawful w.now p.id))
                λ _.
                  Keeps-bind L (Keeps-gets L (λ s. find p.id s.db.pipelines))
                    λ (p' : Option Pipeline).
                      Keeps-bind L (close_out-Lawful p') λ _. Keeps-pure L j'

  pub publish_job-Lawful : (i : ℕ) (actor : String) → Keeps LawfulSession (publish_job w i actor)
  unfolding publish_job
  publish_job-Lawful i actor = Keeps-bind L (Keeps-refuse_if L (is_non_human actor) _) λ _.
      Keeps-bind L (Keeps-refuse_if L w.kill_switch _) λ _.
        Keeps-bind L (Keeps-on_db Lawful (get_job i) (get_job-Lawful i)) λ (j : Job).
          Keeps-bind L (Keeps-gets L (λ s. pipeline_of j s.db)) λ (p' : Option Pipeline).
            Keeps-bind L (or_refuse-Keeps L p' (job_not_found i)) λ (p : Pipeline).
              Keeps-bind L
                (Keeps-refuse_if L (is_terminal_pipeline p.status) (not_recoverable p.status))
                λ _.
                  Keeps-bind L
                    (Keeps-refuse_if L (not (same_job j.status JobStatus.approved))
                      preview_not_approved)
                    λ _. publish_passed-Lawful p j actor
