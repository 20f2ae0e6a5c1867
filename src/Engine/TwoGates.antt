-- ===== src/Engine/TwoGates.antt =====
-- What a published job has gone through.
use adam_abundance.Base.{
  ℕ, ◌≡◌, refl, sym, ap, ◌∙◌, String, false, not, some, inl, inr, Bool-cases, Option-cases, Result,
  ok, err,
}
use adam_abundance.Base.Table.{find, put, key-find}
use adam_abundance.Trends.Lifecycle.{JobStatus, same_job, is_terminal_pipeline, is_non_human}
use adam_abundance.Trends.Rows.{Pipeline, Job, job_keyed}
use adam_abundance.Trends.JobRepo.{pipeline_of}
use adam_abundance.Engine.Session.{Session, EngineError}
use adam_abundance.Engine.World.{World}
use adam_abundance.Engine.Publish.{publish_passed, publish_job}
use adam_abundance.Engine.PublishGates.{approved_only, publish_passed-Published}

module _ (w : World) where
  -- Who published, under which settings, and the job and the pipeline that were there.
  abbrev pub Passed : ℕ → String → Session → Job → Pipeline → Type 0
  Passed i actor s j p =
      (is_non_human actor ≡ false)
      × (w.kill_switch ≡ false)
      × (find i s.db.jobs ≡ some j)
      × (j.status ≡ JobStatus.approved)
      × (pipeline_of j s.db ≡ some p)
      × (is_terminal_pipeline p.status ≡ false)

  refused : {x : EngineError} {j : Job} → ◌≡◌ {A = Result EngineError Job} (err x) (ok j) → ⊥
  refused k = cc

  publish_job-Passed :
      (i : ℕ) (actor : String) (s : Session) (j' : Job)
      → (publish_job w i actor s).0 ≡ ok j'
      → (j : Job) × (p : Pipeline) × Passed i actor s j p
        × (publish_job w i actor s ≡ publish_passed w p j actor s)
  unfolding publish_job
  publish_job-Passed i actor s j' h = elim (Bool-cases (is_non_human actor)) [
    | inl b ↦ absurd (refused (rw b at h))
    | inr b ↦ elim (Bool-cases w.kill_switch) [
      | inl k ↦ absurd (refused (rw (b, k) at h))
      | inr k ↦ elim (Option-cases (find i s.db.jobs)) [
        | inl e ↦ absurd (refused (rw (b, k, e) at h))
        | inr (j, e) ↦ elim (Option-cases (pipeline_of j s.db)) [
          | inl q ↦ absurd (refused (rw (b, k, e, q) at h))
          | inr (p, q) ↦ elim (Bool-cases (is_terminal_pipeline p.status)) [
            | inl t ↦ absurd (refused (rw (b, k, e, q, t) at h))
            | inr t ↦ elim (Bool-cases (not (same_job j.status JobStatus.approved))) [
              | inl a ↦ absurd (refused (rw (b, k, e, q, t, a) at h))
              | inr a ↦
                  (j, p, (b, k, e, approved_only j.status a, q, t), rw (b, k, e, q, t, a) refl)
            ]
          ]
        ]
      ]
    ]
  ]

  same_row : (a b : Job) → some a ≡ some b → a ≡ b
  same_row a b h = cc

  -- A publication that returns was asked for by a person, with the kill switch off, of a job whose
  -- preview had been approved, in a pipeline that is not declined, closed or expired. The job is
  -- published, under that person's name; every other job is as it was.
  pub publish_job_lem :
      (i : ℕ) (actor : String) (s : Session) (j' : Job)
      → (publish_job w i actor s).0 ≡ ok j'
      → (j : Job) × (p : Pipeline) × Passed i actor s j p
        × (j'.status ≡ JobStatus.published)
        × (j'.reviewed_by ≡ some actor)
        × ((publish_job w i actor s).1.db.jobs ≡ put i j' s.db.jobs)
  publish_job_lem i actor s j' h =
      let (j, p, passed, eq) = publish_job-Passed i actor s j' h in
      let (result, j0, found, row, jobs) =
        publish_passed-Published w p j actor j' s (sym (ap (λ x. x.0) eq) ∙ h) in
      let at_id = key-find i j s.db.jobs passed.2 in
      let same = same_row j0 j (sym found ∙ ap (λ k. find k s.db.jobs) at_id ∙ passed.2) in
      let id = ap (λ x. x.id) row ∙ ap (λ x. x.id) same ∙ at_id in
      (
        j,
        p,
        passed,
        ap (λ x. x.status) row,
        ap (λ x. x.reviewed_by) row,
        ap (λ x. x.1.db.jobs) eq ∙ jobs ∙ ap (λ k. put k j' s.db.jobs) id,
      )
