-- ===== src/Engine/RolledUp.antt =====
-- What a rollup (`PipelineRepo.refresh_rollup` of trends/repo.py) may change.
use adam_abundance.Base.{
  ℕ, ◌≡◌, refl, Bool, true, false, not, ◌||◌, ◌⊎◌, Option, none, some, List, [], ◌∷◌, map, keep,
  inl, inr, Bool-cases, Result, ok, err, pure, continue,
}
use adam_abundance.Base.Table.{find}
use adam_abundance.Trends.Lifecycle.{
  PipelineStatus, JobStatus, is_terminal_pipeline, same_pipeline, pipeline_may, LifecycleError,
}
use adam_abundance.Trends.Rows.{Pipeline, Db, pipeline_keyed, put_pipeline}
use adam_abundance.Trends.Rollup.{
  rollup_status, rolled, settle, rollup_of, rollup_found, refresh_rollup,
}
use adam_abundance.Trends.PipelineRepo.{is_job_of}

module _ (now : ℕ) where
  -- Nothing, or one allowed move of the pipeline.
  abbrev pub Moved : ℕ → Db → Db → Type 0
  Moved i d d' =
      (d' ≡ d)
      ⊎ ((p : Pipeline) × (new : PipelineStatus) × (find i d.pipelines ≡ some p)
          × (pipeline_may p.status new ≡ true)
          × (d' ≡ put_pipeline (rolled now new p) d))

  abbrev pub RolledUp : Option ℕ → Db → Db → Type 0
  RolledUp none d d' = d' ≡ d
  RolledUp (some i) d d' = Moved i d d'

  allowed : (a b : Bool) → (a || not b) ≡ false → b ≡ true
  allowed true b h = absurd (cc h)
  allowed false true h = refl
  allowed false false h = absurd (cc h)

  settle-Moved :
      (i : ℕ) (new : PipelineStatus) (p : Pipeline) (d : Db)
      → find i d.pipelines ≡ some p
      → Moved i d (settle now new p d).1
  settle-Moved i new p d found =
      elim (Bool-cases (same_pipeline new p.status || not (pipeline_may p.status new))) [
        | inl b ↦ rw b (inl refl)
        | inr b ↦ rw b (
            inr (
              p,
              new,
              found,
              allowed (same_pipeline new p.status) (pipeline_may p.status new) b,
              refl,
            ))
      ]

  rollup_of-Moved :
      (i : ℕ) (sts : List JobStatus) (p : Pipeline) (d : Db)
      → find i d.pipelines ≡ some p
      → Moved i d (rollup_of now sts p d).1
  rollup_of-Moved i [] p d found = inl refl
  rollup_of-Moved i (st ∷ sts) p d found = elim (Bool-cases (is_terminal_pipeline p.status)) [
    | inl b ↦ rw b (inl refl)
    | inr b ↦ rw b (settle-Moved i (rollup_status (st ∷ sts) p.status) p d found)
  ]

  wrapped :
      (i : ℕ) (d d' : Db) (r : Result LifecycleError PipelineStatus)
      → Moved i d d'
      → Moved i d (continue r (λ new. pure (some new)) d').1
  wrapped i d d' (ok new) h = h
  wrapped i d d' (err e) h = h

  rollup_found-Moved :
      (i : ℕ) (p : Option Pipeline) (d : Db)
      → find i d.pipelines ≡ p
      → Moved i d (rollup_found now i p d).1
  rollup_found-Moved i none d found = inl refl
  rollup_found-Moved i (some p) d found =
      let sts = map (λ j. j.status) (keep (λ j. is_job_of i j) d.jobs) in
      let r = rollup_of now sts p d in wrapped i d r.1 r.0 (rollup_of-Moved i sts p d found)

  pub refresh_rollup-RolledUp : (i : ℕ) (d : Db) → RolledUp (some i) d (refresh_rollup now i d).1
  unfolding refresh_rollup
  refresh_rollup-RolledUp i d = rollup_found-Moved i (find i d.pipelines) d refl
