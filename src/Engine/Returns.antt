-- ===== src/Engine/Returns.antt =====
-- Actions that return, whatever the state: a rollup, the reaper, the sweep's claim.
use adam_abundance.Base.{
  ℕ, ◌≡◌, refl, Bool, not, ◌||◌, Option, none, some, List, [], ◌∷◌, map, keep, length, inl, inr,
  Bool-cases, ok, Exec, pure, ◌>>=◌, bind-ok, ◌∙◌, ap,
}
use adam_abundance.Base.Table.{find}
use adam_abundance.Trends.Lifecycle.{
  PipelineStatus, JobStatus, is_terminal_pipeline, same_pipeline, pipeline_may,
}
use adam_abundance.Trends.Rows.{Pipeline, pipeline_keyed}
use adam_abundance.Trends.Rollup.{rollup_status, settle, rollup_of, rollup_found, refresh_rollup}
use adam_abundance.Trends.JobRepo.{rollup_all, reap_dead_running, is_dead, reap_if, distinct_ids}
use adam_abundance.Trends.PipelineRepo.{is_job_of}

abbrev pub Returns : {S E A : Type 0} → Exec S E A → Type 0
Returns {S} {E} {A} m = (s : S) → (a : A) × ((m s).0 ≡ ok a)

module _ {S E A B : Type 0} where
  pub Returns-bind_at :
      (m : Exec S E A) (f : A → Exec S E B) (s : S) (a : A)
      → (m s).0 ≡ ok a
      → (b : B) × ((f a (m s).1).0 ≡ ok b)
      → (b : B) × (((m >>= f) s).0 ≡ ok b)
  Returns-bind_at m f s a h k = (k.0, ap (λ r. r.0) (bind-ok m f s a h) ∙ k.1)

  pub Returns-bind :
      (m : Exec S E A) (f : A → Exec S E B)
      → Returns m
      → ((a : A) → Returns (f a))
      → Returns (m >>= f)
  Returns-bind m f h k s = Returns-bind_at m f s (h s).0 (h s).1 (k (h s).0 (m s).1)

module _ (now : ℕ) where
  settle-Returns : (new : PipelineStatus) (p : Pipeline) → Returns (settle now new p)
  settle-Returns new p s =
      elim (Bool-cases (same_pipeline new p.status || not (pipeline_may p.status new))) [
        | inl b ↦ rw b (p.status, refl)
        | inr b ↦ rw b (new, refl)
      ]

  rollup_of-Returns : (sts : List JobStatus) (p : Pipeline) → Returns (rollup_of now sts p)
  rollup_of-Returns [] p s = (p.status, refl)
  rollup_of-Returns (st ∷ sts) p s = elim (Bool-cases (is_terminal_pipeline p.status)) [
    | inl b ↦ rw b (p.status, refl)
    | inr b ↦ rw b (settle-Returns (rollup_status (st ∷ sts) p.status) p s)
  ]

  rollup_found-Returns : (i : ℕ) (p : Option Pipeline) → Returns (rollup_found now i p)
  rollup_found-Returns i none s = (none, refl)
  rollup_found-Returns i (some p) s =
      let sts = map (λ j. j.status) (keep (λ j. is_job_of i j) s.jobs) in
      Returns-bind (rollup_of now sts p) (λ new. pure (some new)) (rollup_of-Returns sts p)
        (λ new u. (some new, refl)) s

  pub refresh_rollup-Returns : (i : ℕ) → Returns (refresh_rollup now i)
  unfolding refresh_rollup
  refresh_rollup-Returns i s = rollup_found-Returns i (find i s.pipelines) s

  module _ (locked : ℕ → Bool) where
    rollup_all-Returns : (is : List ℕ) → Returns (rollup_all now locked is)
    rollup_all-Returns [] s = (tt, refl)
    rollup_all-Returns (i ∷ is) s =
        Returns-bind (refresh_rollup now i) (λ _. rollup_all now locked is)
          (refresh_rollup-Returns i) (λ _. rollup_all-Returns is) s

    pub reap_dead_running-Returns : (cutoff : ℕ) → Returns (reap_dead_running now locked cutoff)
    unfolding reap_dead_running
    reap_dead_running-Returns cutoff s =
        let dead = keep (is_dead now locked cutoff) s.jobs in
        Returns-bind (rollup_all now locked (distinct_ids (map (λ j. j.pipeline_id) dead)))
          (λ _. pure (length dead)) (rollup_all-Returns _) (λ _ u. (length dead, refl))
          (record s { jobs = map (reap_if now locked cutoff) s.jobs })
