-- ===== src/Trends/Lawful.antt =====
-- What every method of `PipelineRepo` keeps to: rows stay, and statuses move along the tables.
use mathlib.Core.Path.{subst}
use adam_abundance.Base.{ℕ, ◌≡◌, refl, sym, ◌∙◌, some, List, map}
use adam_abundance.Base.Along.{Preorder}
use adam_abundance.Base.Table.{find, key-find, put}
use adam_abundance.Trends.Lifecycle.{pipeline_may, job_may}
use adam_abundance.Trends.Reach.{
  Reach, stay, Reach-trans, Evolves, Evolves-refl, Evolves-trans, Evolves-map, Evolves-put,
}
use adam_abundance.Trends.Rows.{Pipeline, Job, Db, pipeline_keyed, job_keyed, put_pipeline, put_job}

-- The same row, whose status has moved as the table allows, in several moves perhaps.
abbrev pub SamePipeline : Pipeline → Pipeline → Type 0
SamePipeline p p' = (p'.id ≡ p.id) × Reach pipeline_may p.status p'.status

abbrev pub SameJob : Job → Job → Type 0
SameJob j j' = (j'.id ≡ j.id) × Reach job_may j.status j'.status

pub SamePipeline-Preorder : Preorder SamePipeline
SamePipeline-Preorder = record {
  same = λ p. (refl, stay);
  then = λ a b c h k. (k.0 ∙ h.0, Reach-trans h.1 k.1);
}

pub SameJob-Preorder : Preorder SameJob
SameJob-Preorder = record {
  same = λ j. (refl, stay);
  then = λ a b c h k. (k.0 ∙ h.0, Reach-trans h.1 k.1);
}

abbrev pub Lawful : Db → Db → Type 0
Lawful s s' = Evolves SamePipeline s.pipelines s'.pipelines × Evolves SameJob s.jobs s'.jobs

pub same_pipelines : (ps : List Pipeline) → Evolves SamePipeline ps ps
same_pipelines = Evolves-refl SamePipeline-Preorder

pub same_jobs : (js : List Job) → Evolves SameJob js js
same_jobs = Evolves-refl SameJob-Preorder

pub Lawful-Preorder : Preorder Lawful
Lawful-Preorder = record {
  same = λ s. (same_pipelines s.pipelines, same_jobs s.jobs);
  then = λ a b c h k. (
    Evolves-trans SamePipeline-Preorder a.pipelines b.pipelines c.pipelines h.0 k.0,
    Evolves-trans SameJob-Preorder a.jobs b.jobs c.jobs h.1 k.1,
  );
}

pub put_pipeline-Lawful :
    (i : ℕ) (p p' : Pipeline) (s : Db)
    → find i s.pipelines ≡ some p
    → SamePipeline p p'
    → Lawful s (put_pipeline p' s)
put_pipeline-Lawful i p p' s e h = (
  subst (λ k. Evolves SamePipeline s.pipelines (put k p' s.pipelines))
      (sym (h.0 ∙ key-find i p s.pipelines e))
      (Evolves-put SamePipeline-Preorder i p p' s.pipelines e h),
  same_jobs s.jobs,
)

pub put_job-Lawful :
    (i : ℕ) (j j' : Job) (s : Db) → find i s.jobs ≡ some j → SameJob j j' → Lawful s (put_job j' s)
put_job-Lawful i j j' s e h = (
  same_pipelines s.pipelines,
  subst (λ k. Evolves SameJob s.jobs (put k j' s.jobs)) (sym (h.0 ∙ key-find i j s.jobs e))
      (Evolves-put SameJob-Preorder i j j' s.jobs e h),
)

pub map_jobs-Lawful :
    (f : Job → Job) (s : Db)
    → ((j : Job) → SameJob j (f j))
    → Lawful s (record s { jobs = map f s.jobs })
map_jobs-Lawful f s h = (same_pipelines s.pipelines, Evolves-map SameJob-Preorder f s.jobs h)
