-- ===== src/Trends/Atomicity.antt =====
-- What is left of a call of `approve` (trends/repo.py) that raises.
use adam_abundance.Base.{ℕ, ◌≡◌, refl, String, true, false, Option, some, List, ◌∷◌, Result}
use adam_abundance.Base.Table.{find, find-put_key, key-find}
use adam_abundance.Trends.Lifecycle.{
  PipelineStatus, LifecycleError, pipeline_may, is_non_human, validate_content_types,
}
use adam_abundance.Trends.Rows.{Text, Pipeline, Db, pipeline_keyed}
use adam_abundance.Trends.PipelineRepo.{approve, with_approval}

-- A person's approval that asks for content types which do not validate raises, and yet the
-- pipeline that was found stands as approved in the session, by that person and at that time.
pub approve-invalid :
    (now i : ℕ) (by t : String) (ts : List String) (instructions : Option Text) (p : Pipeline)
    (s : Db) (x : LifecycleError)
    → is_non_human by ≡ false
    → find i s.pipelines ≡ some p
    → pipeline_may p.status PipelineStatus.approved ≡ true
    → validate_content_types (t ∷ ts) ≡ Result.err x
    → ((approve now i by (t ∷ ts) instructions s).0 ≡ Result.err x)
      × (find i (approve now i by (t ∷ ts) instructions s).1.pipelines
          ≡ some (with_approval now by p))
unfolding approve
approve-invalid now i by t ts instructions p s x h e m v =
    rw (h, e, m, v)
      (refl, find-put_key i (with_approval now by p) p s.pipelines e (key-find i p s.pipelines e))
