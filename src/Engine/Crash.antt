-- ===== src/Engine/Crash.antt =====
-- A turn of the sweep whose own transaction raises.
use mathlib.Core.Path.{subst}
use adam_abundance.Base.{ℕ, ◌≡◌, refl, sym, ap, ◌∙◌, true, Option, none, some, [], ◌∷◌, ok, err}
use adam_abundance.Base.Table.{find}
use adam_abundance.Trends.Lifecycle.{JobStatus, job_may}
use adam_abundance.Trends.Rows.{Job, Db, job_keyed, put_job}
use adam_abundance.Trends.JobRepo.{set_error, marked, mark_job}
use adam_abundance.Engine.Session.{Session, EngineError, commit, transaction}
use adam_abundance.Engine.World.{World}
use adam_abundance.Engine.Worker.{
  Outcome, run_job, rollup_of_job, mark_failed, mark_failed_safely, process_job,
}
use adam_abundance.Engine.Returns.{refresh_rollup-Returns}
use adam_abundance.Engine.RolledUp.{RolledUp, refresh_rollup-RolledUp}
use adam_abundance.Trends.Rollup.{refresh_rollup}

module _ (w : World) where
  -- The row of a job that failed with the error.
  abbrev pub failed_row : EngineError → Job → Job
  failed_row e j = marked w.now JobStatus.failed (set_error (some (w.message e)) ∷ []) j

  abbrev pub failed_in : EngineError → Job → Session → Session
  failed_in e j s = record s { db = put_job (failed_row e j) s.db }

  -- The session with a job's row failed, and the rollup of that job's pipeline.
  abbrev pub Failed : EngineError → Job → Session → Session → Type 0
  Failed e j s s' =
      (d : Db) × (s' ≡ record s { db = d }) × RolledUp w.now j.pipeline_id (failed_in e j s).db d

  rolled_back :
      (i : ℕ) (e : EngineError) (s : Session)
      → (run_job w i s).0 ≡ err e
      → transaction (run_job w i) s ≡ (err e, s)
  unfolding transaction
  rolled_back i e s h = ap (λ r. commit s r (run_job w i s).1) h

  marked_failed :
      (i : ℕ) (e : EngineError) (s : Session) (j : Job)
      → find i s.db.jobs ≡ some j
      → job_may j.status JobStatus.failed ≡ true
      → mark_failed w i e s ≡ rollup_of_job w (failed_row e j).pipeline_id (failed_in e j s)
  unfolding mark_failed mark_job
  marked_failed i e s j found m = rw (found, m) refl

  rollup_of_job-RolledUp :
      (p : Option ℕ) (u : Session)
      → ((rollup_of_job w p u).0 ≡ ok tt)
        × ((d : Db) × ((rollup_of_job w p u).1 ≡ record u { db = d }) × RolledUp w.now p u.db d)
  rollup_of_job-RolledUp none u = (refl, (u.db, refl, refl))
  rollup_of_job-RolledUp (some p) u =
      let (n, e) = refresh_rollup-Returns w.now p u.db in
      rw e (refl, ((refresh_rollup w.now p u.db).1, refl, refresh_rollup-RolledUp w.now p u.db))

  kept :
      (i : ℕ) (e : EngineError) (s : Session)
      → (mark_failed w i e s).0 ≡ ok tt
      → mark_failed_safely w i e s ≡ (mark_failed w i e s).1
  unfolding mark_failed_safely transaction
  kept i e s h = ap (λ r. (commit s r (mark_failed w i e s).1).1) h

  safely :
      (i : ℕ) (e : EngineError) (s : Session) (j : Job)
      → find i s.db.jobs ≡ some j
      → job_may j.status JobStatus.failed ≡ true
      → Failed e j s (mark_failed_safely w i e s)
  safely i e s j found m =
      let (returned, failed) = rollup_of_job-RolledUp j.pipeline_id (failed_in e j s) in
      let marks = marked_failed i e s j found m in
      subst (Failed e j s) (sym (kept i e s (ap (λ x. x.0) marks ∙ returned) ∙ ap (λ x. x.1) marks))
        failed

  -- Where a running job's transaction raises, everything that it wrote is gone: the turn counts as
  -- failed, and the session is the one before but for that one job's row, which is failed with the
  -- error, and the rollup of its pipeline. The rollup changes nothing, or it moves that pipeline by
  -- an allowed move, with the event of the move.
  pub process_job-crash :
      (i : ℕ) (e : EngineError) (s : Session) (j : Job)
      → (run_job w i s).0 ≡ err e
      → find i s.db.jobs ≡ some j
      → job_may j.status JobStatus.failed ≡ true
      → ((process_job w i s).0 ≡ Outcome.failed) × Failed e j s (process_job w i s).1
  unfolding process_job
  process_job-crash i e s j h found m = rw (rolled_back i e s h) (refl, safely i e s j found m)
