-- ===== src/Engine/KillSwitch.antt =====
-- The kill switch over the engine: a turn of the worker generates nothing, and no job is published.
use adam_abundance.Base.{
  ℕ, ◌≡◌, refl, sym, ap, ◌∙◌, String, true, if◌then◌else◌, Option, none, some, List, [], ◌∷◌, inl,
  inr, Bool-cases, Result, ok, err, Exec, pure, gets, ◌>>=◌, ◌>>◌, bind-inv,
}
use adam_abundance.Base.Along.{Preorder, Keeps, Keeps-bind, Keeps-gets, Keeps-pure}
use adam_abundance.Base.Table.{find}
use adam_abundance.Governor.Budget.{Governor}
use adam_abundance.Trends.Lifecycle.{LifecycleError, JobStatus, is_non_human}
use adam_abundance.Trends.Rows.{Trend, Pipeline, Job, Db, job_keyed}
use adam_abundance.Trends.Rollup.{refresh_rollup}
use adam_abundance.Trends.JobRepo.{Field, set_error, pipeline_of, mark_job}
use adam_abundance.Engine.Session.{Session, EngineError, Act, on_result, on_db, commit, transaction}
use adam_abundance.Engine.World.{World, GenerationResult, Failure}
use adam_abundance.Engine.Start.{trend_of}
use adam_abundance.Engine.Worker.{
  Outcome, fail_with, run_of_trend, run_of_pipeline, run_found, run_job, mark_failed,
  mark_failed_safely, rollup_of_job, settled, process_job,
}
use adam_abundance.Engine.Publish.{publish_job}

abbrev SameGovernor : Session → Session → Type 0
SameGovernor s s' = s'.governor ≡ s.governor

G : Preorder SameGovernor
G = record { same = λ s. refl; then = λ a b c h k. k ∙ h }

on_result-governor :
    {A : Type 0} (s : Session) (r : Result LifecycleError A) (d : Db)
    → (on_result s r d).1.governor ≡ s.governor
on_result-governor s (ok a) d = refl
on_result-governor s (err e) d = refl

on_db-Keeps : {A : Type 0} (m : Exec Db LifecycleError A) → Keeps SameGovernor (on_db m)
on_db-Keeps m = record { along = λ s. on_result-governor s (m s.db).0 (m s.db).1 }

transaction-result : {A : Type 0} (m : Act A) (s : Session) → (transaction m s).0 ≡ (m s).0
unfolding transaction
transaction-result m s = committed (m s).0 (m s).1
  where
    committed : {A : Type 0} (r : Result EngineError A) (s' : Session) → (commit s r s').0 ≡ r
    committed (ok a) s' = refl
    committed (err e) s' = refl

commit-governor :
    {A : Type 0} (s : Session) (r : Result EngineError A) (s' : Session)
    → s'.governor ≡ s.governor
    → (commit s r s').1.governor ≡ s.governor
commit-governor s (ok a) s' h = h
commit-governor s (err e) s' h = refl

-- Where the action returns an outcome, it is `failed`.
abbrev Fails : Act Outcome → Type 0
Fails m = (s : Session) (o : Outcome) → (m s).0 ≡ ok o → o ≡ Outcome.failed

same_outcome :
    (o : Outcome)
    → ◌≡◌ {A = Result EngineError Outcome} (ok Outcome.failed) (ok o)
    → o ≡ Outcome.failed
same_outcome o h = cc

module _ (w : World) where
  refusal : List Field
  refusal = set_error (some "kill switch is ON — generation refused (PRD §8)") ∷ []

  -- A turn as the kill switch leaves it.
  refused_in : Job → Option Pipeline → Act Outcome
  unfolding refusal
  refused_in j none = pure Outcome.failed
  refused_in j (some p) = fail_with w j p refusal

  refused_found : Option Job → Act Outcome
  unfolding refused_in
  refused_found none = pure Outcome.failed
  refused_found (some j) = do p ← gets (λ s. pipeline_of j s.db); refused_in j p

  run_of_pipeline-killed :
      w.kill_switch ≡ true
      → (j : Job) (p : Option Pipeline) (s : Session) → run_of_pipeline w j p s ≡ refused_in j p s
  unfolding refused_in refusal
  run_of_pipeline-killed k j none s = refl
  run_of_pipeline-killed k j (some p) s =
      ap (λ b. (if b then fail_with w j p refusal else run_of_trend w j p (trend_of p s.db)) s) k

  run_job-killed :
      w.kill_switch ≡ true
      → (i : ℕ) (s : Session) → run_job w i s ≡ refused_found (find i s.db.jobs) s
  unfolding run_job refused_found
  run_job-killed k i s = found (find i s.db.jobs)
    where
      found : (j : Option Job) → run_found w j s ≡ refused_found j s
      found none = refl
      found (some j) = run_of_pipeline-killed k j (pipeline_of j s.db) s

  fail_with-Fails : (j : Job) (p : Pipeline) (fields : List Field) → Fails (fail_with w j p fields)
  fail_with-Fails j p fields s o h =
      let (j', e, h') =
        bind-inv (on_db (mark_job w.now j.id JobStatus.failed fields))
          (λ _. on_db (refresh_rollup w.now p.id) >> pure Outcome.failed) s o h in
      let (st, e', h'') =
        bind-inv (on_db (refresh_rollup w.now p.id)) (λ _. pure Outcome.failed)
          (on_db (mark_job w.now j.id JobStatus.failed fields) s).1 o h' in
      same_outcome o h''

  refused_found-Fails : (j : Option Job) → Fails (refused_found j)
  unfolding refused_found refused_in refusal
  refused_found-Fails none s o h = same_outcome o h
  refused_found-Fails (some j) s o h = of_pipeline (pipeline_of j s.db) h
    where
      of_pipeline : (p : Option Pipeline) → (refused_in j p s).0 ≡ ok o → o ≡ Outcome.failed
      of_pipeline none e = same_outcome o e
      of_pipeline (some p) e = fail_with-Fails j p refusal s o e

  refused_in-Keeps : (j : Job) (p : Option Pipeline) → Keeps SameGovernor (refused_in j p)
  unfolding refused_in
  refused_in-Keeps j none = Keeps-pure G Outcome.failed
  refused_in-Keeps j (some p) =
      Keeps-bind G (on_db-Keeps (mark_job w.now j.id JobStatus.failed refusal))
        λ _. Keeps-bind G (on_db-Keeps (refresh_rollup w.now p.id)) λ _. Keeps-pure G Outcome.failed

  refused_found-Keeps : (j : Option Job) → Keeps SameGovernor (refused_found j)
  unfolding refused_found
  refused_found-Keeps none = Keeps-pure G Outcome.failed
  refused_found-Keeps (some j) =
      Keeps-bind G (Keeps-gets G (λ s. pipeline_of j s.db))
        λ (p : Option Pipeline). refused_in-Keeps j p

  rollup_of_job-Keeps : (p : Option ℕ) → Keeps SameGovernor (rollup_of_job w p)
  rollup_of_job-Keeps none = Keeps-pure G tt
  rollup_of_job-Keeps (some p) =
      Keeps-bind G (on_db-Keeps (refresh_rollup w.now p)) λ _. Keeps-pure G tt

  mark_failed-Keeps : (i : ℕ) (e : EngineError) → Keeps SameGovernor (mark_failed w i e)
  unfolding mark_failed
  mark_failed-Keeps i e =
      Keeps-bind G
        (on_db-Keeps (mark_job w.now i JobStatus.failed (set_error (some (w.message e)) ∷ [])))
        λ (j : Job). rollup_of_job-Keeps j.pipeline_id

  settled-failed :
      (i : ℕ) (r : Result EngineError Outcome) (s : Session)
      → ((o : Outcome) → r ≡ ok o → o ≡ Outcome.failed)
      → (settled w i r s).0 ≡ Outcome.failed
  settled-failed i (ok o) s h = h o refl
  settled-failed i (err e) s h = refl

  settled-governor :
      (i : ℕ) (r : Result EngineError Outcome) (s0 s : Session)
      → s.governor ≡ s0.governor
      → (settled w i r s).1.governor ≡ s0.governor
  unfolding mark_failed_safely transaction
  settled-governor i (ok o) s0 s h = h
  settled-governor i (err e) s0 s h =
      commit-governor s (mark_failed w i e s).0 (mark_failed w i e s).1
        ((mark_failed-Keeps i e).along s)
      ∙ h

  -- The turn as a function of what the job's own action gives.
  turn_of : ℕ → Session → Result EngineError Outcome × Session → Outcome × Session
  turn_of i s x = let (r, s') = commit s x.0 x.1 in settled w i r s'

  process_job-turn_of : (i : ℕ) (s : Session) → process_job w i s ≡ turn_of i s (run_job w i s)
  unfolding process_job turn_of transaction
  process_job-turn_of i s = refl

  refused_turn : ℕ → Session → Outcome × Session
  refused_turn i s = turn_of i s (refused_found (find i s.db.jobs) s)

  process_job-killed :
      w.kill_switch ≡ true → (i : ℕ) (s : Session) → process_job w i s ≡ refused_turn i s
  unfolding refused_turn
  process_job-killed k i s =
      process_job-turn_of i s ∙ ap (λ x. turn_of i s x) (run_job-killed k i s)

  committed-result :
      (s : Session) (r : Result EngineError Outcome) (s' : Session) → (commit s r s').0 ≡ r
  committed-result s (ok a) s' = refl
  committed-result s (err e) s' = refl

  refused_turn-failed : (i : ℕ) (s : Session) → (refused_turn i s).0 ≡ Outcome.failed
  unfolding refused_turn turn_of
  refused_turn-failed i s =
      let x = refused_found (find i s.db.jobs) s in
      settled-failed i (commit s x.0 x.1).0 (commit s x.0 x.1).1
        λ o h. refused_found-Fails (find i s.db.jobs) s o (sym (committed-result s x.0 x.1) ∙ h)

  refused_turn-governor : (i : ℕ) (s : Session) → (refused_turn i s).1.governor ≡ s.governor
  unfolding refused_turn turn_of
  refused_turn-governor i s =
      let x = refused_found (find i s.db.jobs) s in
      settled-governor i (commit s x.0 x.1).0 s (commit s x.0 x.1).1
        (commit-governor s x.0 x.1 ((refused_found-Keeps (find i s.db.jobs)).along s))

  -- Publishing under the kill switch changes nothing.
  publish_job-killed :
      w.kill_switch ≡ true
      → (i : ℕ) (actor : String) (s : Session) → (publish_job w i actor s).1 ≡ s
  unfolding publish_job
  publish_job-killed k i actor s = elim (Bool-cases (is_non_human actor)) [
    | inl b ↦ rw b refl
    | inr b ↦ rw (b, k) refl
  ]

-- The world with other generators.
abbrev pub Transport : Type 0
Transport = String → Job → Pipeline → Trend → Governor → Result Failure GenerationResult × Governor

abbrev pub with_transport : Transport → World → World
with_transport t w = record w { transport = t }

refused_turn-transport :
    (t : Transport) (w : World) (i : ℕ) (s : Session)
    → refused_turn (with_transport t w) i s ≡ refused_turn w i s
unfolding refused_turn turn_of refused_found refused_in refusal mark_failed_safely mark_failed
refused_turn-transport t w i s = refl

-- While the kill switch is on, a turn of the worker counts as failed, spends nothing and remembers
-- nothing, and comes out the same whatever the generators would do; and publishing changes
-- nothing.
pub kill_switch_lem :
    (w : World) (i : ℕ) (actor : String) (s : Session)
    → w.kill_switch ≡ true
    → ((process_job w i s).0 ≡ Outcome.failed)
      × ((process_job w i s).1.governor ≡ s.governor)
      × ((t : Transport) → process_job (with_transport t w) i s ≡ process_job w i s)
      × ((publish_job w i actor s).1 ≡ s)
kill_switch_lem w i actor s k = (
  ap (λ x. x.0) (process_job-killed w k i s) ∙ refused_turn-failed w i s,
  ap (λ x. x.1.governor) (process_job-killed w k i s) ∙ refused_turn-governor w i s,
  λ t.
      process_job-killed (with_transport t w) k i s
      ∙ refused_turn-transport t w i s
      ∙ sym (process_job-killed w k i s),
  publish_job-killed w k i actor s,
)
