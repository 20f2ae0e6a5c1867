-- ===== src/Engine/WorkerRules.antt =====
-- A relation between the trend tables that holds along the worker's turns, because it holds along
-- what a turn is made of.
use mathlib.Core.Path.{subst}
use adam_abundance.Base.{
  ℕ, ◌≡◌, refl, sym, false, not, Option, none, some, List, [], ◌∷◌, inl, inr, Bool-cases,
  Option-cases, Result, ok, err,
}
use adam_abundance.Base.Along.{Preorder, Along, Keeps, Keeps-bind, Keeps-pure}
use adam_abundance.Base.Table.{find, key-find}
use adam_abundance.Memory.Store.{write}
use adam_abundance.Trends.Lifecycle.{JobStatus, same_job}
use adam_abundance.Trends.Rows.{Trend, Pipeline, Job, Db, job_keyed, pipeline_keyed, put_job}
use adam_abundance.Trends.Rollup.{text_or, refresh_rollup}
use adam_abundance.Trends.JobRepo.{Field, set_error, set_external_ref, pipeline_of, mark_job}
use adam_abundance.Engine.Pay.{PipelineCost}
use adam_abundance.Engine.Session.{Session, EngineError, on_db, transaction}
use adam_abundance.Engine.World.{World, GenerationResult}
use adam_abundance.Engine.Start.{trend_of}
use adam_abundance.Engine.CostRollup.{written, record_pipeline_cost, roll_up_cost}
use adam_abundance.Engine.Worker.{
  or_ref, fail_with, pending_job, show_preview, on_generated, handled, generate, run_of_trend,
  run_of_pipeline, run_found, run_job, preview_fields, preview_entry, rollup_of_job, mark_failed,
  mark_failed_safely, settled, process_job, process_jobs, Tally, Outcome, count_outcome,
}
use adam_abundance.Engine.Lawful.{
  Within, Within-Preorder, Keeps-on_db, Keeps-on_memory, Keeps-transaction,
}

pub record Rules (R : Db → Db → Type 0) : Type 0 where
  pub order : Preorder R
  pub marks :
      (now i : ℕ) (st : JobStatus) (fields : List Field)
      → same_job st JobStatus.queued ≡ false
      → Along R (mark_job now i st fields)
  pub rolls : (now i : ℕ) → Along R (refresh_rollup now i)
  pub touches :
      (j j' : Job) (s : Db)
      → find j.id s.jobs ≡ some j
      → j'.id ≡ j.id
      → j'.status ≡ j.status
      → R s (put_job j' s)

written-db :
    (w : World) (s : Session) (cs : Option (List PipelineCost)) → (written w s cs).1.db ≡ s.db
written-db w s none = refl
written-db w s (some cs) = refl

-- The cost tables are not the trend tables.
pub roll_up_cost-db : (w : World) (i : ℕ) (s : Session) → (roll_up_cost w i s).1.db ≡ s.db
unfolding roll_up_cost record_pipeline_cost
roll_up_cost-db w i s = elim (Option-cases (find i s.db.pipelines)) [
  | inl e ↦ rw e refl
  | inr (p, e) ↦ rw e (written-db w s _)
]

module _ {R : Db → Db → Type 0} (rules : Rules R) (w : World) where
  abbrev P : Preorder (Within R)
  P = Within-Preorder rules.order

  rolled : (i : ℕ) → Keeps (Within R) (on_db (refresh_rollup w.now i))
  rolled i = Keeps-on_db R (refresh_rollup w.now i) (rules.rolls w.now i)

  marked :
      (i : ℕ) (st : JobStatus) (fields : List Field)
      → same_job st JobStatus.queued ≡ false
      → Keeps (Within R) (on_db (mark_job w.now i st fields))
  marked i st fields h =
      Keeps-on_db R (mark_job w.now i st fields) (rules.marks w.now i st fields h)

  pub roll_up_cost-Keeps : (i : ℕ) → Keeps (Within R) (roll_up_cost w i)
  roll_up_cost-Keeps i = record {
    along = λ s. subst (λ d. R s.db d) (sym (roll_up_cost-db w i s)) (rules.order.same s.db);
  }

  fail_with-Keeps :
      (j : Job) (p : Pipeline) (fields : List Field) → Keeps (Within R) (fail_with w j p fields)
  fail_with-Keeps j p fields =
      Keeps-bind P (marked j.id JobStatus.failed fields refl)
        λ _. Keeps-bind P (rolled p.id) λ _. Keeps-pure P Outcome.failed

  show_preview-Keeps :
      (j : Job) (p : Pipeline) (r : GenerationResult) → Keeps (Within R) (show_preview w j p r)
  show_preview-Keeps j p r =
      Keeps-bind P (marked j.id JobStatus.preview_ready (preview_fields w p j r) refl) λ (j' : Job).
        Keeps-bind P
          (Keeps-on_memory R rules.order (
            write w.ttls w.now false
              (preview_entry w p j' (w.put_text p j r.preview_markdown) r.preview_meta)))
          λ _.
            Keeps-bind P (roll_up_cost-Keeps p.id)
              λ _. Keeps-bind P (rolled p.id) λ _. Keeps-pure P Outcome.done

  -- A turn touches the row that it has read, which generation has not changed.
  on_generated-Keeps :
      (j : Job) (p : Pipeline) (r : GenerationResult) (s : Session)
      → find j.id s.db.jobs ≡ some j
      → R s.db (on_generated w j p r s).1.db
  on_generated-Keeps j p r s e = elim (Bool-cases r.pending) [
    | inl b ↦ rw b (rules.touches j (pending_job w j r) s.db e refl refl)
    | inr b ↦ elim (Bool-cases (not r.ok)) [
      | inl c ↦
          rw (b, c)
            ((fail_with-Keeps j p (
                set_error (some (text_or r.error "generation failed"))
                ∷ set_external_ref (or_ref r.external_ref j.external_ref)
                ∷ [])).along
              s)
      | inr c ↦ rw (b, c) ((show_preview-Keeps j p r).along s)
    ]
  ]

  run_of_trend-Keeps :
      (j : Job) (p : Pipeline) (t : Option Trend) (s : Session)
      → find j.id s.db.jobs ≡ some j
      → R s.db (run_of_trend w j p t s).1.db
  unfolding generate
  run_of_trend-Keeps j p none s e =
      (fail_with-Keeps j p (set_error (some "trend record missing") ∷ [])).along s
  run_of_trend-Keeps j p (some t) s e =
      let a = w.transport j.transport j p t s.governor in
      on_generated-Keeps j p (handled j a.0) (record s { governor = a.1 }) e

  run_of_pipeline-Keeps :
      (j : Job) (p : Option Pipeline) (s : Session)
      → find j.id s.db.jobs ≡ some j
      → R s.db (run_of_pipeline w j p s).1.db
  unfolding generate preview_entry roll_up_cost
  run_of_pipeline-Keeps j none s e = rules.order.same s.db
  run_of_pipeline-Keeps j (some p) s e = elim (Bool-cases w.kill_switch) [
    | inl b ↦ rw b (
        (fail_with-Keeps j p
            (set_error (some "kill switch is ON — generation refused (PRD §8)") ∷ [])).along
          s)
    | inr b ↦ rw b (run_of_trend-Keeps j p (trend_of p s.db) s e)
  ]

  run_job-Keeps : (i : ℕ) → Keeps (Within R) (run_job w i)
  unfolding run_job
  run_job-Keeps i = record { along = at }
    where
      at : (s : Session) → R s.db (run_found w (find i s.db.jobs) s).1.db
      at s = elim (Option-cases (find i s.db.jobs)) [
        | inl e ↦ rw e (rules.order.same s.db)
        | inr (j, e) ↦ rw e (
            run_of_pipeline-Keeps j (pipeline_of j s.db) s
              (subst (λ k. find k s.db.jobs ≡ some j) (sym (key-find i j s.db.jobs e)) e))
      ]

  rollup_of_job-Keeps : (p : Option ℕ) → Keeps (Within R) (rollup_of_job w p)
  rollup_of_job-Keeps none = Keeps-pure P tt
  rollup_of_job-Keeps (some p) = Keeps-bind P (rolled p) λ _. Keeps-pure P tt

  mark_failed_safely-Keeps :
      (i : ℕ) (x : EngineError) (s : Session) → R s.db (mark_failed_safely w i x s).db
  unfolding mark_failed_safely mark_failed
  mark_failed_safely-Keeps i x s =
      (Keeps-transaction P (
          Keeps-bind P (marked i JobStatus.failed (set_error (some (w.message x)) ∷ []) refl)
            λ (j : Job). rollup_of_job-Keeps j.pipeline_id)).along
        s

  settled-Keeps :
      (i : ℕ) (r : Result EngineError Outcome) (s0 s : Session)
      → R s0.db s.db
      → R s0.db (settled w i r s).1.db
  settled-Keeps i (ok o) s0 s h = h
  settled-Keeps i (err x) s0 s h =
      rules.order.then s0.db s.db (mark_failed_safely w i x s).db h (mark_failed_safely-Keeps i x s)

  pub process_job-Keeps : (i : ℕ) (s : Session) → R s.db (process_job w i s).1.db
  unfolding process_job
  process_job-Keeps i s =
      let a = transaction (run_job w i) s in
      settled-Keeps i a.0 s a.1 ((Keeps-transaction P (run_job-Keeps i)).along s)

pub process_jobs-Keeps :
    {R : Db → Db → Type 0} (rules : Rules R) (at : ℕ → World) (is : List ℕ) (t : Tally)
    (s : Session)
    → R s.db (process_jobs at is t s).1.db
unfolding process_jobs
process_jobs-Keeps rules at [] t s = rules.order.same s.db
process_jobs-Keeps rules at (i ∷ is) t s =
    let a = process_job (at i) i s in
    rules.order.then s.db a.1.db (process_jobs at is (count_outcome a.0 t) a.1).1.db
      (process_job-Keeps rules (at i) i s)
      (process_jobs-Keeps rules at is (count_outcome a.0 t) a.1)
