-- ===== src/Engine/Worker.antt =====
-- The job worker of trends/pipeline.py, and the dispatch of trends/generators.py by which it
-- drafts: what a transport does is the world's.
use adam_abundance.Base.{
  ℕ, zero, suc, String, Bool, false, not, Option, none, some, List, [], ◌∷◌, ◌++◌, ◌-◌, ◌+◌, length,
  if◌then◌else◌, Result, pure, gets, modify, ◌>>=◌, ◌>>◌,
}
use adam_abundance.Base.Table.{find}
use adam_abundance.Memory.Types.{EntryType, text, num, spelled, Payload, EntryDraft}
use adam_abundance.Memory.Store.{write}
use adam_abundance.Trends.Lifecycle.{JobStatus}
use adam_abundance.Trends.Rows.{Trend, Pipeline, Job, job_keyed, put_job}
use adam_abundance.Trends.Rollup.{text_or, refresh_rollup}
use adam_abundance.Trends.JobRepo.{
  Field, set_error, set_external_ref, set_preview, set_cost, pipeline_of, mark_job, claim_queued,
  claim_stuck_running, reap_dead_running,
}
use adam_abundance.Engine.Session.{
  Session, EngineError, Act, on_db, on_rows, on_memory, transaction,
}
use adam_abundance.Engine.World.{World, GenerationResult, Failure, unavailable, broken}
use adam_abundance.Engine.Start.{trend_of}
use adam_abundance.Engine.CostRollup.{roll_up_cost}

pub data Outcome : Type 0 where
  done pending failed : Outcome

-- `a or b` of two references.
abbrev pub or_ref : Option String → Option String → Option String
or_ref none b = b
or_ref (some a) b = some a

-- What `generate` makes of an exception; the message stands for the source's, which names the
-- transport in front of it.
abbrev pub ungenerated : String → Option String → GenerationResult
ungenerated e external_ref = record {
  ok = false;
  pending = false;
  preview_markdown = "";
  preview_meta = "{}";
  external_ref = external_ref;
  cost_micros = 0;
  error = some e;
}

abbrev pub handled : Job → Result Failure GenerationResult → GenerationResult
handled j (Result.ok r) = r
handled j (Result.err (unavailable e)) = ungenerated e none
handled j (Result.err (broken e)) = ungenerated e j.external_ref

abbrev pub cost_of : ℕ → Option ℕ
cost_of zero = none
cost_of (suc n) = some (suc n)

abbrev pub artifact_ref : Option String → Payload
artifact_ref none = []
artifact_ref (some r) = ("artifact_ref", text r) ∷ []

abbrev pub engine_entry : EntryType → String → Payload → EntryDraft
engine_entry type brand payload = record {
  type = type;
  brand = brand;
  source_agent = "trend_pipeline";
  source_system = some "trend_pipeline";
  payload = payload;
  verified = false;
  confidence = none;
  source_urls = none;
  expires_at = none;
  ttl_seconds = none;
  status = none;
}

module _ (w : World) where
  unfoldable pub generate : Job → Pipeline → Trend → Act GenerationResult
  generate j p t s =
      let (r, g) = w.transport j.transport j p t s.governor in
      (Result.ok (handled j r), record s { governor = g })

  -- A job that is marked as failed, and its pipeline's status after it.
  abbrev pub fail_with : Job → Pipeline → List Field → Act Outcome
  fail_with j p fields = do
    on_db (mark_job w.now j.id JobStatus.failed fields)
    on_db (refresh_rollup w.now p.id)
    pure Outcome.failed

  abbrev pub pending_job : Job → GenerationResult → Job
  pending_job j r = record j {
    external_ref = or_ref r.external_ref j.external_ref;
    updated_at = w.now;
  }

  abbrev pub keep_pending : Job → GenerationResult → Act Outcome
  keep_pending j r = do
    modify (λ s. record s { db = put_job (pending_job j r) s.db })
    pure Outcome.pending

  unfoldable pub preview_entry : Pipeline → Job → Option String → String → EntryDraft
  preview_entry p j ref meta = engine_entry EntryType.distribution_draft p.brand (
      ("kind", text "trend_content_draft")
      ∷ ("pipeline_id", num p.id)
      ∷ ("job_id", num j.id)
      ∷ ("content_type", spelled j.content_type)
      ∷ ("attempt", num j.attempt)
      ∷ ("title", text (w.read_meta meta).title)
      ∷ ("status", text "preview_ready")
      ∷ artifact_ref ref)

  abbrev pub preview_fields : Pipeline → Job → GenerationResult → List Field
  preview_fields p j r =
      set_preview (w.put_text p j r.preview_markdown) (some r.preview_meta)
      ∷ set_external_ref (or_ref r.external_ref j.external_ref)
      ∷ set_cost (cost_of r.cost_micros)
      ∷ set_error none
      ∷ []

  abbrev pub show_preview : Job → Pipeline → GenerationResult → Act Outcome
  show_preview j p r = do
    j' ← on_db (mark_job w.now j.id JobStatus.preview_ready (preview_fields p j r))
    on_memory (
        write w.ttls w.now false
          (preview_entry p j' (w.put_text p j r.preview_markdown) r.preview_meta))
    roll_up_cost w p.id
    on_db (refresh_rollup w.now p.id)
    pure Outcome.done

  abbrev pub on_generated : Job → Pipeline → GenerationResult → Act Outcome
  on_generated j p r =
      if r.pending
      then keep_pending j r
      else if not r.ok
      then fail_with j p (
          set_error (some (text_or r.error "generation failed"))
          ∷ set_external_ref (or_ref r.external_ref j.external_ref)
          ∷ [])
      else show_preview j p r

  abbrev pub run_of_trend : Job → Pipeline → Option Trend → Act Outcome
  run_of_trend j p none = fail_with j p (set_error (some "trend record missing") ∷ [])
  run_of_trend j p (some t) = do r ← generate j p t; on_generated j p r

  abbrev pub run_of_pipeline : Job → Option Pipeline → Act Outcome
  run_of_pipeline j none = pure Outcome.failed
  run_of_pipeline j (some p) = do
    t ← gets (λ s. trend_of p s.db)
    (if w.kill_switch
        then fail_with j p (set_error (some "kill switch is ON — generation refused (PRD §8)") ∷ [])
        else run_of_trend j p t)

  abbrev pub run_found : Option Job → Act Outcome
  run_found none = pure Outcome.failed
  run_found (some j) = do p ← gets (λ s. pipeline_of j s.db); run_of_pipeline j p

  unfoldable pub run_job : ℕ → Act Outcome
  unfolding generate preview_entry
  run_job i = do found ← gets (λ s. find i s.db.jobs); run_found found

  abbrev pub rollup_of_job : Option ℕ → Act (Unit {0})
  rollup_of_job none = pure tt
  rollup_of_job (some p) = do on_db (refresh_rollup w.now p); pure tt

  unfoldable pub mark_failed : ℕ → EngineError → Act (Unit {0})
  mark_failed i e = do
    j ← on_db (mark_job w.now i JobStatus.failed (set_error (some (w.message e)) ∷ []))
    rollup_of_job j.pipeline_id

  -- In a transaction of its own; if that raises, the job is left to the reaper.
  unfoldable pub mark_failed_safely : ℕ → EngineError → Session → Session
  unfolding mark_failed transaction
  mark_failed_safely i e s = (transaction (mark_failed i e) s).1

  abbrev pub settled : ℕ → Result EngineError Outcome → Session → Outcome × Session
  settled i (Result.ok o) s = (o, s)
  settled i (Result.err e) s = (Outcome.failed, mark_failed_safely i e s)

  -- One turn of the sweep's loop: the job's own transaction, and what follows a crash.
  unfoldable pub process_job : ℕ → Session → Outcome × Session
  unfolding run_job transaction mark_failed_safely
  process_job i s = let (r, s') = transaction (run_job i) s in settled i r s'

  -- The transaction in which the sweep claims its jobs. A time before the first second is cut off
  -- at 0, and no row is older than either.
  unfoldable pub claim_jobs : (ℕ → Bool) → ℕ → Act (List ℕ)
  claim_jobs locked limit = do
    ids ← on_rows (claim_queued w.now locked limit)
    stuck ← on_rows (claim_stuck_running w.now locked (w.now - 300) (limit - length ids))
    on_db (reap_dead_running w.now locked (w.now - 1800))
    pure (ids ++ stuck)

pub record Tally : Type 0 where
  pub done : ℕ
  pub pending : ℕ
  pub failed : ℕ

abbrev pub count_outcome : Outcome → Tally → Tally
count_outcome Outcome.done t = record t { done = t.done + 1 }
count_outcome Outcome.pending t = record t { pending = t.pending + 1 }
count_outcome Outcome.failed t = record t { failed = t.failed + 1 }

-- The loop over the claimed jobs; each job meets the world as it then is.
unfoldable pub process_jobs : (ℕ → World) → List ℕ → Tally → Session → Tally × Session
unfolding process_job
process_jobs at [] t s = (t, s)
process_jobs at (i ∷ is) t s =
    let (o, s') = process_job (at i) i s in process_jobs at is (count_outcome o t) s'

abbrev pub no_outcomes : Tally
no_outcomes = record { done = 0; pending = 0; failed = 0 }

abbrev pub after_claim :
    (ℕ → World) → Result EngineError (List ℕ) → Session → Result EngineError Tally × Session
after_claim at (Result.err e) s = (Result.err e, s)
after_claim at (Result.ok ids) s =
    let (t, s') = process_jobs at ids no_outcomes s in (Result.ok t, s')

unfoldable pub run_job_sweep : World → (ℕ → World) → (ℕ → Bool) → ℕ → Act Tally
unfolding claim_jobs transaction process_jobs
run_job_sweep w at locked limit s =
    let (r, s') = transaction (claim_jobs w locked limit) s in after_claim at r s'
