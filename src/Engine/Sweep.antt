-- ===== src/Engine/Sweep.antt =====
-- `run_job_sweep` of trends/pipeline.py as a whole.
use mathlib.Core.Path.{subst}
use adam_abundance.Base.{
  ℕ, suc, ◌+◌, ◌-◌, ◌≤◌, ◌≡◌, refl, sym, ap, Bool, List, [], ◌∷◌, ◌++◌, map, keep, length, All,
  arith, inl, inr, Bool-cases, ok, pure, ◌>>◌,
}
use adam_abundance.Base.Along.{Along, Along-bind, Keeps-bind, Keeps-pure}
use adam_abundance.Trends.Rows.{Job, Db}
use adam_abundance.Trends.Rollup.{refresh_rollup}
use adam_abundance.Trends.JobRepo.{
  is_claimable, start_job, is_stuck, touch_job, is_dead, reap_if, rollup_all, distinct_ids,
  claim_queued, claim_stuck_running, reap_dead_running,
}
use adam_abundance.Engine.Session.{Session, Act, on_db, commit, transaction}
use adam_abundance.Engine.World.{World}
use adam_abundance.Engine.Worker.{
  Outcome, Tally, count_outcome, no_outcomes, claim_jobs, process_job, process_jobs, after_claim,
  run_job_sweep,
}
use adam_abundance.Engine.Lawful.{Within-Preorder, Keeps-on_db}
use adam_abundance.Engine.Returns.{reap_dead_running-Returns}
use adam_abundance.Engine.WorkerRules.{process_jobs-Keeps}
use adam_abundance.Engine.Waiting.{
  claim-drains, claim-All, NotWaiting, NoneWaiting, Drained, Drained-Preorder, Drained-Rules,
  refresh_rollup-Drained,
}

commit-ok :
    {A : Type 0} (m : Act A) (s : Session) (a : A)
    → (m s).0 ≡ ok a
    → transaction m s ≡ (ok a, (m s).1)
unfolding transaction
commit-ok m s a h = ap (λ r. commit s r (m s).1) h

map-All :
    (P : Job → Type 0) (f : Job → Job) (js : List Job)
    → ((j : Job) → P j → P (f j))
    → All P js
    → All P (map f js)
map-All P f [] h a = tt
map-All P f (j ∷ js) h a = (h j a.0, map-All P f js h a.1)

module _ (w : World) (locked : ℕ → Bool) where
  abbrev W : Job → Type 0
  W = NotWaiting w.now locked

  abbrev D : Db → Db → Type 0
  D = Drained w.now locked

  reap_if-NotWaiting : (cutoff : ℕ) (j : Job) → W j → W (reap_if w.now locked cutoff j)
  reap_if-NotWaiting cutoff j h = elim (Bool-cases (is_dead w.now locked cutoff j)) [
    | inl b ↦ rw b refl
    | inr b ↦ rw b h
  ]

  rollup_all-Drained : (is : List ℕ) → Along D (rollup_all w.now locked is)
  rollup_all-Drained [] s a = a
  rollup_all-Drained (i ∷ is) s a =
      Along-bind (Drained-Preorder w.now locked) (refresh_rollup w.now i)
        (λ _. rollup_all w.now locked is) (refresh_rollup-Drained w.now locked w.now i)
        (λ _. rollup_all-Drained is) s a

  reap_dead_running-Drained : (cutoff : ℕ) → Along D (reap_dead_running w.now locked cutoff)
  unfolding reap_dead_running
  reap_dead_running-Drained cutoff s a =
      let dead = keep (is_dead w.now locked cutoff) s.jobs in
      Along-bind (Drained-Preorder w.now locked)
        (rollup_all w.now locked (distinct_ids (map (λ j. j.pipeline_id) dead)))
        (λ _. pure (length dead)) (rollup_all-Drained _) (λ _ u x. x)
        (record s { jobs = map (reap_if w.now locked cutoff) s.jobs })
        (map-All W (reap_if w.now locked cutoff) s.jobs (reap_if-NotWaiting cutoff) a)

  -- The session after the two claiming statements, and the ids that they return.
  abbrev pub queued_ids : ℕ → Session → List ℕ
  queued_ids limit s = (claim_queued w.now locked limit s.db).0

  abbrev pub claimed : ℕ → Session → Db
  claimed limit s = (claim_queued w.now locked limit s.db).1

  abbrev pub stuck_claim : ℕ → Session → List ℕ × Db
  stuck_claim limit s =
      claim_stuck_running w.now locked (w.now - 300) (limit - length (queued_ids limit s))
        (claimed limit s)

  abbrev both_claimed : ℕ → Session → Session
  both_claimed limit s = record s { db = (stuck_claim limit s).1 }

  abbrev pub claimed_ids : ℕ → Session → List ℕ
  claimed_ids limit s = queued_ids limit s ++ (stuck_claim limit s).0

  claim_jobs-ok :
      (limit : ℕ) (s : Session) → (claim_jobs w locked limit s).0 ≡ ok (claimed_ids limit s)
  unfolding claim_jobs
  claim_jobs-ok limit s =
      reaped (reap_dead_running-Returns w.now locked (w.now - 1800) (both_claimed limit s).db)
    where
      reaped :
          (n : ℕ) × ((reap_dead_running w.now locked (w.now - 1800) (both_claimed limit s).db).0
              ≡ ok n)
          → ((on_db (reap_dead_running w.now locked (w.now - 1800)) >> pure (claimed_ids limit s))
              (both_claimed limit s)).0
            ≡ ok (claimed_ids limit s)
      reaped (n, e) = rw e refl

  claim_jobs-NoneWaiting :
      (limit : ℕ) (s : Session)
      → length (keep (is_claimable w.now locked) s.db.jobs) ≤ limit
      → NoneWaiting w.now locked (claim_jobs w locked limit s).1.db
  unfolding claim_jobs claim_queued claim_stuck_running
  claim_jobs-NoneWaiting limit s h =
      (Keeps-bind (Within-Preorder (Drained-Preorder w.now locked))
          (Keeps-on_db D (reap_dead_running w.now locked (w.now - 1800))
            (reap_dead_running-Drained (w.now - 1800)))
          λ _.
            Keeps-pure (Within-Preorder (Drained-Preorder w.now locked))
              (claimed_ids limit s)).along
        (both_claimed limit s)
        (claim-All (is_stuck w.now locked (w.now - 300)) W (touch_job w.now)
          (limit - length (queued_ids limit s)) (claimed limit s).jobs (λ j x. x)
          (claim-drains (is_claimable w.now locked) (start_job w.now) limit s.db.jobs (λ j. refl)
            h))

  module _ (at : ℕ → World) where
    -- The loop, from where the claim has left the session.
    abbrev loop : ℕ → Session → Tally × Session
    loop limit s = process_jobs at (claimed_ids limit s) no_outcomes (claim_jobs w locked limit s).1

    sweep_runs :
        (limit : ℕ) (s : Session)
        → run_job_sweep w at locked limit s ≡ (ok (loop limit s).0, (loop limit s).1)
    unfolding run_job_sweep
    sweep_runs limit s =
        ap (λ x. after_claim at x.0 x.1)
          (commit-ok (claim_jobs w locked limit) s (claimed_ids limit s) (claim_jobs-ok limit s))

    -- A sweep whose limit is at least the number of queued jobs that nobody holds leaves none of
    -- them queued, whatever the jobs' generators do, and also where a job's transaction crashes.
    pub run_job_sweep-NoneWaiting :
        (limit : ℕ) (s : Session)
        → length (keep (is_claimable w.now locked) s.db.jobs) ≤ limit
        → NoneWaiting w.now locked (run_job_sweep w at locked limit s).1.db
    run_job_sweep-NoneWaiting limit s h =
        subst (λ x. NoneWaiting w.now locked x.1.db) (sym (sweep_runs limit s))
          (process_jobs-Keeps (Drained-Rules w.now locked) at (claimed_ids limit s) no_outcomes
            (claim_jobs w locked limit s).1 (claim_jobs-NoneWaiting limit s h))

abbrev pub total : Tally → ℕ
total t = t.done + t.pending + t.failed

total-count_outcome : (o : Outcome) (t : Tally) → total (count_outcome o t) ≡ suc (total t)
total-count_outcome Outcome.done t = omega arith
total-count_outcome Outcome.pending t = omega arith
total-count_outcome Outcome.failed t = omega arith

total-process_jobs :
    (at : ℕ → World) (is : List ℕ) (t : Tally) (s : Session)
    → total (process_jobs at is t s).0 ≡ length is + total t
unfolding process_jobs
total-process_jobs at [] t s = omega arith
total-process_jobs at (i ∷ is) t s =
    let a = process_job (at i) i s in
    omega (arith, total-process_jobs at is (count_outcome a.0 t) a.1, total-count_outcome a.0 t)

-- A sweep returns whatever its jobs do: their exceptions end in the count of the failed ones, and
-- the three counts add up to the number of jobs that were claimed, the queued ones first and then
-- the stuck ones.
pub run_job_sweep-total :
    (w : World) (locked : ℕ → Bool) (at : ℕ → World) (limit : ℕ) (s : Session)
    → (t : Tally) × ((run_job_sweep w at locked limit s).0 ≡ ok t)
      × (total t ≡ length (claimed_ids w locked limit s))
run_job_sweep-total w locked at limit s = (
  (loop w locked at limit s).0,
  ap (λ x. x.0) (sweep_runs w locked at limit s),
  omega (
    arith,
    total-process_jobs at (claimed_ids w locked limit s) no_outcomes
        (claim_jobs w locked limit s).1,
  ),
)
