-- ===== src/Trends/History.antt =====
-- Any sequence of calls of `PipelineRepo`'s methods (trends/repo.py), by any callers, at any times.
use mathlib.Core.Path.{subst}
use adam_abundance.Base.{
  ℕ, ◌≡◌, refl, String, Bool, true, Option, some, List, [], ◌∷◌, ◌==◌, inl, inr, Bool-cases,
}
use adam_abundance.Base.Table.{Keyed, find, same_row}
use adam_abundance.Trends.Lifecycle.{
  PipelineStatus, JobStatus, pipeline_may, job_may, is_terminal_pipeline, is_non_human,
}
use adam_abundance.Trends.Reach.{Reach-stuck, Evolves}
use adam_abundance.Trends.Rows.{Text, ContentType, Pipeline, Job, Db, pipeline_keyed, job_keyed}
use adam_abundance.Trends.PipelineRepo.{create, approve, decline, close, set_status, is_settled}
use adam_abundance.Trends.Rollup.{refresh_rollup}
use adam_abundance.Trends.JobRepo.{
  Field, add_job, claim_queued, claim_stuck_running, reap_dead_running, mark_job, review_job,
  regenerate_job,
}
use adam_abundance.Trends.Lawful.{SamePipeline, SameJob, Lawful, Lawful-Preorder}
use adam_abundance.Trends.PipelineLawful.{
  create-Lawful, approve-Lawful, decline-Lawful, close-Lawful, set_status-Lawful,
  refresh_rollup-Lawful,
}
use adam_abundance.Trends.JobLawful.{
  add_job-Lawful, claim_queued-Lawful, claim_stuck_running-Lawful, reap_dead_running-Lawful,
  mark_job-Lawful,
}
use adam_abundance.Trends.ReviewLawful.{review_job-Lawful, regenerate_job-Lawful}

-- A call, with the time at which it is made and, for SKIP LOCKED, the rows that others hold.
pub data Call : Type 0 where
  create_call : ℕ → Option ℕ → String → List String → String → Option Text → Call
  approve_call : ℕ → ℕ → String → List String → Option Text → Call
  decline_call : ℕ → ℕ → String → Option String → Call
  close_call : ℕ → ℕ → String → Option String → Call
  set_status_call : ℕ → ℕ → PipelineStatus → String → Option String → Call
  rollup_call : ℕ → ℕ → Call
  add_job_call : ℕ → ℕ → ContentType → String → Option Text → Option ℕ → Call
  claim_call : ℕ → (ℕ → Bool) → ℕ → Call
  claim_stuck_call : ℕ → (ℕ → Bool) → ℕ → ℕ → Call
  reap_call : ℕ → (ℕ → Bool) → ℕ → Call
  mark_call : ℕ → ℕ → JobStatus → List Field → Call
  review_call : ℕ → ℕ → String → Bool → Call
  regenerate_call : ℕ → ℕ → String → Text → Call

-- What the session holds after the call, which may have raised.
unfoldable pub after : Call → Db → Db
after (create_call now t brand asked by instr) s = (create now t brand asked by instr s).1
after (approve_call now i by asked instr) s = (approve now i by asked instr s).1
after (decline_call now i actor reason) s = (decline now i actor reason s).1
after (close_call now i actor reason) s = (close now i actor reason s).1
after (set_status_call now i status actor detail) s = (set_status now i status actor detail s).1
after (rollup_call now i) s = (refresh_rollup now i s).1
after (add_job_call now i ct transport instr persona) s =
    (add_job now i ct transport instr persona s).1
after (claim_call now locked limit) s = (claim_queued now locked limit s).1
after (claim_stuck_call now locked cutoff limit) s =
    (claim_stuck_running now locked cutoff limit s).1
after (reap_call now locked cutoff) s = (reap_dead_running now locked cutoff s).1
after (mark_call now i status fields) s = (mark_job now i status fields s).1
after (review_call now i actor ok) s = (review_job now i actor ok s).1
after (regenerate_call now i actor instr) s = (regenerate_job now i actor instr s).1

unfoldable pub after_all : List Call → Db → Db
after_all [] s = s
after_all (c ∷ cs) s = after_all cs (after c s)

pub after-Lawful : (c : Call) (s : Db) → Lawful s (after c s)
unfolding after
after-Lawful (create_call now t brand asked by instr) = create-Lawful now t brand asked by instr
after-Lawful (approve_call now i by asked instr) = approve-Lawful now i by asked instr
after-Lawful (decline_call now i actor reason) = decline-Lawful now i actor reason
after-Lawful (close_call now i actor reason) = close-Lawful now i actor reason
after-Lawful (set_status_call now i st actor detail) = set_status-Lawful now i st actor detail
after-Lawful (rollup_call now i) = refresh_rollup-Lawful now i
after-Lawful (add_job_call now i ct transport instr persona) =
    add_job-Lawful now i ct transport instr persona
after-Lawful (claim_call now locked limit) = claim_queued-Lawful now locked limit
after-Lawful (claim_stuck_call now locked cutoff limit) =
    claim_stuck_running-Lawful now locked cutoff limit
after-Lawful (reap_call now locked cutoff) = reap_dead_running-Lawful now locked cutoff
after-Lawful (mark_call now i status fields) = mark_job-Lawful now i status fields
after-Lawful (review_call now i actor ok) = review_job-Lawful now i actor ok
after-Lawful (regenerate_call now i actor instr) = regenerate_job-Lawful now i actor instr

-- Whatever the calls are: every pipeline and every job is still there, in its place, and has moved
-- from its old status to its new one by moves that the transition tables allow.
pub after_all-Lawful : (cs : List Call) (s : Db) → Lawful s (after_all cs s)
unfolding after_all
after_all-Lawful [] s = Lawful-Preorder.same s
after_all-Lawful (c ∷ cs) s =
    Lawful-Preorder.then s (after c s) (after_all cs (after c s)) (after-Lawful c s)
      (after_all-Lawful cs (after c s))

-- A row that is found is found again, related to what it was.
module _ {A : Type 0} ⦃k : Keyed A⦄ (R : A → A → Type 0)
    (keeps : (x y : A) → R x y → k.key y ≡ k.key x) where
  Evolves-find :
      (i : ℕ) (x : A) (xs ys : List A)
      → Evolves R xs ys
      → find i xs ≡ some x
      → (y : A) × (find i ys ≡ some y) × R x y
  Evolves-find i x [] ys h e = cc
  Evolves-find i x (a ∷ xs) [] h e = absurd h
  Evolves-find i x (a ∷ xs) (b ∷ ys) h e = elim (Bool-cases (k.key a == i)) [
    | inl t ↦ (b, rw (keeps a b h.0, t) refl, subst (λ z. R z b) (same_row a x (rw t at e)) h.0)
    | inr f ↦ rw (keeps a b h.0, f) (Evolves-find i x xs ys h.1 (rw f at e))
  ]

terminal-stuck :
    (a : PipelineStatus)
    → is_terminal_pipeline a ≡ true
    → (c : PipelineStatus) → pipeline_may a c ≡ true
    → c ≡ a
unfolding pipeline_may
terminal-stuck PipelineStatus.declined h c m = cc
terminal-stuck PipelineStatus.closed h c m = cc
terminal-stuck PipelineStatus.expired h c m = cc
terminal-stuck PipelineStatus.pending_approval h c m = cc
terminal-stuck PipelineStatus.approved h c m = cc
terminal-stuck PipelineStatus.generating h c m = cc
terminal-stuck PipelineStatus.previews_ready h c m = cc
terminal-stuck PipelineStatus.published h c m = cc
terminal-stuck PipelineStatus.partially_published h c m = cc
terminal-stuck PipelineStatus.failed h c m = cc

settled-stuck : (a : JobStatus) → is_settled a ≡ true → (c : JobStatus) → job_may a c ≡ true → c ≡ a
unfolding job_may
settled-stuck JobStatus.published h c m = cc
settled-stuck JobStatus.cancelled h c m = cc
settled-stuck JobStatus.queued h c m = cc
settled-stuck JobStatus.running h c m = cc
settled-stuck JobStatus.preview_ready h c m = cc
settled-stuck JobStatus.approved h c m = cc
settled-stuck JobStatus.rejected h c m = cc
settled-stuck JobStatus.failed h c m = cc

-- A pipeline that was declined, closed or expired is found again with the same status, whatever
-- is called afterwards.
pub after_all-terminal :
    (cs : List Call) (s : Db) (i : ℕ) (p : Pipeline)
    → find i s.pipelines ≡ some p
    → is_terminal_pipeline p.status ≡ true
    → (p' : Pipeline) × (find i (after_all cs s).pipelines ≡ some p') × (p'.status ≡ p.status)
after_all-terminal cs s i p e h =
    let (p', found, same) =
      Evolves-find SamePipeline (λ x y r. r.0) i p s.pipelines (after_all cs s).pipelines
        (after_all-Lawful cs s).0 e in
    (p', found, Reach-stuck (terminal-stuck p.status h) same.1)

-- A job that was published or cancelled is found again with the same status, whatever is called
-- afterwards.
pub after_all-settled :
    (cs : List Call) (s : Db) (i : ℕ) (j : Job)
    → find i s.jobs ≡ some j
    → is_settled j.status ≡ true
    → (j' : Job) × (find i (after_all cs s).jobs ≡ some j') × (j'.status ≡ j.status)
after_all-settled cs s i j e h =
    let (j', found, same) =
      Evolves-find SameJob (λ x y r. r.0) i j s.jobs (after_all cs s).jobs (after_all-Lawful cs s).1
        e in
    (j', found, Reach-stuck (settled-stuck j.status h) same.1)

-- The calls that ask for a person are made by no person.
unfoldable pub ByMachine : Call → Type 0
ByMachine (approve_call now i by asked instr) = is_non_human by ≡ true
ByMachine (decline_call now i actor reason) = is_non_human actor ≡ true
ByMachine (close_call now i actor reason) = is_non_human actor ≡ true
ByMachine (review_call now i actor ok) = is_non_human actor ≡ true
ByMachine (regenerate_call now i actor instr) = is_non_human actor ≡ true
ByMachine _ = ⊥

approve-machine :
    (now i : ℕ) (by : String) (asked : List String) (instr : Option Text) (s : Db)
    → is_non_human by ≡ true
    → (approve now i by asked instr s).1 ≡ s
unfolding approve
approve-machine now i by asked instr s h = rw h refl

decline-machine :
    (now i : ℕ) (actor : String) (reason : Option String) (s : Db)
    → is_non_human actor ≡ true
    → (decline now i actor reason s).1 ≡ s
unfolding decline
decline-machine now i actor reason s h = rw h refl

close-machine :
    (now i : ℕ) (actor : String) (reason : Option String) (s : Db)
    → is_non_human actor ≡ true
    → (close now i actor reason s).1 ≡ s
unfolding close
close-machine now i actor reason s h = rw h refl

review_job-machine :
    (now i : ℕ) (actor : String) (ok : Bool) (s : Db)
    → is_non_human actor ≡ true
    → (review_job now i actor ok s).1 ≡ s
unfolding review_job
review_job-machine now i actor ok s h = rw h refl

regenerate_job-machine :
    (now i : ℕ) (actor : String) (instr : Text) (s : Db)
    → is_non_human actor ≡ true
    → (regenerate_job now i actor instr s).1 ≡ s
unfolding regenerate_job
regenerate_job-machine now i actor instr s h = rw h refl

-- Approving, declining or closing a pipeline and reviewing or regenerating a job change nothing
-- when the actor is empty or one of the machine's names, in any case and with any space around.
pub after-machine : (c : Call) (s : Db) → ByMachine c → after c s ≡ s
unfolding after ByMachine
after-machine (approve_call now i by asked instr) s h = approve-machine now i by asked instr s h
after-machine (decline_call now i actor reason) s h = decline-machine now i actor reason s h
after-machine (close_call now i actor reason) s h = close-machine now i actor reason s h
after-machine (review_call now i actor ok) s h = review_job-machine now i actor ok s h
after-machine (regenerate_call now i actor instr) s h = regenerate_job-machine now i actor instr s h
after-machine (create_call now t brand asked by instr) s h = absurd h
after-machine (set_status_call now i status actor detail) s h = absurd h
after-machine (rollup_call now i) s h = absurd h
after-machine (add_job_call now i ct transport instr persona) s h = absurd h
after-machine (claim_call now locked limit) s h = absurd h
after-machine (claim_stuck_call now locked cutoff limit) s h = absurd h
after-machine (reap_call now locked cutoff) s h = absurd h
after-machine (mark_call now i status fields) s h = absurd h
