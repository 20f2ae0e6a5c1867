-- ===== src/Scout/Made.antt =====
-- How many pipelines `_propose` and the loop of `scan` (trends/scout.py) add to the table.
use mathlib.Core.Path.{subst}
use adam_abundance.Base.{
  ℕ, ◌+◌, ◌≤◌, ◌≡◌, refl, ap, ◌∙◌, String, Bool, true, false, not, ◌&&◌, Option, none, some, List,
  [], ◌∷◌, length, length-append, leb, ltb, if◌then◌else◌, arith, inl, inr, Bool-cases,
  Option-cases, Result, ok, err, pure, continue, ◌>>=◌, bind-inv,
}
use adam_abundance.Base.Along.{Keeps}
use adam_abundance.Trends.Lifecycle.{
  LifecycleError, TrendStatus, same_trend, validate_content_types,
}
use adam_abundance.Trends.Rows.{ContentType, Trend, Pipeline, Text, Db, lift}
use adam_abundance.Trends.PipelineRepo.{
  open_count, open_for_trend, create, insert_pipeline, new_pipeline,
}
use adam_abundance.Trends.TrendRepo.{Sighting, upsert}
use adam_abundance.Engine.Session.{Session, Act, EngineError, on_db}
use adam_abundance.Engine.Lawful.{Within, Keeps-on_db}
use adam_abundance.Scout.Scan.{
  Surroundings, type_names, force_status, write_flag, dossier_first, proposed_with, create_for,
  propose_under, propose_valid, propose, ScanSummary, count_seen, count_proposed, is_worth,
  propose_if, weigh, scan_sightings,
}
use adam_abundance.Scout.Cap.{
  SamePipelines, upsert-SamePipelines, write_flag-Same, dossier_first-Same, proposed_with-Same,
}

abbrev pub pipeline_rows : Session → ℕ
pipeline_rows s = length s.db.pipelines

-- From n pipelines on, at most one more: one where the answer is true and none where it is not.
record Made (n : ℕ) (r : Result EngineError Bool × Session) : Type 0 where
  pub bound : pipeline_rows r.1 ≤ n + 1
  pub returned : (b : Bool) → r.0 ≡ ok b → pipeline_rows r.1 ≡ n + (if b then 1 else 0)

rows_same :
    {A : Type 0} (m : Act A)
    → Keeps (Within SamePipelines) m
    → (s : Session) → pipeline_rows (m s).1 ≡ pipeline_rows s
rows_same m h s = ap (λ ps. length ps) (h.along s)

same_answer : (a b : Bool) → ◌≡◌ {A = Result EngineError Bool} (ok a) (ok b) → a ≡ b
same_answer a b h = cc

continue-Made :
    {A : Type 0} (n : ℕ) (r : Result EngineError A) (f : A → Act Bool) (s : Session)
    → pipeline_rows s ≡ n
    → ((a : A) → Made n (f a s))
    → Made n (continue r f s)
continue-Made n (ok a) f s e h = h a
continue-Made n (err x) f s e h = record { bound = omega arith; returned = λ b k. absurd (cc) }

-- An action that adds no pipeline, and the rest.
then-Made :
    {A : Type 0} (m : Act A) (f : A → Act Bool) (s : Session)
    → Keeps (Within SamePipelines) m
    → ((a : A) → Made (pipeline_rows (m s).1) (f a (m s).1))
    → Made (pipeline_rows s) ((m >>= f) s)
then-Made m f s k h =
    continue-Made (pipeline_rows s) (m s).0 f (m s).1 (rows_same m k s)
      λ a. subst (λ n. Made n (f a (m s).1)) (rows_same m k s) (h a)

pure-Made : (s : Session) → Made (pipeline_rows s) (pure false s)
pure-Made s = record {
  bound = omega arith;
  returned = λ b h. rw (← same_answer false b h) (omega arith);
}

is_made : Result LifecycleError Pipeline → Bool
is_made (ok p) = true
is_made (err e) = false

-- `create` adds one pipeline where it returns, and none where it raises.
create-rows :
    (now : ℕ) (trend_id : Option ℕ) (brand : String) (asked : List String) (by : String)
    (instructions : Option Text) (d : Db)
    → let c = create now trend_id brand asked by instructions d in
      length c.1.pipelines ≡ length d.pipelines + (if is_made c.0 then 1 else 0)
unfolding create is_made
create-rows now trend_id brand asked by instructions d =
    elim (Option-cases (open_for_trend trend_id d.pipelines)) [
      | inl e ↦ rw e (made (validate_content_types asked))
      | inr (k, e) ↦ rw e (omega arith)
    ]
  where
    made :
        (r : Result LifecycleError (List ContentType))
        → let c =
            (lift r >>= λ cts.
            insert_pipeline now
              (λ id. new_pipeline now id trend_id brand asked by instructions cts))
              d in
          length c.1.pipelines ≡ length d.pipelines + (if is_made c.0 then 1 else 0)
    made (ok cts) =
        length-append d.pipelines
          (new_pipeline now d.next_pipeline trend_id brand asked by instructions cts ∷ [])
    made (err x) = omega arith

module _ (w : Surroundings) where
  -- The answer after the pipeline is made or refused, from where the pipelines are those of it.
  proposed_with-Made :
      (n : ℕ) (t : Trend) (r : Result LifecycleError Pipeline) (s : Session)
      → pipeline_rows s ≡ n + (if is_made r then 1 else 0)
      → Made n (proposed_with w t r s)
  unfolding is_made
  proposed_with-Made n t (err e) s h =
      let same = rows_same (proposed_with w t (err e)) (proposed_with-Same w t (err e)) s in
      record {
        bound = omega (arith, same, h);
        returned = λ b k. rw (← same_answer false b k) (same ∙ h);
      }
  proposed_with-Made n t (ok p) s h =
      let same = rows_same (proposed_with w t (ok p)) (proposed_with-Same w t (ok p)) s in
      record {
        bound = omega (arith, same, h);
        returned = λ b k.
            let (_, _, k') =
              bind-inv (write_flag w t none) (λ _. pure true)
                (force_status t.id TrendStatus.proposed s).1 b k in
            rw (← same_answer true b k') (same ∙ h);
      }

  create_for-Made :
      (t : Trend) (cts : List ContentType) (s : Session)
      → Made (pipeline_rows s) (create_for w t cts s)
  create_for-Made t cts s =
      let c = create w.now (some t.id) t.brand (type_names cts) "trend_scout" none s.db in
      proposed_with-Made (pipeline_rows s) t c.0 (record s { db = c.1 })
        (create-rows w.now (some t.id) t.brand (type_names cts) "trend_scout" none s.db)

  propose_under-Made :
      (t : Trend) (cts : List ContentType) (k : ℕ) (s : Session)
      → Made (pipeline_rows s) (propose_under w t cts k s)
  propose_under-Made t cts k s = elim (Bool-cases (leb w.cfg.max_open_pipelines k)) [
    | inl b ↦ simp b (
        then-Made (write_flag w t (some "proposal cap reached")) (λ _. pure false) s
          (write_flag-Same w t (some "proposal cap reached"))
          (λ _. pure-Made (write_flag w t (some "proposal cap reached") s).1))
    | inr b ↦ simp b (
        then-Made (dossier_first w t) (λ _. create_for w t cts) s (dossier_first-Same w t)
          (λ _. create_for-Made t cts (dossier_first w t s).1))
  ]

  propose_valid-Made :
      (t : Trend) (r : Result LifecycleError (List ContentType)) (s : Session)
      → Made (pipeline_rows s) (propose_valid w t r s)
  propose_valid-Made t (err e) s = pure-Made s
  propose_valid-Made t (ok cts) s = propose_under-Made t cts (open_count t.brand s.db) s

  propose-Made : (t : Trend) (s : Session) → Made (pipeline_rows s) (propose w t s)
  unfolding propose
  propose-Made t s = propose_valid-Made t (validate_content_types w.cfg.default_content_types) s

-- From n pipelines and m proposals left on: what is left and what was made are n + m together, and no
-- more was made where it raises.
abbrev pub Paid : ℕ → ℕ → Result EngineError ScanSummary × Session → Type 0
Paid m n (ok k, s) = pipeline_rows s + k.proposals_left ≡ n + m
Paid m n (err e, s) = pipeline_rows s ≤ n + m

pub Paid-bound :
    (m n : ℕ) (r : Result EngineError ScanSummary × Session)
    → Paid m n r
    → pipeline_rows r.1 ≤ n + m
Paid-bound m n (ok k, s) h = omega arith
Paid-bound m n (err e, s) h = h

pub Paid-returned :
    (m n : ℕ) (r : Result EngineError ScanSummary × Session)
    → Paid m n r
    → (k : ScanSummary) → r.0 ≡ ok k
    → pipeline_rows r.1 + k.proposals_left ≡ n + m
Paid-returned m n (ok k', s) h k e = rw (← same_count k' k e) h
  where
    same_count :
        (a b : ScanSummary) → ◌≡◌ {A = Result EngineError ScanSummary} (ok a) (ok b) → a ≡ b
    same_count a b h = cc
Paid-returned m n (err x, s) h k e = absurd (cc e)

Paid-from :
    (m n m' n' : ℕ) (r : Result EngineError ScanSummary × Session)
    → n' + m' ≡ n + m
    → Paid m' n' r
    → Paid m n r
Paid-from m n m' n' (ok k, s) e h = omega arith
Paid-from m n m' n' (err x, s) e h = omega arith

continue-Paid :
    (m n : ℕ) (r : Result EngineError ScanSummary) (f : ScanSummary → Act ScanSummary) (s : Session)
    → Paid m n (r, s)
    → ((k : ScanSummary) → Paid k.proposals_left (pipeline_rows s) (f k s))
    → Paid m n (continue r f s)
continue-Paid m n (ok k) f s e h = Paid-from m n k.proposals_left (pipeline_rows s) (f k s) e (h k)
continue-Paid m n (err x) f s e h = e

counted-Paid :
    (n : ℕ) (k : ScanSummary) (r : Result EngineError Bool) (s : Session)
    → 1 ≤ k.proposals_left
    → Made n (r, s)
    → Paid k.proposals_left n (continue r (λ made. pure (count_proposed made k)) s)
counted-Paid n k (ok true) s left h = omega (arith, h.returned true refl)
counted-Paid n k (ok false) s left h = omega (arith, h.returned false refl)
counted-Paid n k (err e) s left h = omega (arith, h.bound)

worth-left : (a b c : Bool) (n : ℕ) → (a && b && c && ltb 0 n) ≡ true → 1 ≤ n
worth-left true true true n h = ground arith
worth-left true true false n h = absurd (cc h)
worth-left true false c n h = absurd (cc h)
worth-left false b c n h = absurd (cc h)

module _ (w : Surroundings) where
  propose_if-Paid :
      (b : Bool) (t : Trend) (k : ScanSummary) (s : Session)
      → (b ≡ true → 1 ≤ k.proposals_left)
      → Paid k.proposals_left (pipeline_rows s) (propose_if w b t k s)
  propose_if-Paid true t k s left =
      counted-Paid (pipeline_rows s) k (propose w t s).0 (propose w t s).1 (left refl)
        (propose-Made w t s)
  propose_if-Paid false t k s left = refl

  pub left_if :
      (t : Trend) (score : ℕ) (k : ScanSummary) → is_worth w t score k ≡ true → 1 ≤ k.proposals_left
  left_if t score k =
      worth-left (same_trend t.status TrendStatus.detected) (leb w.cfg.score_threshold score)
        (not t.suppressed) k.proposals_left

  weigh-Paid :
      (g : Sighting) (seen : Option Trend × Bool) (k : ScanSummary) (s : Session)
      → Paid k.proposals_left (pipeline_rows s) (weigh w g seen k s)
  weigh-Paid g (none, created) k s = refl
  weigh-Paid g (some t, true) k s =
      propose_if-Paid (is_worth w t g.score k) t (count_seen true k) s (left_if t g.score k)
  weigh-Paid g (some t, false) k s =
      propose_if-Paid (is_worth w t g.score k) t (count_seen false k) s (left_if t g.score k)

  seen-Paid :
      (gs : List Sighting) (g : Sighting) (k : ScanSummary) (n : ℕ)
      (r : Result EngineError (Option Trend × Bool)) (s : Session)
      → pipeline_rows s ≡ n
      → ((k' : ScanSummary) (s' : Session)
          → Paid k'.proposals_left (pipeline_rows s') (scan_sightings w gs k' s'))
      → Paid k.proposals_left n (continue r (λ x. weigh w g x k >>= scan_sightings w gs) s)
  seen-Paid gs g k n (ok x) s e rest =
      let r = weigh w g x k s in
      continue-Paid k.proposals_left n r.0 (scan_sightings w gs) r.1
        (Paid-from k.proposals_left n k.proposals_left (pipeline_rows s) r (omega (arith, e))
          (weigh-Paid g x k s))
        (λ k'. rest k' r.1)
  seen-Paid gs g k n (err x) s e rest = omega (arith, e)

  pub scan_sightings-Paid :
      (gs : List Sighting) (k : ScanSummary) (s : Session)
      → Paid k.proposals_left (pipeline_rows s) (scan_sightings w gs k s)
  unfolding scan_sightings
  scan_sightings-Paid [] k s = refl
  scan_sightings-Paid (g ∷ gs) k s =
      let m = on_db (upsert w.now g) in
      seen-Paid gs g k (pipeline_rows s) (m s).0 (m s).1
        (rows_same m (Keeps-on_db SamePipelines (upsert w.now g) (upsert-SamePipelines w.now g)) s)
        (scan_sightings-Paid gs)
