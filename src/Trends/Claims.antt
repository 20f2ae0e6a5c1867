-- ===== src/Trends/Claims.antt =====
-- What the claiming statements of `PipelineRepo` (trends/repo.py) give to a worker.
use mathlib.Core.Path.{subst}
use adam_abundance.Base.{
  ℕ, zero, suc, ◌+◌, ◌≡◌, refl, sym, ap, Bool, false, List, [], ◌∷◌, ◌++◌, map, keep, take, inl,
  inr, Bool-cases, arith,
}
use adam_abundance.Trends.Rows.{Job, Db}
use adam_abundance.Trends.JobRepo.{claim, claim_queued, is_claimable, start_job}
use adam_abundance.Trends.JobLawful.{claim-hit, claim-miss}

module _ (p : Job → Bool) (f : Job → Job) where
  claim-ids : (n : ℕ) (js : List Job) → (claim p f n js).0 ≡ take n (map (λ j. j.id) (keep p js))
  claim-ids zero js = refl
  claim-ids (suc n) [] = refl
  claim-ids (suc n) (j ∷ js) = elim (Bool-cases (p j)) [
    | inl b ↦
        subst (λ c. c.0 ≡ take (suc n) (map (λ j. j.id) (keep p (j ∷ js))))
          (sym (claim-hit p f n j js b)) (rw b (ap (λ ids. j.id ∷ ids) (claim-ids n js)))
    | inr b ↦
        subst (λ c. c.0 ≡ take (suc n) (map (λ j. j.id) (keep p (j ∷ js))))
          (sym (claim-miss p f n j js b)) (rw b (claim-ids (suc n) js))
  ]

  claim-skip :
      (m : ℕ) (x : Job) (js : List Job)
      → p x ≡ false
      → (claim p f m (x ∷ js)).0 ≡ (claim p f m js).0
  claim-skip zero x js b = refl
  claim-skip (suc m) x js b = ap (λ c. c.0) (claim-miss p f m x js b)

  claim_none : (m : ℕ) → (claim p f m []).0 ≡ []
  claim_none zero = refl
  claim_none (suc m) = refl

  -- Where a claimed row is not selected again, two claims take what one claim of both sizes does.
  claim-claim :
      (n m k : ℕ) (js : List Job)
      → n + m ≡ k
      → ((j : Job) → p (f j) ≡ false)
      → (claim p f n js).0 ++ (claim p f m (claim p f n js).1).0 ≡ (claim p f k js).0
  claim-claim zero m k js e h = ap (λ l. (claim p f l js).0) (omega arith)
  claim-claim (suc n) m zero js e h = absurd (omega arith)
  claim-claim (suc n) m (suc k) [] e h = claim_none m
  claim-claim (suc n) m (suc k) (j ∷ js) e h = elim (Bool-cases (p j)) [
    | inl b ↦
        rw
          (
            claim-hit p f n j js b,
            claim-hit p f k j js b,
            claim-skip m (f j) (claim p f n js).1 (h j),
            claim-claim n m k js (omega arith) h,
          )
          refl
    | inr b ↦
        rw
          (
            claim-miss p f n j js b,
            claim-miss p f k j js b,
            claim-skip m j (claim p f (suc n) js).1 b,
          )
          (claim-claim (suc n) m (suc k) js e h)
  ]

module _ (now : ℕ) (locked : ℕ → Bool) where
  -- A worker gets the ids of the queued jobs that nobody holds, in the order of the rows, up to the
  -- limit.
  pub claim_queued-ids :
      (limit : ℕ) (s : Db)
      → (claim_queued now locked limit s).0
        ≡ take limit (map (λ j. j.id) (keep (is_claimable now locked) s.jobs))
  unfolding claim_queued
  claim_queued-ids limit s = claim-ids (is_claimable now locked) (start_job now) limit s.jobs

  -- Two workers that claim one after the other, while others hold the same rows, get together what
  -- one claim of both sizes gives: no job is given twice and none is passed over.
  pub claim_queued-claim_queued :
      (n m : ℕ) (s : Db)
      → (claim_queued now locked n s).0
          ++ (claim_queued now locked m (claim_queued now locked n s).1).0
        ≡ (claim_queued now locked (n + m) s).0
  unfolding claim_queued
  claim_queued-claim_queued n m s =
      claim-claim (is_claimable now locked) (start_job now) n m (n + m) s.jobs refl (λ j. refl)
