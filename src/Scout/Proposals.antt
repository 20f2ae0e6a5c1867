-- ===== src/Scout/Proposals.antt =====
-- How many proposals one scan makes.
use adam_abundance.Base.{
  ℕ, zero, suc, ◌+◌, ◌≤◌, ◌≡◌, refl, sym, ap, ◌∙◌, String, Bool, true, false, Option, none, some,
  List, [], ◌∷◌, arith, Result, ok, bind-inv, pure, ◌>>=◌,
}
use adam_abundance.Trends.Rows.{Trend}
use adam_abundance.Trends.PipelineRepo.{open_count}
use adam_abundance.Trends.TrendRepo.{Sighting, upsert}
use adam_abundance.Engine.Session.{Session, EngineError, on_db}
use adam_abundance.Scout.Scan.{
  Surroundings, propose, ScanSummary, count_seen, count_proposed, is_worth, propose_if, weigh,
  scan_sightings, nothing_seen, max_new_proposals,
}
use adam_abundance.Scout.Cap.{scan_sightings-Under}
use adam_abundance.Scout.Made.{
  left_if, pipeline_rows, Paid-bound, Paid-returned, scan_sightings-Paid,
}

-- Proposals made and proposals left.
abbrev allowance : ScanSummary → ℕ
allowance k = k.proposed + k.proposals_left

same_summary : (a b : ScanSummary) → ◌≡◌ {A = Result EngineError ScanSummary} (ok a) (ok b) → a ≡ b
same_summary a b h = cc

count_proposed-allowance :
    (b : Bool) (k : ScanSummary)
    → suc zero ≤ k.proposals_left
    → allowance (count_proposed b k) ≡ allowance k
count_proposed-allowance true k h = omega arith
count_proposed-allowance false k h = refl

module _ (w : Surroundings) where
  propose_if-allowance :
      (b : Bool) (t : Trend) (k k' : ScanSummary) (s : Session)
      → (b ≡ true → suc zero ≤ k.proposals_left)
      → (propose_if w b t k s).0 ≡ ok k'
      → allowance k' ≡ allowance k
  propose_if-allowance true t k k' s left h =
      let (made, e, h') = bind-inv (propose w t) (λ a. pure (count_proposed a k)) s k' h in
      ap allowance (sym (same_summary (count_proposed made k) k' h'))
      ∙ count_proposed-allowance made k (left refl)
  propose_if-allowance false t k k' s left h = ap allowance (sym (same_summary k k' h))

  weigh-allowance :
      (g : Sighting) (seen : Option Trend × Bool) (k k' : ScanSummary) (s : Session)
      → (weigh w g seen k s).0 ≡ ok k'
      → allowance k' ≡ allowance k
  weigh-allowance g (none, created) k k' s h =
      ap allowance (sym (same_summary (record k { suppressed = k.suppressed + 1 }) k' h))
  weigh-allowance g (some t, true) k k' s h =
      propose_if-allowance (is_worth w t g.score k) t (count_seen true k) k' s
        (left_if w t g.score k) h
  weigh-allowance g (some t, false) k k' s h =
      propose_if-allowance (is_worth w t g.score k) t (count_seen false k) k' s
        (left_if w t g.score k) h

  scan_sightings-allowance :
      (gs : List Sighting) (k k' : ScanSummary) (s : Session)
      → (scan_sightings w gs k s).0 ≡ ok k'
      → allowance k' ≡ allowance k
  unfolding scan_sightings
  scan_sightings-allowance [] k k' s h = ap allowance (sym (same_summary k k' h))
  scan_sightings-allowance (g ∷ gs) k k' s h =
      let m = on_db (upsert w.now g) in
      let (seen, e, h1) = bind-inv m (λ x. weigh w g x k >>= scan_sightings w gs) s k' h in
      let (k1, e1, h2) = bind-inv (weigh w g seen k) (scan_sightings w gs) (m s).1 k' h1 in
      scan_sightings-allowance gs k1 k' (weigh w g seen k (m s).1).1 h2
      ∙ weigh-allowance g seen k k1 (m s).1 e1

-- Whatever clusters a scan goes through: a bound on a brand's open pipelines that is at least the
-- scout's cap holds after the scan where it held before; the scan adds at most three pipelines, also
-- where it raises, and where it returns it has added as many as it says that it proposed.
pub scan_sightings_lem :
    (w : Surroundings) (gs : List Sighting) (b : String) (n : ℕ) (s : Session)
    → w.cfg.max_open_pipelines ≤ n
    → open_count b s.db ≤ n
    → (open_count b (scan_sightings w gs nothing_seen s).1.db ≤ n)
      × (pipeline_rows (scan_sightings w gs nothing_seen s).1 ≤ pipeline_rows s + max_new_proposals)
      × ((k : ScanSummary)
          → (scan_sightings w gs nothing_seen s).0 ≡ ok k
          → pipeline_rows (scan_sightings w gs nothing_seen s).1 ≡ pipeline_rows s + k.proposed)
scan_sightings_lem w gs b n s cap_le h =
    let r = scan_sightings w gs nothing_seen s in
    let paid = scan_sightings-Paid w gs nothing_seen s in
    (
      (scan_sightings-Under b n w cap_le gs nothing_seen).along s h,
      Paid-bound max_new_proposals (pipeline_rows s) r paid,
      λ k e.
          made k (Paid-returned max_new_proposals (pipeline_rows s) r paid k e)
            (scan_sightings-allowance w gs nothing_seen k s e),
    )
  where
    made :
        (k : ScanSummary)
        → pipeline_rows (scan_sightings w gs nothing_seen s).1 + k.proposals_left
          ≡ pipeline_rows s + max_new_proposals
        → allowance k ≡ allowance nothing_seen
        → pipeline_rows (scan_sightings w gs nothing_seen s).1 ≡ pipeline_rows s + k.proposed
    made k e a = omega arith
