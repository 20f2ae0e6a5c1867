-- ===== src/Orchestrator/Spend.antt =====
-- The daily caps across a budget check and the charge that follows the run.
use adam_abundance.Base.{
  ℕ, zero, suc, ◌+◌, ◌≤◌, String, ◌≡◌, true, Option, some, arith, Result, ℤ, pos, negsuc,
  if◌then◌else◌, ◌==◌,
}
use adam_abundance.Memory.Types.{EntryType}
use adam_abundance.Memory.Store.{is_valid_scope}
use adam_abundance.Governor.Caps.{SpendMetric, SpendCaps, per_day}
use adam_abundance.Governor.Policy.{PlanItemView, Decision}
use adam_abundance.Governor.Budget.{Governor, spent, effective, metrics, check_budget}
use adam_abundance.Governor.Charge.{charged, spent-charge}
use adam_abundance.Governor.Verdict.{fits, misfits, check_budget_lem}
use adam_abundance.Orchestrator.Dispatch.{charge_cost}

-- Charging a cost raises each metric's spend of the day by that metric's amount, if positive.
pub spent-charge_cost :
    (day today : ℕ) (m : SpendMetric) (cost : SpendMetric → ℤ) (agent : String) (g : Governor)
    → spent day m (charge_cost today cost agent g).ledger
      ≡ spent day m g.ledger + (if today == day then charged (cost m) else 0)
unfolding charge_cost
spent-charge_cost day today SpendMetric.ahrefs_units cost agent g =
    rw (spent-charge, spent-charge, spent-charge) (ground arith)
spent-charge_cost day today SpendMetric.llm_micros cost agent g =
    rw (spent-charge, spent-charge, spent-charge) (ground arith)
spent-charge_cost day today SpendMetric.bq_bytes cost agent g =
    rw (spent-charge, spent-charge, spent-charge) (ground arith)

fits_of_misfits :
    (caps : SpendCaps) (used : SpendMetric → ℕ) (est : SpendMetric → ℤ) (m : SpendMetric)
    → misfits caps used est metrics ≡ 0
    → fits caps (used m) m (est m) ≡ true
fits_of_misfits caps used est SpendMetric.ahrefs_units h = ground arith
fits_of_misfits caps used est SpendMetric.llm_micros h = ground arith
fits_of_misfits caps used est SpendMetric.bq_bytes h = ground arith

within_of_fits :
    (caps : SpendCaps) (used ceiling : ℕ) (m : SpendMetric) (a : ℤ)
    → fits caps used m a ≡ true
    → per_day caps m ≡ some ceiling
    → used ≤ ceiling
    → used + charged a ≤ ceiling
within_of_fits caps used ceiling m (pos zero) f e h = omega arith
within_of_fits caps used ceiling m (negsuc n) f e h = omega arith
within_of_fits caps used ceiling m (pos (suc n)) f e h = ground arith

-- If the check allows an item of a known scope, and the run costs at most its estimate in a metric,
-- then charging the cost keeps that metric's spend of the day within its cap, where it was so before.
pub spend_within_cap :
    (ttls : EntryType → Option ℕ) (now today : ℕ) (item : PlanItemView) (g : Governor)
    (cost : SpendMetric → ℤ) (agent : String) (d : Decision) (m : SpendMetric) (ceiling : ℕ)
    → is_valid_scope item.brand ≡ true
    → (check_budget ttls now today item g).0 ≡ Result.ok d
    → d.allowed ≡ true
    → charged (cost m) ≤ charged (item.cost_estimate m)
    → per_day (effective g) m ≡ some ceiling
    → spent today m g.ledger ≤ ceiling
    → spent today m (charge_cost today cost agent (check_budget ttls now today item g).1).ledger
      ≤ ceiling
spend_within_cap ttls now today item g cost agent d m ceiling valid e al le cap_of h =
    let (d', e', fit, _, _, c) = check_budget_lem ttls now today item valid g in
    rw
      (
        spent-charge_cost today today m cost agent (check_budget ttls now today item g).1,
        c.ledger_kept,
      )
      (within_cost (
        within_of_fits (effective g) (spent today m g.ledger) ceiling m (item.cost_estimate m)
          (fits_of_misfits (effective g) (λ k. spent today k g.ledger) item.cost_estimate m
            (fit.0 (same_verdict d d' e e' al)))
          cap_of h))
  where
    same_verdict :
        (d d' : Decision)
        → (check_budget ttls now today item g).0 ≡ Result.ok d
        → (check_budget ttls now today item g).0 ≡ Result.ok d'
        → d.allowed ≡ true
        → d'.allowed ≡ true
    same_verdict d d' p q r = cc (p, q, r)

    within_cost :
        spent today m g.ledger + charged (item.cost_estimate m) ≤ ceiling
        → spent today m g.ledger + (if today == today then charged (cost m) else 0) ≤ ceiling
    within_cost k = ground arith
