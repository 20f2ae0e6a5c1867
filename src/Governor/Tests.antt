-- ===== src/Governor/Tests.antt =====
-- Concrete caps, ledgers and items: what the governor says of them, and the theorems at them.
use adam_abundance.Base.{
  ◌≡◌, refl, true, false, ◌⊎◌, ◌↔◌, none, some, [], ◌∷◌, Result, if◌then◌else◌, length, ℤ, pos, ◌≤◌,
  arith,
}
use adam_abundance.Memory.Types.{default_ttl}
use adam_abundance.Memory.Store.{is_valid_scope}
use adam_abundance.Governor.Caps.{SpendMetric, default_caps, day_ceiling, run_ceiling}
use adam_abundance.Governor.CapsConfig.{
  number, negative, Override, overlay, CapsTable, times, usd_micros,
}
use adam_abundance.Governor.Policy.{PlanItemStatus, PlanItemView, Decision, live_ok, check_action}
use adam_abundance.Governor.Budget.{Governor, spent, effective, metrics, check_budget}
use adam_abundance.Governor.Floats.{float}
use adam_abundance.Governor.Overlay.{overlay_bounds}
use adam_abundance.Governor.Gate.{blocking, check_action_lem}
use adam_abundance.Governor.Verdict.{misfits, Checked, check_budget_lem}

abbrev small_override : Override
small_override = record {
  enabled = none;
  llm_usd_per_day = number 1 0;
  bq_gib_per_day = negative;
  ahrefs_units_per_day = number 200 0;
}

abbrev no_override : CapsTable
no_override = record { row = none; readable = true }

abbrev fresh : Governor
fresh = record {
  caps = default_caps;
  eff_caps = none;
  setting = no_override;
  ledger =
      record {
        window_date = 7;
        metric = SpendMetric.ahrefs_units;
        amount = 4500;
        agent = "research";
      }
      ∷ [];
  memory = record { entries = []; next_id = 1 };
}

abbrev estimate : SpendMetric → ℤ
estimate SpendMetric.ahrefs_units = pos 600
estimate SpendMetric.llm_micros = pos 1000
estimate SpendMetric.bq_bytes = pos 0

abbrev live_item : PlanItemView
live_item = record {
  id = some 3;
  plan_id = some 1;
  rank = 1;
  assigned_agent = "research";
  action_type = "keyword_research";
  params = [];
  rationale = none;
  status = PlanItemStatus.approved;
  dry_run = false;
  brand = "hotcars";
  cost_estimate = estimate;
}

-- 4500 of 5000 units are spent: 600 more are refused, though they fit one run.
refused_over_day : (check_action false live_item).allowed ≡ true
unfolding check_action
refused_over_day = refl

check_action_lem_example :
    ((((check_action false live_item).allowed ≡ true)
        × ((check_action false live_item).dry_run ≡ false))
      ↔ ((false ≡ false) × (live_item.dry_run ≡ false) × (live_ok live_item.status ≡ true)))
    × (((check_action false live_item).allowed ≡ false)
        ↔ ((false ≡ true) ⊎ ((live_item.dry_run ≡ false) × (live_ok live_item.status ≡ false))))
    × ((check_action false live_item).allowed ≡ false
        → ((check_action false live_item).dry_run ≡ true)
          × ((check_action false live_item).violations ≡ blocking false ∷ []))
    × ((check_action false live_item).allowed ≡ true
        → (check_action false live_item).violations ≡ [])
check_action_lem_example = check_action_lem false live_item

check_budget_lem_example :
    let over_cap =
      misfits (effective fresh) (λ m. spent 7 m fresh.ledger) live_item.cost_estimate metrics in
    (d : Decision) × ((check_budget default_ttl 100 7 live_item fresh).0 ≡ Result.ok d)
    × ((d.allowed ≡ true) ↔ (over_cap ≡ 0))
    × (d.dry_run ≡ (if d.allowed then live_item.dry_run else true))
    × (length d.violations ≡ over_cap)
    × Checked fresh (check_budget default_ttl 100 7 live_item fresh).1 over_cap
unfolding is_valid_scope
check_budget_lem_example = check_budget_lem default_ttl 100 7 live_item refl fresh

-- The float that is nearest to 2.01, as a cap in dollars, is one millionth less than that.
cents_lost : times usd_micros (float 201 99) ≡ 2_009_999
unfolding float
cents_lost = refl

overlay_bounds_example :
    (run_ceiling (overlay default_caps (some small_override)) SpendMetric.llm_micros
      ≤ day_ceiling (overlay default_caps (some small_override)) SpendMetric.llm_micros)
    × (run_ceiling (overlay default_caps (some small_override)) SpendMetric.llm_micros
        ≤ run_ceiling default_caps SpendMetric.llm_micros)
overlay_bounds_example =
    overlay_bounds default_caps (some small_override) SpendMetric.llm_micros (omega arith)

-- The override's dollar is a million; its negative number of GiB leaves the default.
overlaid :
    day_ceiling (overlay default_caps (some small_override)) SpendMetric.llm_micros ≡ 1_000_000
unfolding overlay
overlaid = refl

bq_default :
    day_ceiling (overlay default_caps (some small_override)) SpendMetric.bq_bytes
    ≡ day_ceiling default_caps SpendMetric.bq_bytes
unfolding overlay
bq_default = refl
