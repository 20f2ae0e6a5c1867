-- ===== src/Orchestrator/Tests.antt =====
-- Concrete plans: what dispatch makes of them, and the theorems at them.
use adam_abundance.Base.{
  ◌≤◌, ◌≡◌, refl, true, false, none, some, List, [], ◌∷◌, Result, ℤ, pos, arith, if◌then◌else◌,
  ◌||◌, inl, inr, Bool-cases,
}
use adam_abundance.Memory.Types.{default_ttl}
use adam_abundance.Memory.Store.{is_valid_scope, write_many}
use adam_abundance.Governor.Caps.{SpendMetric, default_caps, per_day, per_run}
use adam_abundance.Governor.CapsConfig.{resolve_caps, overlay}
use adam_abundance.Governor.Policy.{
  PlanItemStatus, PlanItemView, Decision, Reason, check_action, live_ok,
}
use adam_abundance.Governor.Budget.{Governor, spent, check_budget}
use adam_abundance.Orchestrator.Plans.{
  PlanStatus, Plan, PlanItem, Db, item_keyed, plan_keyed, is_machine, approved_items, mark_item,
  set_plan_status,
}
use adam_abundance.Orchestrator.Approval.{Op, apply_all, NoneApproved, apply_all-NoneApproved}
use adam_abundance.Orchestrator.Dispatch.{
  Outcome, World, Summary, dispatch_plan, dispatch_items, dispatch_item, perform, charge_cost,
}
use adam_abundance.Orchestrator.Isolation.{Permitted, dispatch_plan-agree}
use adam_abundance.Orchestrator.Spend.{spend_within_cap}

abbrev rows : Governor
rows = record {
  caps = default_caps;
  eff_caps = none;
  setting = record { row = none; readable = true };
  ledger = [];
  memory = record { entries = []; next_id = 1 };
}

abbrev estimate : SpendMetric → ℤ
estimate SpendMetric.ahrefs_units = pos 600
estimate SpendMetric.llm_micros = pos 0
estimate SpendMetric.bq_bytes = pos 0

abbrev item : PlanItemStatus → PlanItem
item st = record {
  id = 3;
  plan_id = 1;
  rank = 1;
  assigned_agent = "research";
  action_type = "keyword_research";
  params = [];
  rationale = none;
  status = st;
  dry_run = false;
  cost_estimate = estimate;
  result_ref = none;
}

abbrev view : PlanItemView
view = record {
  id = some 3;
  plan_id = some 1;
  rank = 1;
  assigned_agent = "research";
  action_type = "keyword_research";
  params = [];
  rationale = none;
  status = PlanItemStatus.approved;
  dry_run = false;
  brand = "hotcars";
  cost_estimate = estimate;
}

abbrev plan : PlanStatus → Plan
plan st = record {
  id = 1;
  plan_date = 7;
  brand = "hotcars";
  status = st;
  created_by = "orchestrator";
  approved_by = none;
  approved_at = none;
}

abbrev session : PlanStatus → PlanItemStatus → Db
session st it = record {
  plans = plan st ∷ [];
  items = item it ∷ [];
  next_plan = 2;
  next_item = 4;
  governor = rows;
}

abbrev worked : PlanItemView → Governor → Outcome × Governor
worked v g = (
  Outcome.returned (record {
    ok = true;
    dry_run = v.dry_run;
    action_type = v.action_type;
    summary = "done";
    result_ref = [];
    cost = estimate;
    error = none;
    entries = [];
  }),
  g,
)

abbrev world : World
world = record {
  kill = false;
  ttls = default_ttl;
  now = 100;
  today = 7;
  execute = worked;
  post_brief = λ v. true;
}

abbrev machine_ops : List Op
machine_ops =
    Op.create "carbuzz" 8 "orchestrator"
    ∷ Op.approve 3 "orchestrator" true
    ∷ Op.mark 3 PlanItemStatus.failed none
    ∷ []

apply_all-NoneApproved_example :
    NoneApproved (apply_all machine_ops (session PlanStatus.draft PlanItemStatus.proposed))
unfolding is_machine
apply_all-NoneApproved_example =
    apply_all-NoneApproved machine_ops (session PlanStatus.draft PlanItemStatus.proposed)
      (tt, (refl, (refl, tt))) (refl, tt)

-- An agent that raises on whatever is neither a dry run nor approved.
abbrev guarded : PlanItemView → Governor → Outcome × Governor
guarded v g = if v.dry_run || live_ok v.status then worked v g else (Outcome.raised, g)

guarded_agrees :
    (v : PlanItemView) (g : Governor)
    → Permitted world v g
    → (guarded v g ≡ worked v g) × (true ≡ true)
guarded_agrees v g (k, inl d) = rw d (refl, refl)
guarded_agrees v g (k, inr (l, m)) = elim (Bool-cases v.dry_run) [
  | inl d ↦ rw d (refl, refl)
  | inr d ↦ rw (d, l) (refl, refl)
]

dispatch_plan-agree_example :
    dispatch_plan world 1 (session PlanStatus.approved PlanItemStatus.approved)
    ≡ dispatch_plan
        (record world { execute = guarded; post_brief = λ v. true })
        1
        (session PlanStatus.approved PlanItemStatus.approved)
unfolding is_valid_scope
dispatch_plan-agree_example =
    dispatch_plan-agree world guarded (λ v. true) guarded_agrees 1 (plan PlanStatus.approved)
      (session PlanStatus.approved PlanItemStatus.approved) refl refl

abbrev one_done : Summary
one_done = record { dispatched = 1; done = 1; failed = 0; refused = 0 }

one_done-dispatched :
    (dispatch_plan world 1 (session PlanStatus.approved PlanItemStatus.approved)).0
    ≡ Result.ok one_done
unfolding dispatch_plan dispatch_items approved_items dispatch_item check_action check_budget
    per_run resolve_caps overlay per_day perform mark_item write_many set_plan_status
one_done-dispatched = refl

abbrev allowed : Decision
allowed = record { allowed = true; reason = Reason.within_caps; dry_run = false; violations = [] }

allowed-checked : (check_budget default_ttl 100 7 view rows).0 ≡ Result.ok allowed
unfolding check_budget per_run resolve_caps overlay per_day
allowed-checked = refl

spend_within_cap_example :
    spent 7 SpendMetric.ahrefs_units
      (charge_cost 7 estimate "research" (check_budget default_ttl 100 7 view rows).1).ledger
    ≤ 5000
unfolding is_valid_scope per_day resolve_caps overlay
spend_within_cap_example =
    spend_within_cap default_ttl 100 7 view rows estimate "research" allowed
      SpendMetric.ahrefs_units 5000 refl allowed-checked refl (omega arith) refl (omega arith)
