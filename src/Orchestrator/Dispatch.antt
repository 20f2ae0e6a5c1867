-- ===== src/Orchestrator/Dispatch.antt =====
-- `Dispatcher` of orchestrator/dispatch.py. What the agents and Slack do is a parameter: any
-- function of the view and of the governor's rows.
use adam_abundance.Base.{
  ℕ, ◌+◌, String, Bool, true, false, not, ◌&&◌, ◌||◌, Option, none, some, List, [], ◌∷◌,
  if◌then◌else◌, Exec, Result, pure, raise_if, gets, modify, ◌>>=◌, ◌>>◌, str_eq, ℤ,
}
use adam_abundance.Memory.Types.{EntryType, Value, Payload, EntryDraft, Memory, text, bool}
use adam_abundance.Memory.Store.{StoreError, write_many}
use adam_abundance.Governor.Caps.{SpendMetric}
use adam_abundance.Governor.Policy.{PlanItemStatus, PlanItemView, Reason, Decision, check_action}
use adam_abundance.Governor.Budget.{Governor, check_budget, charge, metrics}
use adam_abundance.Orchestrator.Plans.{
  PlanStatus, ResultRef, PlanItem, Db, PlanError, plan_not_approved, store_refused, agent_raised,
  to_view, get_plan, mark_item, set_plan_status, approved_items,
}

-- `ActionResult` of interfaces.py; the cost gives each metric an amount.
pub record ActionResult : Type 0 where
  pub ok : Bool
  pub dry_run : Bool
  pub action_type : String
  pub summary : String
  pub result_ref : Payload
  pub cost : SpendMetric → ℤ
  pub error : Option String
  pub entries : List EntryDraft

-- How an agent's `execute` ends.
pub data Outcome : Type 0 where
  returned : ActionResult → Outcome
  not_implemented : Outcome
  raised : Outcome

-- The world that a dispatch runs in: the setting of the kill switch, the TTLs, the clock, what an
-- agent does with a view, and whether Slack takes the message of a `notify` view.
pub record World : Type 0 where
  pub kill : Bool
  pub ttls : EntryType → Option ℕ
  pub now : ℕ
  pub today : ℕ
  pub execute : PlanItemView → Governor → Outcome × Governor
  pub post_brief : PlanItemView → Bool

-- `_AGENT_NAMES`
unfoldable pub is_agent : String → Bool
is_agent a =
    str_eq a "research"
    || str_eq a "analytics"
    || str_eq a "opportunity"
    || str_eq a "production"
    || str_eq a "paid_media"
    || str_eq a "reporting"

abbrev pub lookup : String → Payload → Value
lookup k [] = Value.null
lookup k ((j, v) ∷ p) = if str_eq j k then v else lookup k p

abbrev no_cost : SpendMetric → ℤ
no_cost m = ℤ.pos 0

abbrev pub failure : PlanItemView → String → ActionResult
failure view error = record {
  ok = false;
  dry_run = view.dry_run;
  action_type = view.action_type;
  summary = "";
  result_ref = [];
  cost = no_cost;
  error = some error;
  entries = [];
}

abbrev notify_entry : PlanItemView → Bool → EntryDraft
notify_entry view posted = record {
  type = EntryType.decision;
  brand = view.brand;
  source_agent = "orchestrator";
  source_system = some "orchestrator";
  payload =
      ("kind", text "notify")
      ∷ ("message", lookup "message" view.params)
      ∷ ("posted", bool posted)
      ∷ [];
  verified = false;
  confidence = none;
  source_urls = none;
  expires_at = none;
  ttl_seconds = none;
  status = none;
}

abbrev notified : PlanItemView → Bool → ActionResult
notified view posted = record {
  ok = true;
  dry_run = view.dry_run;
  action_type = "notify";
  summary = if posted then "notified" else "logged";
  result_ref = ("posted", bool posted) ∷ [];
  cost = no_cost;
  error = none;
  entries = notify_entry view posted ∷ [];
}

abbrev pub on_result : {A : Type 0} → Db → Result StoreError A → Governor → Result PlanError A × Db
on_result s (Result.ok a) g = (Result.ok a, record s { governor = g })
on_result s (Result.err e) g = (Result.err (store_refused e), record s { governor = g })

-- An action on the governor's rows, as an action on the session.
abbrev pub on_governor : {A : Type 0} → Exec Governor StoreError A → Exec Db PlanError A
on_governor m s = let (r, g) = m s.governor in on_result s r g

abbrev pub on_memory : {A : Type 0} → Exec Memory StoreError A → Exec Governor StoreError A
on_memory m g = let (r, mem) = m g.memory in (r, record g { memory = mem })

-- The governor's `charge` of each metric whose cost is positive.
unfoldable pub charge_metrics :
    ℕ → (SpendMetric → ℤ) → String → List SpendMetric → Governor → Governor
charge_metrics today cost agent [] g = g
charge_metrics today cost agent (m ∷ ms) g =
    charge_metrics today cost agent ms (charge today m (cost m) agent g)

-- `_charge`
unfoldable pub charge_cost : ℕ → (SpendMetric → ℤ) → String → Governor → Governor
unfolding charge_metrics
charge_cost today cost agent g = charge_metrics today cost agent metrics g

-- What became of one item: refused, or run, and then whether its result was ok.
pub data Disposal : Type 0 where
  refused_for : Reason → Disposal
  ran : Bool → Disposal

pub record Summary : Type 0 where
  pub dispatched : ℕ
  pub done : ℕ
  pub failed : ℕ
  pub refused : ℕ

abbrev pub tally : Disposal → Summary → Summary
tally (refused_for r) t = record t { refused = t.refused + 1 }
tally (ran true) t = record t { dispatched = t.dispatched + 1; done = t.done + 1 }
tally (ran false) t = record t { dispatched = t.dispatched + 1; failed = t.failed + 1 }

abbrev pub tally_all : Summary → List Disposal → Summary
tally_all t [] = t
tally_all t (d ∷ ds) = tally_all (tally d t) ds

abbrev pub none_yet : Summary
none_yet = record { dispatched = 0; done = 0; failed = 0; refused = 0 }

abbrev pub summarise : List Disposal → Summary
summarise = tally_all none_yet

unfoldable pub refuse : ℕ → Reason → Exec Db PlanError Disposal
refuse i reason = do
  mark_item i PlanItemStatus.failed (some (ResultRef.refused reason))
  pure (refused_for reason)

abbrev pub charge_if : ℕ → Bool → ActionResult → String → Db → Db
charge_if today live result agent s =
    if live && result.ok
    then record s { governor = charge_cost today result.cost agent s.governor }
    else s

abbrev pub may_dispatch : PlanStatus → Bool
may_dispatch PlanStatus.approved = true
may_dispatch PlanStatus.dispatched = true
may_dispatch _ = false

module _ (w : World) where
  abbrev finish : PlanItemView → Outcome → Governor → Result PlanError ActionResult × Governor
  finish view (returned r) g = (Result.ok r, g)
  finish view not_implemented g =
      (Result.ok (failure view "action adapter not implemented yet (Phase 4)"), g)
  finish view raised g = (Result.err agent_raised, g)

  abbrev pub run_agent : PlanItemView → Exec Db PlanError ActionResult
  run_agent view s =
      let (o, g) = w.execute view s.governor in
      let (r, g') = finish view o g in (r, record s { governor = g' })

  -- `_run`
  unfoldable pub run : PlanItemView → Exec Db PlanError ActionResult
  unfolding is_agent
  run view =
      if str_eq view.action_type "notify"
      then pure (notified view (w.post_brief view))
      else if not (is_agent view.assigned_agent)
      then pure (failure view "no agent to execute action")
      else run_agent view

  -- What follows the two gates: the item runs with the view that they let through.
  unfoldable pub perform : ℕ → PlanItemView → Exec Db PlanError Disposal
  unfolding run charge_cost
  perform i effective = do
    mark_item i PlanItemStatus.dispatched none
    result ← run effective
    on_governor (on_memory (write_many w.ttls w.now false result.entries))
    modify (charge_if w.today (not effective.dry_run) result effective.assigned_agent)
    mark_item i (if result.ok then PlanItemStatus.done else PlanItemStatus.failed)
        (some (ResultRef.finished result.result_ref result.dry_run result.summary result.error))
    pure (ran result.ok)

  abbrev pub after_budget : ℕ → PlanItemView → Decision → Exec Db PlanError Disposal
  after_budget i effective budget =
      if budget.allowed then perform i effective else refuse i budget.reason

  abbrev pub after_action : ℕ → PlanItemView → Decision → Exec Db PlanError Disposal
  after_action i view decision =
      let effective : PlanItemView = record view { dry_run = decision.dry_run } in
      if not decision.allowed
      then refuse i decision.reason
      else if decision.dry_run
      then perform i effective
      else on_governor (check_budget w.ttls w.now w.today effective) >>= after_budget i effective

  -- The body of the loop.
  unfoldable pub dispatch_item : String → PlanItem → Exec Db PlanError Disposal
  unfolding to_view
  dispatch_item brand item =
      after_action item.id (to_view item brand) (check_action w.kill (to_view item brand))

  unfoldable pub dispatch_items : String → List PlanItem → Exec Db PlanError (List Disposal)
  dispatch_items brand [] = pure []
  dispatch_items brand (item ∷ items) = do
    d ← dispatch_item brand item
    ds ← dispatch_items brand items
    pure (d ∷ ds)

  unfoldable pub dispatch_plan : ℕ → Exec Db PlanError Summary
  unfolding get_plan
  dispatch_plan plan_id = do
    plan ← get_plan plan_id
    raise_if (not (may_dispatch plan.status)) (plan_not_approved plan_id plan.status)
    items ← gets (approved_items plan_id)
    ds ← dispatch_items plan.brand items
    set_plan_status plan_id PlanStatus.dispatched
    pure (summarise ds)
