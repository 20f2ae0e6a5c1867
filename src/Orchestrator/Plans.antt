-- ===== src/Orchestrator/Plans.antt =====
-- `PlanRepo` of orchestrator/plans.py, over the rows of `plan` and `plan_item`. The governor of the
-- same session stands beside them.
use adam_abundance.Base.{
  ℕ, ◌+◌, String, Bool, true, false, not, ◌&&◌, Option, none, some, List, [], ◌∷◌, ◌++◌, leb, ◌==◌,
  if◌then◌else◌, Exec, Result, pure, raise, raise_if, gets, modify, ◌>>=◌, ◌>>◌, keep, or_else,
}
use adam_abundance.Base.Table.{Keyed, find, put}
use adam_abundance.Base.Text.{codes, strip, lower, is_one_of}
use adam_abundance.Memory.Types.{Payload}
use adam_abundance.Memory.Store.{StoreError}
use adam_abundance.Governor.Policy.{PlanItemStatus, CostEstimate, PlanItemView, Reason}
use adam_abundance.Governor.Budget.{Governor}

pub data PlanStatus : Type 0 where
  draft approved dispatched done cancelled : PlanStatus

pub record Plan : Type 0 where
  pub id : ℕ
  pub plan_date : ℕ
  pub brand : String
  pub status : PlanStatus
  pub created_by : String
  pub approved_by : Option String
  pub approved_at : Option ℕ

-- What dispatch leaves in `result_ref`: the reason of a refusal, or the result of the run (its
-- own reference, whether it was a dry run, its summary and its error).
pub data ResultRef : Type 0 where
  refused : Reason → ResultRef
  finished : Payload → Bool → String → Option String → ResultRef

pub record PlanItem : Type 0 where
  pub id : ℕ
  pub plan_id : ℕ
  pub rank : ℕ
  pub assigned_agent : String
  pub action_type : String
  pub params : Payload
  pub rationale : Option String
  pub status : PlanItemStatus
  pub dry_run : Bool
  pub cost_estimate : CostEstimate
  pub result_ref : Option ResultRef

instance abbrev pub plan_keyed : Keyed Plan
plan_keyed = record { key = λ p. p.id }

instance abbrev pub item_keyed : Keyed PlanItem
item_keyed = record { key = λ i. i.id }

pub record Db : Type 0 where
  pub plans : List Plan
  pub items : List PlanItem
  pub next_plan : ℕ
  pub next_item : ℕ
  pub governor : Governor

pub data PlanError : Type 0 where
  human_approver_required : PlanError
  plan_not_found : ℕ → PlanError
  plan_item_not_found : ℕ → PlanError
  plan_not_approved : ℕ → PlanStatus → PlanError
  store_refused : StoreError → PlanError
  agent_raised : PlanError
  unhashable : PlanError

unfoldable pub to_view : PlanItem → String → PlanItemView
to_view item brand = record {
  id = some item.id;
  plan_id = some item.plan_id;
  rank = item.rank;
  assigned_agent = item.assigned_agent;
  action_type = item.action_type;
  params = item.params;
  rationale = item.rationale;
  status = item.status;
  dry_run = item.dry_run;
  brand = brand;
  cost_estimate = item.cost_estimate;
}

abbrev pub put_plan : Plan → Db → Db
put_plan p s = record s { plans = put p.id p s.plans }

abbrev pub put_item : PlanItem → Db → Db
put_item i s = record s { items = put i.id i s.items }

unfoldable pub create_plan : String → ℕ → String → Exec Db PlanError Plan
create_plan brand plan_date created_by s =
    let plan : Plan = record {
      id = s.next_plan;
      plan_date = plan_date;
      brand = brand;
      status = PlanStatus.draft;
      created_by = created_by;
      approved_by = none;
      approved_at = none;
    } in
    (Result.ok plan, record s { plans = s.plans ++ plan ∷ []; next_plan = s.next_plan + 1 })

unfoldable pub add_item :
    Plan
    → ℕ
    → String
    → String
    → Payload
    → Option String
    → CostEstimate
    → Bool
    → Exec Db PlanError PlanItem
add_item plan rank assigned_agent action_type params rationale cost_estimate dry_run s =
    let item : PlanItem = record {
      id = s.next_item;
      plan_id = plan.id;
      rank = rank;
      assigned_agent = assigned_agent;
      action_type = action_type;
      params = params;
      rationale = rationale;
      status = PlanItemStatus.proposed;
      dry_run = dry_run;
      cost_estimate = cost_estimate;
      result_ref = none;
    } in
    (Result.ok item, record s { items = s.items ++ item ∷ []; next_item = s.next_item + 1 })

abbrev or_raise : {A : Type 0} → Option A → PlanError → Exec Db PlanError A
or_raise none e = raise e
or_raise (some a) e = pure a

unfoldable pub get_item : ℕ → Exec Db PlanError PlanItem
get_item i = do found ← gets (λ s. find i s.items); or_raise found (plan_item_not_found i)

unfoldable pub get_plan : ℕ → Exec Db PlanError Plan
get_plan i = do found ← gets (λ s. find i s.plans); or_raise found (plan_not_found i)

-- The names under which nobody may approve, after stripping and lower-casing.
unfoldable pub is_machine : String → Bool
is_machine approver =
    is_one_of (lower (strip (codes approver))) ("" ∷ "orchestrator" ∷ "system" ∷ [])

abbrev pub validate_actor : String → Exec Db PlanError (Unit {0})
validate_actor approver = raise_if (is_machine approver) human_approver_required

unfoldable pub approve_item : ℕ → String → Bool → Exec Db PlanError PlanItem
unfolding get_item
approve_item i approver go_live = do
  validate_actor approver
  item ← get_item i
  let item' = record item { status = PlanItemStatus.approved; dry_run = not go_live }
  modify (put_item item')
  pure item'

unfoldable pub reject_item : ℕ → String → Exec Db PlanError PlanItem
unfolding get_item
reject_item i approver = do
  item ← get_item i
  let item' = record item { status = PlanItemStatus.rejected }
  modify (put_item item')
  pure item'

abbrev or_kept : {A : Type 0} → Option A → Option A → Option A
or_kept none old = old
or_kept (some a) old = some a

unfoldable pub edit_item : ℕ → Option Payload → Option String → Exec Db PlanError PlanItem
unfolding get_item
edit_item i params rationale = do
  item ← get_item i
  let item' = record item {
    params = or_else params item.params;
    rationale = or_kept rationale item.rationale;
  }
  modify (put_item item')
  pure item'

unfoldable pub approve_plan : ℕ → String → ℕ → Exec Db PlanError Plan
unfolding get_plan
approve_plan i approver now = do
  validate_actor approver
  plan ← get_plan i
  let plan' = record plan {
    status = PlanStatus.approved;
    approved_by = some approver;
    approved_at = some now;
  }
  modify (put_plan plan')
  pure plan'

unfoldable pub mark_item : ℕ → PlanItemStatus → Option ResultRef → Exec Db PlanError PlanItem
unfolding get_item
mark_item i status result_ref = do
  item ← get_item i
  let item' = record item { status = status; result_ref = or_kept result_ref item.result_ref }
  modify (put_item item')
  pure item'

abbrev with_status : PlanStatus → Option Plan → Db → Db
with_status status none s = s
with_status status (some p) s = put_plan (record p { status = status }) s

unfoldable pub set_plan_status : ℕ → PlanStatus → Exec Db PlanError (Unit {0})
set_plan_status i status = modify (λ s. with_status status (find i s.plans) s)

abbrev pub is_approved : PlanItemStatus → Bool
is_approved PlanItemStatus.approved = true
is_approved _ = false

-- Among items of one rank the order is the database's choice: here the earlier row comes first.
abbrev pub insert_rank : PlanItem → List PlanItem → List PlanItem
insert_rank i [] = i ∷ []
insert_rank i (j ∷ js) = if leb i.rank j.rank then i ∷ j ∷ js else j ∷ insert_rank i js

abbrev pub by_rank : List PlanItem → List PlanItem
by_rank [] = []
by_rank (i ∷ is) = insert_rank i (by_rank is)

unfoldable pub approved_items : ℕ → Db → List PlanItem
approved_items plan_id s =
    by_rank (keep (λ i. i.plan_id == plan_id && is_approved i.status) s.items)
