-- ===== src/Governor/Policy.antt =====
-- The sync policy of governor.py and the data of its verdicts (`PlanItemView`, `Decision` of
-- interfaces.py, `PlanItemStatus` of db/enums.py).
use adam_abundance.Base.{
  ℕ, String, Bool, true, false, not, ◌&&◌, Option, List, [], ◌∷◌, if◌then◌else◌, ℤ,
}
use adam_abundance.Governor.Caps.{SpendMetric}
use adam_abundance.Memory.Types.{Payload}

pub data PlanItemStatus : Type 0 where
  proposed approved rejected dispatched running done failed : PlanItemStatus

-- The cost estimate gives each metric an amount; a missing key and `None` read as zero.
abbrev pub CostEstimate : Type 0
CostEstimate = SpendMetric → ℤ

pub record PlanItemView : Type 0 where
  pub id : Option ℕ
  pub plan_id : Option ℕ
  pub rank : ℕ
  pub assigned_agent : String
  pub action_type : String
  pub params : Payload
  pub rationale : Option String
  pub status : PlanItemStatus
  pub dry_run : Bool
  pub brand : String
  pub cost_estimate : CostEstimate

pub data Violation : Type 0 where
  kill_switch : Violation
  approval_gate : Violation
  over_per_run : SpendMetric → ℕ → ℕ → Violation
  over_per_day : SpendMetric → ℕ → ℕ → ℕ → Violation

pub data Reason : Type 0 where
  kill_switch_engaged : Reason
  live_requires_approval : PlanItemStatus → Reason
  approved_for_live : Reason
  dry_run_only : Reason
  caps_exceeded : List Violation → Reason
  within_caps : Reason

pub record Decision : Type 0 where
  pub allowed : Bool
  pub reason : Reason
  pub dry_run : Bool
  pub violations : List Violation

-- `_LIVE_OK_STATUSES`
abbrev pub live_ok : PlanItemStatus → Bool
live_ok PlanItemStatus.approved = true
live_ok PlanItemStatus.dispatched = true
live_ok PlanItemStatus.running = true
live_ok _ = false

-- `check_action`, with the setting `kill_switch`.
unfoldable pub check_action : Bool → PlanItemView → Decision
check_action kill item =
    let wants_live = not item.dry_run in
    let is_approved = live_ok item.status in
    let effective_dry_run = not (wants_live && is_approved) in
    if kill
    then record {
      allowed = false;
      dry_run = true;
      reason = kill_switch_engaged;
      violations = Violation.kill_switch ∷ [];
    }
    else if wants_live && not is_approved
    then record {
      allowed = false;
      dry_run = true;
      reason = live_requires_approval item.status;
      violations = Violation.approval_gate ∷ [];
    }
    else record {
      allowed = true;
      dry_run = effective_dry_run;
      reason = if not effective_dry_run then approved_for_live else dry_run_only;
      violations = [];
    }
