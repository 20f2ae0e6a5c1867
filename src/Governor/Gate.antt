-- ===== src/Governor/Gate.antt =====
-- The approval gate of `check_action`.
use adam_abundance.Base.{◌≡◌, ◌⊎◌, ◌↔◌, Bool, true, false, arith, [], ◌∷◌}
use adam_abundance.Governor.Policy.{PlanItemView, Violation, live_ok, check_action}

-- The violation that a refusal names.
abbrev pub blocking : Bool → Violation
blocking true = Violation.kill_switch
blocking false = Violation.approval_gate

-- An action may run live exactly when the kill switch is off and the item asks for it with an
-- approved (or dispatched, or running) status.
check_action_live :
    (kill : Bool) (item : PlanItemView)
    → (((check_action kill item).allowed ≡ true) × ((check_action kill item).dry_run ≡ false))
      ↔ ((kill ≡ false) × (item.dry_run ≡ false) × (live_ok item.status ≡ true))
unfolding check_action
check_action_live kill item = (λ h. ground arith, λ h. ground arith)

-- It is refused exactly under the kill switch, or when it asks to run live without an approved
-- status.
check_action_refused :
    (kill : Bool) (item : PlanItemView)
    → ((check_action kill item).allowed ≡ false)
      ↔ ((kill ≡ true) ⊎ ((item.dry_run ≡ false) × (live_ok item.status ≡ false)))
unfolding check_action
check_action_refused kill item = (λ h. ground arith, λ h. ground arith)

-- A refusal forces the dry run and names one violation, and an allowance names none.
check_action_named :
    (kill : Bool) (item : PlanItemView)
    → ((check_action kill item).allowed ≡ false
        → ((check_action kill item).dry_run ≡ true)
          × ((check_action kill item).violations ≡ blocking kill ∷ []))
      × ((check_action kill item).allowed ≡ true → (check_action kill item).violations ≡ [])
unfolding check_action
check_action_named kill item = (λ h. ground arith, λ h. ground arith)

-- An action may run live exactly when the kill switch is off and the item asks for it with an
-- approved (or dispatched, or running) status. It is refused exactly under the kill switch, or when
-- it asks to run live without such a status. A refusal forces the dry run and names the kill switch,
-- if that is on, and else the approval gate; an allowance names no violation.
pub check_action_lem :
    (kill : Bool) (item : PlanItemView)
    → ((((check_action kill item).allowed ≡ true) × ((check_action kill item).dry_run ≡ false))
        ↔ ((kill ≡ false) × (item.dry_run ≡ false) × (live_ok item.status ≡ true)))
      × (((check_action kill item).allowed ≡ false)
          ↔ ((kill ≡ true) ⊎ ((item.dry_run ≡ false) × (live_ok item.status ≡ false))))
      × ((check_action kill item).allowed ≡ false
          → ((check_action kill item).dry_run ≡ true)
            × ((check_action kill item).violations ≡ blocking kill ∷ []))
      × ((check_action kill item).allowed ≡ true → (check_action kill item).violations ≡ [])
check_action_lem kill item = (
  check_action_live kill item,
  check_action_refused kill item,
  (check_action_named kill item).0,
  (check_action_named kill item).1,
)
