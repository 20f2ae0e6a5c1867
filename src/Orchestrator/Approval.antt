-- ===== src/Orchestrator/Approval.antt =====
-- The human-approval gate of `PlanRepo`.
use adam_abundance.Base.{
  ℕ, String, ◌≡◌, ◌≢◌, refl, Bool, true, false, not, inl, inr, Option, some, List, [], ◌∷◌,
  Bool-cases, Option-cases, Result, All, All-append,
}
use adam_abundance.Base.Table.{find, find-put_key, find-put_key_ne, key-find, All-find, All-put}
use adam_abundance.Memory.Types.{Payload}
use adam_abundance.Governor.Policy.{PlanItemStatus, CostEstimate}
use adam_abundance.Orchestrator.Plans.{
  PlanStatus, Plan, PlanItem, item_keyed, plan_keyed, Db, human_approver_required, is_machine,
  is_approved, approve_item, reject_item, edit_item, approve_plan, mark_item, set_plan_status,
  add_item, create_plan, ResultRef,
}

-- A machine's approval raises and changes nothing, whatever the item.
approve_item-machine :
    (i : ℕ) (approver : String) (go_live : Bool) (s : Db)
    → is_machine approver ≡ true
    → approve_item i approver go_live s ≡ (Result.err human_approver_required, s)
unfolding approve_item
approve_item-machine i approver go_live s h = rw h refl

-- A human's approval of an item that is there gives it the approved status, and takes it out of the
-- dry run exactly when going live was asked for; every other item, and every plan, stays.
approve_item-human :
    (i : ℕ) (approver : String) (go_live : Bool) (item : PlanItem) (s : Db)
    → is_machine approver ≡ false
    → find i s.items ≡ some item
    → let (r, s') = approve_item i approver go_live s in
      (r ≡ Result.ok (record item { status = PlanItemStatus.approved; dry_run = not go_live }))
      × (find i s'.items
          ≡ some (record item { status = PlanItemStatus.approved; dry_run = not go_live }))
      × ((j : ℕ) → i ≢ j → find j s'.items ≡ find j s.items)
      × (s'.plans ≡ s.plans)
unfolding approve_item
approve_item-human i approver go_live item s h e =
    let item' : PlanItem = record item {
      status = PlanItemStatus.approved;
      dry_run = not go_live;
    } in
    let keyed : item'.id ≡ i = key-find i item s.items e in
    rw (h, e)
      (
        refl,
        find-put_key i item' item s.items e keyed,
        (λ j ne. find-put_key_ne i j item' s.items ne keyed),
        refl,
      )

-- What the orchestrator and the other machine actors may call: all of the repository, with the
-- marks that dispatch makes.
pub data Op : Type 0 where
  create : String → ℕ → String → Op
  add : Plan → ℕ → String → String → Payload → Option String → CostEstimate → Bool → Op
  approve : ℕ → String → Bool → Op
  approve_whole : ℕ → String → ℕ → Op
  reject : ℕ → String → Op
  edit : ℕ → Option Payload → Option String → Op
  mark : ℕ → PlanItemStatus → Option ResultRef → Op
  set_status : ℕ → PlanStatus → Op

unfoldable pub apply : Op → Db → Db
apply (create brand plan_date by) s = (create_plan brand plan_date by s).1
apply (add plan rank agent action params rationale cost dry) s =
    (add_item plan rank agent action params rationale cost dry s).1
apply (approve i by go_live) s = (approve_item i by go_live s).1
apply (approve_whole i by now) s = (approve_plan i by now s).1
apply (reject i by) s = (reject_item i by s).1
apply (edit i params rationale) s = (edit_item i params rationale s).1
apply (mark i status ref) s = (mark_item i status ref s).1
apply (set_status i status) s = (set_plan_status i status s).1

unfoldable pub apply_all : List Op → Db → Db
unfolding apply
apply_all [] s = s
apply_all (op ∷ ops) s = apply_all ops (apply op s)

-- No human is behind the call, and no mark is an approval.
abbrev pub ByMachine : Op → Type 0
ByMachine (approve i by go_live) = is_machine by ≡ true
ByMachine (mark i status ref) = is_approved status ≡ false
ByMachine _ = Unit

abbrev pub NoneApproved : Db → Type 0
NoneApproved s = All (λ i. is_approved i.status ≡ false) s.items

abbrev Unapproved : PlanItem → Type 0
Unapproved i = is_approved i.status ≡ false

module _ (s : Db) (h : NoneApproved s) where
  approve_item-NoneApproved :
      (i : ℕ) (by : String) (go_live : Bool)
      → is_machine by ≡ true
      → NoneApproved (approve_item i by go_live s).1
  approve_item-NoneApproved i by go_live m = rw (approve_item-machine i by go_live s m) h

  approve_plan-NoneApproved :
      (i : ℕ) (by : String) (now : ℕ) → NoneApproved (approve_plan i by now s).1
  unfolding approve_plan
  approve_plan-NoneApproved i by now = elim (Bool-cases (is_machine by)) [
    | inl b ↦ rw b h
    | inr b ↦ elim (Option-cases (find i s.plans)) [
      | inl e ↦ rw (b, e) h
      | inr (p, e) ↦ rw (b, e) h
    ]
  ]

  reject_item-NoneApproved : (i : ℕ) (by : String) → NoneApproved (reject_item i by s).1
  unfolding reject_item
  reject_item-NoneApproved i by = elim (Option-cases (find i s.items)) [
    | inl e ↦ rw e h
    | inr (x, e) ↦ rw e (All-put Unapproved _ _ s.items refl h)
  ]

  edit_item-NoneApproved :
      (i : ℕ) (params : Option Payload) (rationale : Option String)
      → NoneApproved (edit_item i params rationale s).1
  unfolding edit_item
  edit_item-NoneApproved i params rationale = elim (Option-cases (find i s.items)) [
    | inl e ↦ rw e h
    | inr (x, e) ↦ rw e (All-put Unapproved _ _ s.items (All-find Unapproved i x s.items h e) h)
  ]

  mark_item-NoneApproved :
      (i : ℕ) (status : PlanItemStatus) (ref : Option ResultRef)
      → is_approved status ≡ false
      → NoneApproved (mark_item i status ref s).1
  unfolding mark_item
  mark_item-NoneApproved i status ref m = elim (Option-cases (find i s.items)) [
    | inl e ↦ rw e h
    | inr (x, e) ↦ rw e (All-put Unapproved _ _ s.items m h)
  ]

  set_plan_status-NoneApproved :
      (i : ℕ) (status : PlanStatus) → NoneApproved (set_plan_status i status s).1
  unfolding set_plan_status
  set_plan_status-NoneApproved i status = elim (Option-cases (find i s.plans)) [
    | inl e ↦ rw e h
    | inr (p, e) ↦ rw e h
  ]

  apply-NoneApproved : (op : Op) → ByMachine op → NoneApproved (apply op s)
  unfolding apply create_plan add_item
  apply-NoneApproved (create brand plan_date by) m = h
  apply-NoneApproved (add plan rank agent action params rationale cost dry) m =
      All-append Unapproved s.items _ h (refl, tt)
  apply-NoneApproved (approve i by go_live) m = approve_item-NoneApproved i by go_live m
  apply-NoneApproved (approve_whole i by now) m = approve_plan-NoneApproved i by now
  apply-NoneApproved (reject i by) m = reject_item-NoneApproved i by
  apply-NoneApproved (edit i params rationale) m = edit_item-NoneApproved i params rationale
  apply-NoneApproved (mark i status ref) m = mark_item-NoneApproved i status ref m
  apply-NoneApproved (set_status i status) m = set_plan_status-NoneApproved i status

-- However long machines work on the plans (creating, adding, editing, rejecting, marking,
-- approving under a machine's name), no item becomes approved.
pub apply_all-NoneApproved :
    (ops : List Op) (s : Db) → All ByMachine ops → NoneApproved s → NoneApproved (apply_all ops s)
unfolding apply_all
apply_all-NoneApproved [] s m h = h
apply_all-NoneApproved (op ∷ ops) s m h =
    apply_all-NoneApproved ops (apply op s) m.1 (apply-NoneApproved s h op m.0)
