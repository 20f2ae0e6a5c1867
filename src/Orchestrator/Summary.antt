-- ===== src/Orchestrator/Summary.antt =====
-- The summary that dispatch returns, its refusals, and the spend that it leaves.
use adam_abundance.Base.{
  ℕ, suc, ◌+◌, String, ◌≡◌, refl, true, false, inl, inr, none, some, List, [], ◌∷◌, arith,
  Bool-cases, Option-cases, Result, length, bind-inv, ap,
}
use adam_abundance.Base.Table.{find}
use adam_abundance.Orchestrator.Plans.{
  Plan, PlanItem, plan_keyed, Db, PlanError, plan_not_found, plan_not_approved, set_plan_status,
  approved_items,
}
use adam_abundance.Orchestrator.Dispatch.{
  World, Disposal, refused_for, ran, Summary, tally, tally_all, none_yet, summarise, dispatch_item,
  dispatch_items, dispatch_plan, may_dispatch,
}

-- A plan that is missing, or neither approved nor dispatched, is refused with nothing changed.
pub dispatch_plan-refused :
    (w : World) (plan_id : ℕ) (s : Db)
    → (find plan_id s.plans ≡ none
        → dispatch_plan w plan_id s ≡ (Result.err (plan_not_found plan_id), s))
      × ((plan : Plan)
          → find plan_id s.plans ≡ some plan
          → may_dispatch plan.status ≡ false
          → dispatch_plan w plan_id s ≡ (Result.err (plan_not_approved plan_id plan.status), s))
unfolding dispatch_plan
dispatch_plan-refused w plan_id s = (λ e. rw e refl, λ plan e m. rw (e, m) refl)

tally_all_counts :
    (t : Summary) (ds : List Disposal)
    → t.dispatched ≡ t.done + t.failed
    → ((tally_all t ds).dispatched ≡ (tally_all t ds).done + (tally_all t ds).failed)
      × ((tally_all t ds).dispatched + (tally_all t ds).refused
          ≡ t.dispatched + t.refused + length ds)
tally_all_counts t [] h = (h, omega arith)
tally_all_counts t (refused_for r ∷ ds) h =
    omega (arith, tally_all_counts (tally (refused_for r) t) ds h)
tally_all_counts t (ran true ∷ ds) h =
    omega (arith, tally_all_counts (tally (ran true) t) ds (omega arith))
tally_all_counts t (ran false ∷ ds) h =
    omega (arith, tally_all_counts (tally (ran false) t) ds (omega arith))

dispatch_items-length :
    (w : World) (brand : String) (items : List PlanItem) (s : Db) (ds : List Disposal)
    → (dispatch_items w brand items s).0 ≡ Result.ok ds
    → length ds ≡ length items
unfolding dispatch_items
dispatch_items-length w brand [] s ds h = rw (← nothing ds h) refl
  where
    nothing :
        (ds : List Disposal)
        → ◌≡◌ {A = Result PlanError (List Disposal)} (Result.ok []) (Result.ok ds)
        → [] ≡ ds
    nothing ds e = cc
dispatch_items-length w brand (i ∷ is) s ds h =
    let (d, _, h') = bind-inv (dispatch_item w brand i) _ s ds h in
    let (ds', e, h'') = bind-inv (dispatch_items w brand is) _ _ ds h' in
    rw (← joined d ds' ds h'') (ap suc (dispatch_items-length w brand is _ ds' e))
  where
    joined :
        (d : Disposal) (ds' ds : List Disposal)
        → ◌≡◌ {A = Result PlanError (List Disposal)} (Result.ok (d ∷ ds')) (Result.ok ds)
        → d ∷ ds' ≡ ds
    joined d ds' ds e = cc

summary_counts :
    (t : Summary) (ds : List Disposal) (n : ℕ)
    → summarise ds ≡ t
    → length ds ≡ n
    → (t.dispatched ≡ t.done + t.failed) × (t.dispatched + t.refused ≡ n)
summary_counts t ds n e l =
    let (a, b) = tally_all_counts none_yet ds refl in rw (← e) (a, omega (arith, b, l))

-- A dispatch that returns accounts for every approved item of the plan: each was refused or
-- dispatched, and each dispatched one is done or failed.
dispatch_plan-summary :
    (w : World) (plan_id : ℕ) (s : Db) (t : Summary)
    → (dispatch_plan w plan_id s).0 ≡ Result.ok t
    → (t.dispatched ≡ t.done + t.failed)
      × (t.dispatched + t.refused ≡ length (approved_items plan_id s))
unfolding dispatch_plan set_plan_status
dispatch_plan-summary w plan_id s t h = elim (Option-cases (find plan_id s.plans)) [
  | inl e ↦ absurd (no_result (rw e at h))
  | inr (plan, e) ↦ elim (Bool-cases (may_dispatch plan.status)) [
    | inl m ↦
        let items : List PlanItem = approved_items plan_id s in
        let (ds, e', h') = bind-inv (dispatch_items w plan.brand items) _ s t (rw (e, m) at h) in
        summary_counts t ds (length items) (result ds h')
          (dispatch_items-length w plan.brand items s ds e')
    | inr m ↦ absurd (no_result (rw (e, m) at h))
  ]
]
  where
    result :
        (ds : List Disposal)
        → ◌≡◌ {A = Result PlanError Summary} (Result.ok (summarise ds)) (Result.ok t)
        → summarise ds ≡ t
    result ds q = cc

    no_result :
        {x : PlanError} → ◌≡◌ {A = Result PlanError Summary} (Result.err x) (Result.ok t) → ⊥
    no_result e = cc
