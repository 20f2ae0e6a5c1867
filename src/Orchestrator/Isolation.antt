-- ===== src/Orchestrator/Isolation.antt =====
-- When dispatch lets an agent act: two worlds whose agents do the same with the views that the
-- governor permits are dispatched alike, whatever else the agents would do.
use adam_abundance.Base.{
  ℕ, String, ◌≡◌, refl, Bool, true, false, not, ◌⊎◌, inl, inr, Option, none, some, List, [], ◌∷◌,
  Bool-cases, Option-cases, ◌>>=◌, raise_if, ◌∙◌, bind-cong_left, bind-cong_right, str_eq,
}
use adam_abundance.Base.Table.{find}
use adam_abundance.Memory.Store.{is_valid_scope}
use adam_abundance.Governor.Policy.{PlanItemStatus, PlanItemView, live_ok, check_action, Reason}
use adam_abundance.Governor.Budget.{Governor, effective, spent, metrics, check_budget}
use adam_abundance.Governor.Gate.{blocking}
use adam_abundance.Governor.Verdict.{misfits, check_budget_lem}
use adam_abundance.Orchestrator.Plans.{
  Plan, PlanItem, item_keyed, plan_keyed, Db, ResultRef, mark_item, to_view,
}
use adam_abundance.Orchestrator.Dispatch.{
  World, Outcome, run, after_budget, perform, dispatch_item, dispatch_items, dispatch_plan,
  may_dispatch, is_agent, on_governor,
}

-- What the governor permits of a view, at its rows: nothing under the kill switch; a dry run; or a
-- live run of an approved item whose every amount is within the caps.
abbrev pub Permitted : World → PlanItemView → Governor → Type 0
Permitted w v g =
    (w.kill ≡ false)
    × ((v.dry_run ≡ true)
        ⊎ ((live_ok v.status ≡ true)
            × (misfits (effective g) (λ m. spent w.today m g.ledger) v.cost_estimate metrics ≡ 0)))

governor-mark_item :
    (i : ℕ) (st : PlanItemStatus) (r : Option ResultRef) (s : Db)
    → (mark_item i st r s).1.governor ≡ s.governor
unfolding mark_item
governor-mark_item i st r s = elim (Option-cases (find i s.items)) [
  | inl e ↦ rw e refl
  | inr (x, e) ↦ rw e refl
]

-- The three ways on which `check_action` sends a view.
action_cases :
    (kill : Bool) (v : PlanItemView)
    → ((r : Reason) × (check_action kill v ≡ record {
      allowed = false;
      dry_run = true;
      reason = r;
      violations = blocking kill ∷ [];
    }))
      ⊎ ((kill ≡ false)
          × (r : Reason) × (check_action kill v
              ≡ record { allowed = true; dry_run = true; reason = r; violations = [] }))
      ⊎ ((kill ≡ false)
          × (live_ok v.status ≡ true)
          × (r : Reason) × (check_action kill v
              ≡ record { allowed = true; dry_run = false; reason = r; violations = [] }))
unfolding check_action
action_cases true v = inl (_, refl)
action_cases false v = elim (Bool-cases v.dry_run) [
  | inl d ↦ rw d (inr (inl (refl, _, refl)))
  | inr d ↦ elim (Bool-cases (live_ok v.status)) [
    | inl l ↦ rw (d, l) (inr (inr (refl, refl, _, refl)))
    | inr l ↦ rw (d, l) (inl (_, refl))
  ]
]

module _ (w : World) (execute' : PlanItemView → Governor → Outcome × Governor)
    (post_brief' : PlanItemView → Bool)
    (agree : (v : PlanItemView) (g : Governor)
      → Permitted w v g
      → (execute' v g ≡ w.execute v g) × (post_brief' v ≡ w.post_brief v)) where
  abbrev w' : World
  w' = record w { execute = execute'; post_brief = post_brief' }

  run-agree : (v : PlanItemView) (s : Db) → Permitted w v s.governor → run w v s ≡ run w' v s
  unfolding run
  run-agree v s p = elim (Bool-cases (str_eq v.action_type "notify")) [
    | inl e ↦ rw (e, (agree v s.governor p).1) refl
    | inr e ↦ elim (Bool-cases (is_agent v.assigned_agent)) [
      | inl a ↦ rw (e, a, (agree v s.governor p).0) refl
      | inr a ↦ rw (e, a) refl
    ]
  ]

  perform-agree :
      (i : ℕ) (v : PlanItemView) (s : Db)
      → Permitted w v s.governor
      → perform w i v s ≡ perform w' i v s
  unfolding perform
  perform-agree i v s p = bind-cong_right (mark_item i PlanItemStatus.dispatched none) _ _ s λ a _.
      bind-cong_left (run w v) (run w' v) _ _
        (run-agree v _ (rw (governor-mark_item i PlanItemStatus.dispatched none s) p))

  -- The budget check lets a view through only with its amounts within the caps, and leaves the rows
  -- as they were, as far as a permission reads them.
  gate_agree :
      (i : ℕ) (v : PlanItemView) (s : Db)
      → is_valid_scope v.brand ≡ true
      → w.kill ≡ false
      → live_ok v.status ≡ true
      → (on_governor (check_budget w.ttls w.now w.today v) >>= after_budget w i v) s
        ≡ (on_governor (check_budget w.ttls w.now w.today v) >>= after_budget w' i v) s
  gate_agree i v s valid k st =
      let (d, e, fit, _, _, c) = check_budget_lem w.ttls w.now w.today v valid s.governor in
      rw e (elim (Bool-cases d.allowed) [
        | inl al ↦
            rw al (perform-agree i v _ (k, inr (st, rw (c.caps_kept, c.ledger_kept) (fit.0 al))))
        | inr no_go ↦ rw no_go refl
      ])

  dispatch_item-agree :
      (brand : String) (item : PlanItem) (s : Db)
      → is_valid_scope brand ≡ true
      → dispatch_item w brand item s ≡ dispatch_item w' brand item s
  unfolding dispatch_item
  dispatch_item-agree brand item s valid = elim (action_cases w.kill (to_view item brand)) [
    | inl (r, e) ↦ rw e refl
    | inr (inl (k, r, e)) ↦ rw e (perform-agree item.id _ s (k, inl refl))
    | inr (inr (k, st, r, e)) ↦ rw e (gate_agree item.id _ s valid k st)
  ]

  dispatch_items-agree :
      (brand : String) (items : List PlanItem) (s : Db)
      → is_valid_scope brand ≡ true
      → dispatch_items w brand items s ≡ dispatch_items w' brand items s
  unfolding dispatch_items
  dispatch_items-agree brand [] s valid = refl
  dispatch_items-agree brand (i ∷ is) s valid =
      bind-cong_left (dispatch_item w brand i) (dispatch_item w' brand i) _ s
        (dispatch_item-agree brand i s valid)
      ∙ bind-cong_right (dispatch_item w' brand i) _ _ s λ d _.
        bind-cong_left (dispatch_items w brand is) (dispatch_items w' brand is) _ _
          (dispatch_items-agree brand is _ valid)

  -- If two worlds' agents (and Slack) do the same with every view that the governor permits at the
  -- rows that it then reads, dispatching a plan of a known brand gives the same result, the same
  -- rows and the same summary in both: an agent is never handed anything that is not permitted, so
  -- nothing under the kill switch, and nothing live that is unapproved or over a cap.
  pub dispatch_plan-agree :
      (plan_id : ℕ) (plan : Plan) (s : Db)
      → find plan_id s.plans ≡ some plan
      → is_valid_scope plan.brand ≡ true
      → dispatch_plan w plan_id s ≡ dispatch_plan w' plan_id s
  unfolding dispatch_plan
  dispatch_plan-agree plan_id plan s e valid = rw e (
      bind-cong_right (raise_if (not (may_dispatch plan.status)) _) _ _ s λ _ _.
        bind-cong_left (dispatch_items w plan.brand _) (dispatch_items w' plan.brand _) _ _
          (dispatch_items-agree plan.brand _ _ valid))
