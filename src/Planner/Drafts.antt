-- ===== src/Planner/Drafts.antt =====
-- What the planner and the morning cycle leave among the plans.
use mathlib.Core.List.{append_assoc, append-nil}
use mathlib.Core.Path.{subst}
use native.Mathlib.Nat.{add-zero}
use adam_abundance.Base.{
  ℕ, suc, ◌+◌, ◌*◌, ◌<◌, ◌≡◌, refl, sym, ap, ◌∙◌, String, true, Option, none, some, List, [], ◌∷◌,
  ◌++◌, length, arith, All, Result, ok, err, pure, continue, ◌>>=◌, ◌<◌,
}
use adam_abundance.Base.Table.{find}
use adam_abundance.Memory.Types.{EntryType, MemoryEntry}
use adam_abundance.Memory.Store.{Query, query}
use adam_abundance.Governor.Policy.{PlanItemStatus}
use adam_abundance.Orchestrator.Plans.{
  PlanStatus, Plan, PlanItem, plan_keyed, Db, PlanError, plan_not_approved, unhashable, create_plan,
  add_item,
}
use adam_abundance.Orchestrator.Dispatch.{World, dispatch_plan}
use adam_abundance.Orchestrator.Summary.{dispatch_plan-refused}
use adam_abundance.Planner.Candidates.{
  Candidate, agent_of, cost_of, from_flags, from_candidates, from_distribution,
}
use adam_abundance.Planner.Making.{
  Morning, chosen, brief, add_items, write_plan, run_morning_cycle, or_unhashable, in_context,
  rolled_back, swept, observed, joined, fresh_query, queue_query,
}
use adam_abundance.Planner.Ranking.{Best, chosen-Best}

abbrev pub draft_plan : ℕ → String → ℕ → Plan
draft_plan i brand plan_date = record {
  id = i;
  plan_date = plan_date;
  brand = brand;
  status = PlanStatus.draft;
  created_by = "orchestrator";
  approved_by = none;
  approved_at = none;
}

-- One proposed item in the dry run for each candidate, with consecutive ranks and ids.
abbrev pub draft_items : ℕ → ℕ → ℕ → List Candidate → List PlanItem
draft_items plan_id rank next [] = []
draft_items plan_id rank next (c ∷ cs) =
    record {
      id = next;
      plan_id = plan_id;
      rank = rank;
      assigned_agent = agent_of c;
      action_type = c.action_type;
      params = c.params;
      rationale = some c.rationale;
      status = PlanItemStatus.proposed;
      dry_run = true;
      cost_estimate = cost_of c;
      result_ref = none;
    }
    ∷ draft_items plan_id (suc rank) (next + 1) cs

abbrev with_items : List PlanItem → ℕ → Db → Db
with_items items next s = record s { items = items; next_item = next }

add_items_lem :
    (w : Morning) (p : Plan) (rank : ℕ) (cs : List Candidate) (s : Db)
    → add_items w p rank cs s ≡ (
      ok tt,
      with_items (s.items ++ draft_items p.id rank s.next_item cs) (s.next_item + length cs) s,
    )
unfolding add_item
add_items_lem w p rank [] s = rw (append-nil, add-zero) refl
add_items_lem w p rank (c ∷ cs) s =
    let next =
      (add_item p rank (agent_of c) c.action_type c.params (some c.rationale) (cost_of c) true
        s).1 in
    let e2 : s.next_item + 1 + length cs ≡ s.next_item + suc (length cs) = omega arith in
    let e1 = append_assoc s.items _ (draft_items p.id (suc rank) (s.next_item + 1) cs) in
    add_items_lem w p (suc rank) cs next ∙ (λ i. (ok tt, with_items (e1 i) (e2 i) s))

-- What a plan of these candidates answers, and adds to the tables.
pub record Drafted (brand : String) (plan_date : ℕ) (cs : List Candidate) (s : Db)
    (r : Result PlanError (ℕ × String) × Db) : Type 0 where
  pub words : String
  pub answer : r.0 ≡ ok (s.next_plan, words)
  pub plans : r.1.plans ≡ s.plans ++ draft_plan s.next_plan brand plan_date ∷ []
  pub items : r.1.items ≡ s.items ++ draft_items s.next_plan 1 s.next_item cs

write_plan-Drafted :
    (w : Morning) (brand : String) (plan_date : ℕ) (cs : List Candidate) (s : Db)
    → Drafted brand plan_date cs s (write_plan w brand plan_date cs s)
unfolding write_plan create_plan brief
write_plan-Drafted w brand plan_date cs s =
    let p = draft_plan s.next_plan brand plan_date in
    let s' = (create_plan brand plan_date "orchestrator" s).1 in
    subst
      (λ r.
        Drafted brand plan_date cs s
          (continue r.0 (λ _. brief w brand plan_date cs >>= λ b. pure (s.next_plan, b)) r.1))
      (sym (add_items_lem w p 1 cs s'))
      (record { words = _; answer = refl; plans = refl; items = refl })

Drafted-in_context :
    (w : Morning) (brand : String) (plan_date : ℕ) (cs : List Candidate) (s : Db)
    (r : Result PlanError (ℕ × String) × Db)
    → Drafted brand plan_date cs s r
    → Drafted brand plan_date cs s (rolled_back w s r)
Drafted-in_context w brand plan_date cs s (ok a, s') d = d
Drafted-in_context w brand plan_date cs s (err e, s') d = absurd (cc d.answer)

-- What the memory of a session proposes: what the code makes of its flags, topics and drafts that
-- are fresh, or none where it raises.
unfoldable pub found_in : Morning → String → Db → Option (List Candidate)
found_in w brand s =
    let read : Query → List MemoryEntry = λ q. query w.contains w.now q s.governor.memory in
    joined
      (from_flags w.repr (read (fresh_query brand EntryType.flag (3 * 24 * 3600) 50))
        (read (queue_query brand)))
      (from_candidates w.repr (read (fresh_query brand EntryType.context (3 * 24 * 3600) 50)))
      (from_distribution (read (fresh_query brand EntryType.report (2 * 24 * 3600) 10))
        (read (fresh_query brand EntryType.distribution_draft (2 * 24 * 3600) 10)))

-- The cycle raises, and has planned nothing, where nothing can be made of the memory; else it drafts
-- the best twelve of what was found.
pub Cycled : String → ℕ → Option (List Candidate) → Db → Result PlanError (ℕ × String) × Db → Type 0
Cycled brand plan_date none s r =
    (r.0 ≡ err unhashable) × (r.1.plans ≡ s.plans) × (r.1.items ≡ s.items)
Cycled brand plan_date (some found) s r =
    (cs : List Candidate) × Best brand found cs × Drafted brand plan_date cs s r

planned-Cycled :
    (w : Morning) (brand : String) (plan_date : ℕ) (s : Db) (found : Option (List Candidate))
    → Cycled brand plan_date found s (
        in_context w
          (or_unhashable w found >>= λ cs. write_plan w brand plan_date (chosen brand cs))
          s)
unfolding Cycled
planned-Cycled w brand plan_date s none = (refl, refl, refl)
planned-Cycled w brand plan_date s (some cs) = (
  chosen brand cs,
  chosen-Best brand cs,
  Drafted-in_context w brand plan_date (chosen brand cs) s
      (write_plan w brand plan_date (chosen brand cs) s)
      (write_plan-Drafted w brand plan_date (chosen brand cs) s),
)

-- The agents write no plan.
Cycled-observed :
    (w : Morning) (brand : String) (plan_date : ℕ) (found : Option (List Candidate)) (s : Db)
    (r : Result PlanError (ℕ × String) × Db)
    → Cycled brand plan_date found (observed w brand (swept w s)) r
    → Cycled brand plan_date found s r
unfolding Cycled
Cycled-observed w brand plan_date none s r e = e
Cycled-observed w brand plan_date (some found) s r (cs, o, d) =
    (cs, o, record { words = d.words; answer = d.answer; plans = d.plans; items = d.items })

-- A morning cycle raises and has planned nothing, where nothing can be made of the memory as the
-- sweep and the agents left it. Else it adds one plan, a draft of the orchestrator's, with proposed
-- items in the dry run, ranked from one, for the best twelve of what that memory proposes, the
-- highest scores first, or for the notice of a quiet day where it proposes nothing.
pub run_morning_cycle_lem :
    (w : Morning) (brand : String) (plan_date : ℕ) (s : Db)
    → Cycled brand plan_date
        (found_in w brand (observed w brand (swept w s)))
        s
        (run_morning_cycle w brand plan_date s)
unfolding run_morning_cycle Cycled found_in
run_morning_cycle_lem w brand plan_date s =
    Cycled-observed w brand plan_date (found_in w brand (observed w brand (swept w s))) s
      (run_morning_cycle w brand plan_date s)
      (planned-Cycled w brand plan_date (observed w brand (swept w s))
        (found_in w brand (observed w brand (swept w s))))

-- A cycle that returns has drafted.
Cycled-Drafted :
    (brand : String) (plan_date : ℕ) (found : Option (List Candidate)) (s : Db)
    (r : Result PlanError (ℕ × String) × Db) (x : ℕ × String)
    → r.0 ≡ ok x
    → Cycled brand plan_date found s r
    → (cs : List Candidate) × Drafted brand plan_date cs s r
unfolding Cycled
Cycled-Drafted brand plan_date none s r x h (e, _, _) = absurd (cc (e, h))
Cycled-Drafted brand plan_date (some found) s r x h (cs, _, d) = (cs, d)

find-last :
    (i : ℕ) (ps : List Plan) (p : Plan)
    → p.id ≡ i
    → All (λ q. q.id < i) ps
    → find i (ps ++ p ∷ []) ≡ some p
find-last i [] p e h = ground arith
find-last i (q ∷ ps) p e h = ground (arith, find-last i ps p e h.1)

same_id :
    (i j : ℕ) (b c : String)
    → ◌≡◌ {A = Result PlanError (ℕ × String)} (ok (i, b)) (ok (j, c))
    → i ≡ j
same_id i j b c h = cc

-- Nothing of a plan that the cycle has just made can be dispatched: with ids that are below the next
-- one, dispatch refuses the plan as a draft and changes nothing.
pub run_morning_cycle-undispatched :
    (w : Morning) (dw : World) (brand : String) (plan_date i : ℕ) (b : String) (s : Db)
    → All (λ p. p.id < s.next_plan) s.plans
    → (run_morning_cycle w brand plan_date s).0 ≡ ok (i, b)
    → dispatch_plan dw i (run_morning_cycle w brand plan_date s).1
      ≡ (err (plan_not_approved i PlanStatus.draft), (run_morning_cycle w brand plan_date s).1)
run_morning_cycle-undispatched w dw brand plan_date i b s ids h =
    let s' = (run_morning_cycle w brand plan_date s).1 in
    let p = draft_plan s.next_plan brand plan_date in
    let (cs, d) =
      Cycled-Drafted brand plan_date (found_in w brand (observed w brand (swept w s))) s
        (run_morning_cycle w brand plan_date s) (i, b) h
        (run_morning_cycle_lem w brand plan_date s) in
    let new : s.next_plan ≡ i = same_id s.next_plan i d.words b (sym d.answer ∙ h) in
    let found : find i s'.plans ≡ some p =
      ap (find i) d.plans ∙ find-last i s.plans p new (rw (← new) ids) in
    (dispatch_plan-refused dw i s').1 p found refl
