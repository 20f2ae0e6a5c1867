-- ===== src/Planner/Making.antt =====
-- `Planner.plan` of orchestrator/planner.py and `run_morning_cycle` of orchestrator/cycle.py. The
-- language model that may word the brief, the agents that observe and the formats of Python's
-- library are parameters; the logs, the prints and the message to Slack change no row.
use adam_abundance.Base.{
  ℕ, suc, ◌+◌, ◌*◌, String, Bool, true, Option, none, some, List, [], ◌∷◌, ◌++◌, length, take, leb,
  if◌then◌else◌, Exec, Result, pure, raise, gets, modify, ◌>>=◌, ◌>>◌,
}
use adam_abundance.Memory.Types.{EntryType, EntryStatus, Value, text, Payload, MemoryEntry}
use adam_abundance.Memory.Store.{Query, query, expire_stale}
use adam_abundance.Governor.Budget.{Governor}
use adam_abundance.Orchestrator.Plans.{Plan, Db, PlanError, unhashable, create_plan, add_item}
use adam_abundance.Planner.Wording.{join, separated, decimal}
use adam_abundance.Planner.Candidates.{
  Candidate, candidate, agent_of, cost_of, from_flags, from_candidates, from_distribution,
}

-- `polish` is what the language model answers to a brief, stripped, or none where it raises, and
-- what it leaves of the governor's rows; `observe` is the run of all agents.
pub record Morning : Type 0 where
  pub now : ℕ
  pub contains : Payload → Payload → Bool
  pub repr : Value → String
  pub isoformat : ℕ → String
  pub polish : String → Governor → Option String × Governor
  pub observe : String → Governor → Governor

abbrev pub fresh_query : String → EntryType → ℕ → ℕ → Query
fresh_query brand type seconds limit = record {
  brand = some brand;
  include_portfolio = true;
  types = type ∷ [];
  source_agent = none;
  source_system = none;
  verified = none;
  since = none;
  fresh_within_seconds = some seconds;
  payload_contains = none;
  status = some EntryStatus.active;
  limit = limit;
}

abbrev pub queue_query : String → Query
queue_query brand = record {
  brand = some brand;
  include_portfolio = true;
  types = EntryType.metric ∷ [];
  source_agent = none;
  source_system = some "hc_viral_hits";
  verified = none;
  since = none;
  fresh_within_seconds = none;
  payload_contains = none;
  status = some EntryStatus.active;
  limit = 5;
}

-- `candidates.sort(key=lambda c: c.score, reverse=True)`, which keeps the order of equal scores
abbrev pub insert : Candidate → List Candidate → List Candidate
insert c [] = c ∷ []
insert c (d ∷ ds) = let rest = insert c ds in if leb d.score c.score then c ∷ d ∷ ds else d ∷ rest

unfoldable pub by_score : List Candidate → List Candidate
by_score [] = []
by_score (c ∷ cs) = insert c (by_score cs)

abbrev pub quiet_day : String → Candidate
quiet_day brand =
    candidate 10 "notify"
      (("message", text (join ("No significant signals for " ∷ brand ∷ " today." ∷ []))) ∷ [])
      "No high-priority findings in memory for this brand/day."

abbrev pub or_quiet : String → List Candidate → List Candidate
or_quiet brand [] = quiet_day brand ∷ []
or_quiet brand (c ∷ cs) = c ∷ cs

-- The twelve of the highest score, or one that says that there are none.
unfoldable pub chosen : String → List Candidate → List Candidate
unfolding by_score
chosen brand cs = or_quiet brand (take 12 (by_score cs))

abbrev pub joined :
    Option (List Candidate) → Option (List Candidate) → List Candidate → Option (List Candidate)
joined (some a) (some b) c = some (a ++ b ++ c)
joined _ _ c = none

abbrev item_lines : ℕ → List Candidate → List String
item_lines i [] = []
item_lines i (c ∷ cs) =
    join (decimal i ∷ ". `" ∷ c.action_type ∷ "` → " ∷ agent_of c ∷ " — " ∷ c.rationale ∷ [])
    ∷ item_lines (i + 1) cs

module _ (w : Morning) where
  -- The brief before the language model sees it.
  unfoldable pub deterministic : String → ℕ → List Candidate → String
  deterministic brand plan_date cs = separated "\n" (
      join ("*Switchboard — " ∷ brand ∷ " plan for " ∷ w.isoformat plan_date ∷ "*" ∷ [])
      ∷ join (
          decimal (length cs)
          ∷ " proposed item(s), dry-run by default. Approve/edit/reject in the dashboard."
          ∷ [])
      ∷ item_lines 1 cs)

  abbrev polished : String → Option String → String
  polished d none = d
  polished d (some (String.[])) = d
  polished d (some s) = s

  -- `_brief`
  unfoldable pub brief : String → ℕ → List Candidate → Exec Db PlanError String
  brief brand plan_date cs s =
      let d = deterministic brand plan_date cs in
      let (answer, g) = w.polish d s.governor in
      (Result.ok (polished d answer), record s { governor = g })

  abbrev read : Query → Exec Db PlanError (List MemoryEntry)
  read q = gets (λ s. query w.contains w.now q s.governor.memory)

  abbrev pub or_unhashable : Option (List Candidate) → Exec Db PlanError (List Candidate)
  or_unhashable none = raise unhashable
  or_unhashable (some cs) = pure cs

  abbrev pub add_items : Plan → ℕ → List Candidate → Exec Db PlanError (Unit {0})
  add_items plan rank [] = pure tt
  add_items plan rank (c ∷ cs) = do
    add_item plan rank (agent_of c) c.action_type c.params (some c.rationale) (cost_of c) true
    add_items plan (suc rank) cs

  -- From the candidates on.
  unfoldable pub write_plan : String → ℕ → List Candidate → Exec Db PlanError (ℕ × String)
  unfolding brief
  write_plan brand plan_date cs = do
    p ← create_plan brand plan_date "orchestrator"
    add_items p 1 cs
    b ← brief brand plan_date cs
    pure (p.id, b)

  unfoldable pub plan : String → ℕ → Exec Db PlanError (ℕ × String)
  unfolding chosen write_plan
  plan brand plan_date = do
    flags ← read (fresh_query brand EntryType.flag (3 * 24 * 3600) 50)
    candidates_ctx ← read (fresh_query brand EntryType.context (3 * 24 * 3600) 50)
    reports ← read (fresh_query brand EntryType.report (2 * 24 * 3600) 10)
    drafts ← read (fresh_query brand EntryType.distribution_draft (2 * 24 * 3600) 10)
    queue_metrics ← read (queue_query brand)
    found ← or_unhashable (
        joined (from_flags w.repr flags queue_metrics) (from_candidates w.repr candidates_ctx)
          (from_distribution reports drafts))
    write_plan brand plan_date (chosen brand found)

  abbrev pub rolled_back : {A : Type 0} → Db → Result PlanError A × Db → Result PlanError A × Db
  rolled_back s (Result.ok a, s') = (Result.ok a, s')
  rolled_back s (Result.err e, s') = (Result.err e, s)

  -- A block under `RunContext.open()`: where it raises, its writes are rolled back.
  abbrev pub in_context : {A : Type 0} → Exec Db PlanError A → Exec Db PlanError A
  in_context m s = rolled_back s (m s)

  abbrev pub swept : Db → Db
  swept s =
      let (n, m) = expire_stale w.now s.governor.memory in
      record s { governor = record s.governor { memory = m } }

  abbrev pub observed : String → Db → Db
  observed brand s = record s { governor = w.observe brand s.governor }

  -- The plan and the brief that are printed at the end.
  unfoldable pub run_morning_cycle : String → ℕ → Exec Db PlanError (ℕ × String)
  unfolding plan
  run_morning_cycle brand plan_date = do
    modify swept
    modify (observed brand)
    in_context (plan brand plan_date)
