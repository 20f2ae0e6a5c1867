-- ===== src/Planner/Tests.antt =====
-- A concrete morning.
use adam_abundance.Base.{
  ℕ, ◌+◌, ◌≤◌, ◌<◌, ◌≡◌, refl, Bool, true, false, none, some, List, [], ◌∷◌, count_if, length, All,
  err,
}
use adam_abundance.Memory.Types.{EntryType, EntryStatus, Payload, MemoryEntry, text, default_ttl}
use adam_abundance.Memory.Store.{query, expire_stale}
use adam_abundance.Governor.Caps.{default_caps}
use adam_abundance.Orchestrator.Plans.{create_plan, add_item, PlanStatus, Db, plan_not_approved}
use adam_abundance.Orchestrator.Dispatch.{World, returned, failure, dispatch_plan}
use adam_abundance.Planner.Candidates.{
  Candidate, candidate, from_flags, from_candidates, from_distribution,
}
use adam_abundance.Planner.Making.{Morning, chosen, run_morning_cycle, observed, swept}
use adam_abundance.Planner.Ranking.{Descending, AtMost, chosen_lem}
use adam_abundance.Planner.Drafts.{
  Cycled, found_in, run_morning_cycle_lem, run_morning_cycle-undispatched,
}

abbrev flag_entry : ℕ → Payload → MemoryEntry
flag_entry id payload = record {
  id = id;
  type = EntryType.flag;
  brand = "hotcars";
  source_agent = "analytics";
  source_system = none;
  payload = payload;
  verified = false;
  confidence = none;
  source_urls = none;
  created_at = 90;
  expires_at = none;
  status = EntryStatus.active;
}

abbrev tables : Db
tables = record {
  plans = [];
  items = [];
  next_plan = 1;
  next_item = 1;
  governor = record {
    caps = default_caps;
    eff_caps = none;
    setting = record { row = none; readable = true };
    ledger = [];
    memory = record {
      entries =
          flag_entry 1 (("kind", text "decay_candidate") ∷ ("url", text "a.com/x") ∷ [])
          ∷ flag_entry 2 (("kind", text "new_rival") ∷ ("severity", text "high") ∷ [])
          ∷ [];
      next_id = 3;
    };
  };
}

abbrev morning : Morning
morning = record {
  now = 100;
  contains = λ p q. false;
  repr = λ v. "{}";
  isoformat = λ d. "2026-01-05";
  polish = λ b g. (some "Two items.", g);
  observe = λ b g. g;
}

abbrev world : World
world = record {
  kill = false;
  ttls = default_ttl;
  now = 200;
  today = 7;
  execute = λ v g. (returned (failure v "none"), g);
  post_brief = λ v. true;
}

abbrev candidates : List Candidate
candidates = candidate 40 "notify" [] "a" ∷ candidate 65 "notify" [] "b" ∷ []

chosen_lem_example :
    (left : List Candidate) × Descending
      (chosen "hotcars" (candidate 60 "notify" [] "c" ∷ candidates))
    × (length (chosen "hotcars" (candidate 60 "notify" [] "c" ∷ candidates)) ≤ 12)
    × All (λ k. AtMost k left) (chosen "hotcars" (candidate 60 "notify" [] "c" ∷ candidates))
    × (length (chosen "hotcars" (candidate 60 "notify" [] "c" ∷ candidates)) < 12 → left ≡ [])
    × ((p : Candidate → Bool)
        → count_if p (chosen "hotcars" (candidate 60 "notify" [] "c" ∷ candidates))
            + count_if p left
          ≡ count_if p (candidate 60 "notify" [] "c" ∷ candidates))
chosen_lem_example = chosen_lem "hotcars" (candidate 60 "notify" [] "c") candidates

run_morning_cycle_lem_example :
    Cycled "hotcars" 5
      (found_in morning "hotcars" (observed morning "hotcars" (swept morning tables)))
      tables
      (run_morning_cycle morning "hotcars" 5 tables)
run_morning_cycle_lem_example = run_morning_cycle_lem morning "hotcars" 5 tables

run_morning_cycle-undispatched_example :
    dispatch_plan world 1 (run_morning_cycle morning "hotcars" 5 tables).1
    ≡ (err (plan_not_approved 1 PlanStatus.draft), (run_morning_cycle morning "hotcars" 5 tables).1)
unfolding run_morning_cycle from_flags from_candidates from_distribution create_plan add_item query
    expire_stale
run_morning_cycle-undispatched_example =
    run_morning_cycle-undispatched morning world "hotcars" 5 1 "Two items." tables tt refl
