-- ===== src/Governor/Budget.antt =====
-- The async budget surface of governor.py: the spend ledger, the effective caps of a governor, and
-- `check_budget`. `today` and `now` are the readings of the clock.
use adam_abundance.Base.{
  ℕ, zero, suc, ◌+◌, ◌-◌, String, Bool, true, false, ◌&&◌, Option, none, some, List, [], ◌∷◌, ◌++◌,
  ltb, leb, ◌==◌, if◌then◌else◌, ℤ, pos, negsuc, Exec, Result, pure, gets, ◌>>=◌, ◌>>◌, or_else,
}
use adam_abundance.Governor.Caps.{SpendMetric, same_metric, SpendCaps, per_day, per_run}
use adam_abundance.Governor.CapsConfig.{CapsTable, resolve_caps}
use adam_abundance.Governor.Policy.{
  PlanItemView, Violation, over_per_run, over_per_day, Reason, Decision,
}
use adam_abundance.Memory.Types.{EntryType, Value, EntryDraft, MemoryEntry, Memory, num, text}
use adam_abundance.Memory.Store.{StoreError, write}

-- A row of `spend_ledger`.
pub record SpendLedger : Type 0 where
  pub window_date : ℕ
  pub metric : SpendMetric
  pub amount : ℕ
  pub agent : String

-- A governor with the rows that its session sees; `eff_caps` is resolved at the first use.
pub record Governor : Type 0 where
  pub caps : SpendCaps
  pub eff_caps : Option SpendCaps
  pub setting : CapsTable
  pub ledger : List SpendLedger
  pub memory : Memory

abbrev pub amount_on : ℕ → SpendMetric → SpendLedger → ℕ
amount_on today metric r =
    if r.window_date == today && same_metric r.metric metric then r.amount else 0

-- `coalesce(sum(amount), 0)`
abbrev pub spent : ℕ → SpendMetric → List SpendLedger → ℕ
spent today metric [] = 0
spent today metric (r ∷ rs) = amount_on today metric r + spent today metric rs

abbrev pub metrics : List SpendMetric
metrics = SpendMetric.ahrefs_units ∷ SpendMetric.llm_micros ∷ SpendMetric.bq_bytes ∷ []

-- The caps that this governor enforces, resolved now or earlier.
abbrev pub effective : Governor → SpendCaps
effective g = or_else g.eff_caps (resolve_caps g.setting g.caps)

unfoldable pub resolved_caps : Exec Governor StoreError SpendCaps
resolved_caps g = (Result.ok (effective g), record g { eff_caps = some (effective g) })

unfoldable pub spent_today : ℕ → SpendMetric → Exec Governor StoreError ℕ
spent_today today metric = gets (λ g. spent today metric g.ledger)

abbrev remaining_under : ℕ → SpendMetric → Option ℕ → Exec Governor StoreError (Option ℕ)
remaining_under today metric none = pure none
remaining_under today metric (some cap) = do
  used ← spent_today today metric
  pure (some (cap - used))

-- `max(0, cap - spent)` is the truncated difference.
unfoldable pub remaining : ℕ → SpendMetric → Exec Governor StoreError (Option ℕ)
unfolding resolved_caps spent_today
remaining today metric = do caps ← resolved_caps; remaining_under today metric (per_day caps metric)

abbrev pub within : ℕ → SpendMetric → ℕ → Option ℕ → Exec Governor StoreError Bool
within today metric additional none = pure true
within today metric additional (some cap) = do
  used ← spent_today today metric
  pure (leb (used + additional) cap)

unfoldable pub within_caps : ℕ → SpendMetric → ℕ → Exec Governor StoreError Bool
unfolding resolved_caps spent_today
within_caps today metric additional = do
  caps ← resolved_caps
  within today metric additional (per_day caps metric)

abbrev pub metric_name : SpendMetric → String
metric_name SpendMetric.ahrefs_units = "ahrefs_units"
metric_name SpendMetric.llm_micros = "llm_micros"
metric_name SpendMetric.bq_bytes = "bq_bytes"

abbrev pub id_value : Option ℕ → Value
id_value none = Value.null
id_value (some i) = num i

abbrev pub cap_flag : PlanItemView → SpendMetric → ℕ → ℕ → String → EntryDraft
cap_flag item metric would_be cap scope = record {
  type = EntryType.flag;
  brand = item.brand;
  source_agent = "governor";
  source_system = some "governor";
  payload =
      ("kind", text "spend_cap_exceeded")
      ∷ ("metric", text (metric_name metric))
      ∷ ("scope", text scope)
      ∷ ("would_be", num would_be)
      ∷ ("cap", num cap)
      ∷ ("action_type", text item.action_type)
      ∷ ("plan_item_id", id_value item.id)
      ∷ ("severity", text "high")
      ∷ [];
  verified = false;
  confidence = some 100;
  source_urls = none;
  expires_at = none;
  ttl_seconds = none;
  status = none;
}

module _ (ttls : EntryType → Option ℕ) (now today : ℕ) (item : PlanItemView) where
  abbrev pub with_memory :
      Governor → Result StoreError MemoryEntry × Memory → Result StoreError (Unit {0}) × Governor
  with_memory g (Result.ok e, m) = (Result.ok tt, record g { memory = m })
  with_memory g (Result.err e, m) = (Result.err e, record g { memory = m })

  unfoldable pub write_cap_flag : SpendMetric → ℕ → ℕ → String → Exec Governor StoreError (Unit {0})
  write_cap_flag metric would_be cap scope g =
      with_memory g (write ttls now false (cap_flag item metric would_be cap scope) g.memory)

  abbrev pub over_run : Option ℕ → ℕ → Option ℕ
  over_run none amount = none
  over_run (some cap) amount = if ltb cap amount then some cap else none

  abbrev pub check_day : SpendMetric → ℕ → Bool → Exec Governor StoreError (List Violation)
  check_day metric amount true = pure []
  check_day metric amount false = do
    caps ← resolved_caps
    used ← spent_today today metric
    let cap = or_else (per_day caps metric) 0
    write_cap_flag metric (used + amount) cap "per_day"
    pure (over_per_day metric used amount cap ∷ [])

  abbrev pub check_run : SpendMetric → ℕ → Option ℕ → Exec Governor StoreError (List Violation)
  check_run metric amount (some cap) = do
    write_cap_flag metric amount cap "per_run"
    pure (over_per_run metric amount cap ∷ [])
  check_run metric amount none = do
    fits ← within_caps today metric amount
    check_day metric amount fits

  -- The body of the loop; an amount of zero or less is skipped.
  unfoldable pub check_metric : SpendMetric → ℤ → Exec Governor StoreError (List Violation)
  unfolding resolved_caps spent_today within_caps
  check_metric metric (pos zero) = pure []
  check_metric metric (negsuc n) = pure []
  check_metric metric (pos (suc n)) = do
    caps ← resolved_caps
    check_run metric (suc n) (over_run (per_run caps metric) (suc n))

  unfoldable pub check_metrics : List SpendMetric → Exec Governor StoreError (List Violation)
  check_metrics [] = pure []
  check_metrics (m ∷ ms) = do
    vs ← check_metric m (item.cost_estimate m)
    ws ← check_metrics ms
    pure (vs ++ ws)

  abbrev pub verdict : List Violation → Decision
  verdict [] = record {
    allowed = true;
    dry_run = item.dry_run;
    reason = Reason.within_caps;
    violations = [];
  }
  verdict (v ∷ vs) = record {
    allowed = false;
    dry_run = true;
    reason = Reason.caps_exceeded (v ∷ vs);
    violations = v ∷ vs;
  }

  unfoldable pub check_budget : Exec Governor StoreError Decision
  unfolding check_metrics check_metric
  check_budget = do vs ← check_metrics metrics; pure (verdict vs)

-- An amount of zero or less is not charged.
unfoldable pub charge : ℕ → SpendMetric → ℤ → String → Governor → Governor
charge today metric (pos zero) agent g = g
charge today metric (negsuc n) agent g = g
charge today metric (pos (suc n)) agent g = record g {
  ledger =
      g.ledger
      ++ record { window_date = today; metric = metric; amount = suc n; agent = agent } ∷ [];
}
