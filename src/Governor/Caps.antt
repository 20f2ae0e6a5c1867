-- ===== src/Governor/Caps.antt =====
-- `SpendMetric` (db/enums.py) and `SpendCaps` (config.py).
use adam_abundance.Base.{ℕ, ◌*◌, Bool, Option, none, some, if◌then◌else◌, ◌==◌}

pub data SpendMetric : Type 0 where
  ahrefs_units llm_micros bq_bytes : SpendMetric

abbrev pub metric_number : SpendMetric → ℕ
metric_number SpendMetric.ahrefs_units = 0
metric_number SpendMetric.llm_micros = 1
metric_number SpendMetric.bq_bytes = 2

abbrev pub same_metric : SpendMetric → SpendMetric → Bool
same_metric a b = metric_number a == metric_number b

pub record SpendCaps : Type 0 where
  pub enabled : Bool
  pub ahrefs_units_per_day : ℕ
  pub ahrefs_units_per_run : ℕ
  pub llm_micros_per_day : ℕ
  pub llm_micros_per_run : ℕ
  pub bq_bytes_per_day : ℕ
  pub bq_bytes_per_run : ℕ

abbrev pub gib : ℕ
gib = 1024 * 1024 * 1024

abbrev pub default_caps : SpendCaps
default_caps = record {
  enabled = Bool.true;
  ahrefs_units_per_day = 5000;
  ahrefs_units_per_run = 1000;
  llm_micros_per_day = 20_000_000;
  llm_micros_per_run = 5_000_000;
  bq_bytes_per_day = 100 * gib;
  bq_bytes_per_run = 20 * gib;
}

abbrev pub day_ceiling : SpendCaps → SpendMetric → ℕ
day_ceiling c SpendMetric.ahrefs_units = c.ahrefs_units_per_day
day_ceiling c SpendMetric.llm_micros = c.llm_micros_per_day
day_ceiling c SpendMetric.bq_bytes = c.bq_bytes_per_day

abbrev pub run_ceiling : SpendCaps → SpendMetric → ℕ
run_ceiling c SpendMetric.ahrefs_units = c.ahrefs_units_per_run
run_ceiling c SpendMetric.llm_micros = c.llm_micros_per_run
run_ceiling c SpendMetric.bq_bytes = c.bq_bytes_per_run

-- `None` while the caps are not enforced.
unfoldable pub per_day : SpendCaps → SpendMetric → Option ℕ
per_day c m = if c.enabled then some (day_ceiling c m) else none

unfoldable pub per_run : SpendCaps → SpendMetric → Option ℕ
per_run c m = if c.enabled then some (run_ceiling c m) else none
