-- ===== src/Engine/CostTable.antt =====
-- The cost table under `_record_pipeline_cost`: a map from pipelines to their costs.
use adam_abundance.Base.{ℕ, ◌≤◌, Option, none, some, List, ◌==◌, if◌then◌else◌}
use adam_abundance.Engine.Pay.{PipelineCost, cost_keyed, over_row, count_runs}
use adam_abundance.Engine.Session.{Session}
use adam_abundance.Engine.World.{World}

-- At most one row for each pipeline, so that the table is a map.
abbrev pub IsMap : List PipelineCost → Type 0
IsMap cs = (i : ℕ) → count_runs i cs ≤ 1

-- The map's entry after a write: a row that is there keeps its brand.
abbrev pub entry : PipelineCost → Option PipelineCost → PipelineCost
entry new none = new
entry new (some old) = over_row old new

-- The abstract write: one entry of the map is replaced.
abbrev pub replaced : ℕ → PipelineCost → (ℕ → Option PipelineCost) → ℕ → Option PipelineCost
replaced i new m k = if k == i then some (entry new (m i)) else m k
