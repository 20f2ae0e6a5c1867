-- ===== src/Engine/CostRollup.antt =====
-- `_record_pipeline_cost` of trends/pipeline.py as an action of the session, and its two callers'
-- reload of the pipeline.
use adam_abundance.Base.{ℕ, Option, none, some, List, Result}
use adam_abundance.Base.Table.{find}
use adam_abundance.Trends.Rows.{Pipeline, pipeline_keyed}
use adam_abundance.Trends.PipelineRepo.{jobs_of}
use adam_abundance.Engine.Pay.{
  Rollup, PipelineCost, no_costs, roll_costs, human_equiv_usd, cost_row, write_cost,
}
use adam_abundance.Engine.Session.{Session, EngineError, crashed, Act, best_effort}
use adam_abundance.Engine.World.{World}

module _ (w : World) where
  unfoldable pub pipeline_rollup : ℕ → Session → Rollup
  unfolding roll_costs
  pipeline_rollup i s = roll_costs w.read_meta no_costs (jobs_of i s.db)

  unfoldable pub pipeline_cost : Pipeline → Session → PipelineCost
  unfolding pipeline_rollup cost_row
  pipeline_cost p s =
      cost_row w.now p.id p.brand (pipeline_rollup p.id s)
        (human_equiv_usd p.brand (pipeline_rollup p.id s).words s.baselines)

  abbrev pub written :
      Session → Option (List PipelineCost) → Result EngineError (Unit {0}) × Session
  written s none = (Result.err (crashed "MultipleResultsFound"), s)
  written s (some costs) = (Result.ok tt, record s { costs = costs })

  unfoldable pub record_pipeline_cost : Pipeline → Act (Unit {0})
  unfolding pipeline_cost write_cost
  record_pipeline_cost p s = written s (write_cost (pipeline_cost p s) s.costs)

  abbrev pub record_found : Option Pipeline → Act (Unit {0})
  record_found none s = (Result.ok tt, s)
  record_found (some p) s = record_pipeline_cost p s

  -- Never a reason for the caller to fail.
  unfoldable pub roll_up_cost : ℕ → Act (Unit {0})
  unfolding record_pipeline_cost
  roll_up_cost i s = best_effort (record_found (find i s.db.pipelines)) s
