-- ===== src/Engine.antt =====
-- The pipeline engine: trends/pipeline.py, with trends/personas.py and the tables of costs.
pub mod Personas
pub mod Pay
pub mod Session
pub mod World
pub mod Start
pub mod CostRollup
pub mod Worker
pub mod Publish
pub mod Routes
pub mod Lawful
pub mod StartLawful
pub mod WorkerRules
pub mod HandOff
pub mod PublishLawful
pub mod History
pub mod Returns
pub mod Waiting
pub mod Sweep
pub mod RolledUp
pub mod Crash
pub mod PublishGates
pub mod TwoGates
pub mod Rbac
pub mod CostTable
pub mod KillSwitch
mod Tests
