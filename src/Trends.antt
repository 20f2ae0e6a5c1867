-- ===== src/Trends.antt =====
-- The trend pipeline (src/switchboard/trends/): lifecycle rules, persistence, and the engine.
pub mod Lifecycle
pub mod Reach
pub mod Rows
pub mod TrendRepo
pub mod PipelineRepo
pub mod Rollup
pub mod JobRepo
pub mod Sightings
pub mod Claims
pub mod Lawful
pub mod PipelineLawful
pub mod JobLawful
pub mod ReviewLawful
pub mod History
pub mod Atomicity
mod Tests
