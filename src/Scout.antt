-- ===== src/Scout.antt =====
-- The trend scout: the clustering of trends/detector.py, trends/monitor.py, and trends/scout.py from
-- scored clusters on, over the repositories and the memory.
pub mod Monitor
pub mod Fading
pub mod Weights
pub mod Tuning
pub mod Reset
pub mod Clusters
pub mod Grouping
pub mod Scan
pub mod Cap
pub mod Made
pub mod Proposals
mod Tests
