-- ===== src/Planner.antt =====
-- The planner and the morning cycle (src/switchboard/orchestrator/planner.py, flag_text.py and
-- cycle.py), over the memory and the plans.
pub mod Wording
pub mod Candidates
pub mod Making
pub mod Ranking
pub mod Drafts
mod Tests
