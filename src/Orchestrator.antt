-- ===== src/Orchestrator.antt =====
-- Plans, their approval and their dispatch (src/switchboard/orchestrator/).
pub mod Plans
pub mod Approval
pub mod Dispatch
pub mod Isolation
pub mod Summary
pub mod Spend
mod Tests
