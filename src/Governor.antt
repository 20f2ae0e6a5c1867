-- ===== src/Governor.antt =====
-- The governor (src/switchboard/governor/): spend caps, the approval gate, the kill switch and the
-- spend ledger.
pub mod Caps
pub mod Floats
pub mod CapsConfig
pub mod Overlay
pub mod Policy
pub mod Gate
pub mod Budget
pub mod Verdict
pub mod Charge
mod Tests
