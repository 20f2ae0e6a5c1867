-- ===== src/Memory.antt =====
-- The shared memory (src/switchboard/memory/store.py) and the data that crosses its boundary
-- (src/switchboard/interfaces.py, db/enums.py).
pub mod Types
pub mod Store
pub mod Snapshots
pub mod Provenance
pub mod Newest
pub mod Duplicates
pub mod Sweep
pub mod Answer
mod Tests
