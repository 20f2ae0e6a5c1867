-- ===== src/Secrets.antt =====
-- The credentials (src/switchboard/credentials.py) and the registry of secrets (logging_.py) that
-- redaction scrubs from logs and audit rows.
pub mod Vault
pub mod Accessors
pub mod Registered
pub mod HandedOut
pub mod Again
mod Tests
