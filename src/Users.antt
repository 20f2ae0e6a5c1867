-- ===== src/Users.antt =====
-- Users and roles (rbac.py, users.py), and signing in (api/auth.py).
pub mod Rbac
pub mod Repo
pub mod Provision
pub mod SignIn
pub mod Allowed
pub mod Entry
mod Tests
