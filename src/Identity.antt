-- ===== src/Identity.antt =====
-- backend/modules/identity: users, their sessions and their PIN.
pub mod Users
pub mod Sessions
pub mod Auth
pub mod Pin
pub mod Reuse
