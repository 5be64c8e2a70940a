-- ===== src/Overdraft.antt =====
-- backend/modules/overdraft: a sponsor's pool that pays for a friend's shortfall, and is repaid from what the
-- friend receives.
pub mod Pools
pub mod Loans
pub mod Sweep
pub mod Service
pub mod Send
