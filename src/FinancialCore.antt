-- ===== src/FinancialCore.antt =====
-- backend/modules/financial_core: the domain rules, the tables, and the one code path that moves money.
pub mod Account
pub mod Ledger
pub mod Policies
pub mod Idempotency
pub mod Repositories
pub mod Transfer
pub mod Holding
pub mod Undo
pub mod Opening
pub mod Books
pub mod Tests
pub mod DomainTests
