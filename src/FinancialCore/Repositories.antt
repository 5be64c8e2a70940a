-- ===== src/FinancialCore/Repositories.antt =====
-- backend/modules/financial_core/adapters/persistence/repositories.py: each statement on its table. A
-- violated PRIMARY KEY, UNIQUE or CHECK constraint raises `integrity_error`; of the foreign keys, that of
-- the ledger entries to their accounts is modelled; the lengths of text columns are not.
pub mod Accounts
pub mod Transfers
pub mod Postings
pub mod Keys
pub mod Outbox
pub mod Tests
