-- ===== src/FinancialCore/Books.antt =====
-- The invariant of the books, which backend/modules/reconciliation/service.py recomputes from the tables:
-- each balance is the sum of the account's entries, only the issuance account is below zero, and all
-- balances and all entries sum to zero. Between the two balance updates of a transfer and its posting,
-- the amounts not yet posted are `pending`, by account, and sum to `drift`.
pub mod Updates
pub mod Movement
pub mod Writes
pub mod Conservation
pub mod Locked
pub mod Execution
pub mod Frames
pub mod Opening
pub mod Windows
use money_management_pstu_ha.Prelude.{
  ℕ, ◌≡◌, Bool, true, ◌||◌, Option, some, List, [], ◌∷◌, ◌==◌, if◌then◌else◌, All,
}
use money_management_pstu_ha.Prelude.Int.{ℤ, pos, ◌+ℤ◌, leb_ℤ}
use money_management_pstu_ha.Database.{Db}
use money_management_pstu_ha.Database.Schema.{AccountRecord, LedgerEntryRecord}
use money_management_pstu_ha.FinancialCore.Account.{Account, is_issuance}
use money_management_pstu_ha.FinancialCore.Repositories.Accounts.{find_account}

-- `SUM(amount_minor)` of an account's entries.
abbrev pub sum_for : ℕ → List LedgerEntryRecord → ℤ
sum_for id [] = pos 0
sum_for id (e ∷ es) = if id == e.account_id then e.amount_minor +ℤ sum_for id es else sum_for id es

-- `SUM(amount_minor)` of the table.
abbrev pub sum_entries : List LedgerEntryRecord → ℤ
sum_entries [] = pos 0
sum_entries (e ∷ es) = e.amount_minor +ℤ sum_entries es

-- `SUM(balance_minor)` of the table.
abbrev pub total_balance : List AccountRecord → ℤ
total_balance [] = pos 0
total_balance (a ∷ rest) = a.balance_minor +ℤ total_balance rest

abbrev pub IsDerived : (ℕ → ℤ) → AccountRecord → Type 0
IsDerived expected a = a.balance_minor ≡ expected a.id

abbrev pub IsFloored : AccountRecord → Type 0
IsFloored a = (is_issuance a.account_type || leb_ℤ (pos 0) a.balance_minor) ≡ true

abbrev pub expected_balance : List LedgerEntryRecord → (ℕ → ℤ) → ℕ → ℤ
expected_balance entries pending id = sum_for id entries +ℤ pending id

pub record IsSoundUpTo (pending : ℕ → ℤ) (drift : ℤ) (db : Db) : Type 0 where
  pub derived : All (IsDerived (expected_balance db.ledger_entries pending)) db.accounts
  pub floored : All IsFloored db.accounts
  pub total : total_balance db.accounts ≡ drift
  pub zero_sum : sum_entries db.ledger_entries ≡ pos 0

abbrev pub nothing_pending : ℕ → ℤ
nothing_pending id = pos 0

abbrev pub IsSound : Db → Type 0
IsSound = IsSoundUpTo nothing_pending (pos 0)

abbrev pub also_pending : ℕ → ℤ → (ℕ → ℤ) → ℕ → ℤ
also_pending id amount pending k = if id == k then pending k +ℤ amount else pending k

-- The account is as its row stands in the table.
pub record IsCurrent (a : Account) (db : Db) : Type 0 where
  pub row : AccountRecord
  pub found : find_account a.id db ≡ some row
  pub same_balance : row.balance_minor ≡ a.balance.minor
