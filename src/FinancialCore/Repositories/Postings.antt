-- ===== src/FinancialCore/Repositories/Postings.antt =====
-- `SqlLedgerRepository.post`: one ledger transaction with an entry for each line.
use money_management_pstu_ha.Prelude.{
  ℕ, String, Bool, true, not, ◌&&◌, Option, none, some, ◌||◌, List, [], ◌∷◌, ◌++◌, ◌==◌, is_some,
  find, if◌then◌else◌,
}
use money_management_pstu_ha.Prelude.Result.{integrity_error, key_error}
use money_management_pstu_ha.Prelude.Exec.{gets, modify, pure, raise_if, require, ◌>>=◌, ◌>>◌}
use money_management_pstu_ha.Kernel.Money.{Money}
use money_management_pstu_ha.Database.{Db, Action, new_ulid}
use money_management_pstu_ha.Database.Enums.{TransferKind}
use money_management_pstu_ha.Database.Schema.{LedgerTransactionRecord, LedgerEntryRecord}
use money_management_pstu_ha.FinancialCore.Ledger.{PostingLine, LedgerPosting}
use money_management_pstu_ha.FinancialCore.Repositories.Accounts.{find_account}

-- `balances_after[account_id]`
unfoldable pub balance_after : ℕ → List (ℕ × Money) → Option Money
balance_after id [] = none
balance_after id ((k, m) ∷ rest) = if id == k then some m else balance_after id rest

-- The entry of one line.
unfoldable pub entry_of : ℕ → List (ℕ × Money) → ℕ → PostingLine → Action LedgerEntryRecord
entry_of ledger_transaction_id balances now line = do
  entry_id ← new_ulid
  balance ← require (balance_after line.account_id balances) key_error
  pure (record {
    id = entry_id;
    ledger_transaction_id = ledger_transaction_id;
    account_id = line.account_id;
    amount_minor = line.amount.minor;
    currency = line.amount.currency.code;
    balance_after_minor = balance.minor;
    created_at = now;
  })

unfoldable pub entries_of :
    ℕ → List (ℕ × Money) → ℕ → List PostingLine → Action (List LedgerEntryRecord)
entries_of ledger_transaction_id balances now [] = pure []
entries_of ledger_transaction_id balances now (line ∷ lines) = do
  entry ← entry_of ledger_transaction_id balances now line
  rest ← entries_of ledger_transaction_id balances now lines
  pure (entry ∷ rest)

abbrev pub same_transaction : ℕ → ℕ → LedgerTransactionRecord → Bool
same_transaction id transfer_id r = id == r.id || transfer_id == r.transfer_id

unfoldable pub insert_transaction : LedgerTransactionRecord → Action (Unit {0})
insert_transaction row = do
  taken ←
      gets (λ db. is_some (find (same_transaction row.id row.transfer_id) db.ledger_transactions))
  raise_if taken integrity_error
  modify (λ db. record db { ledger_transactions = db.ledger_transactions ++ (row ∷ []) })

-- The FOREIGN KEY to `accounts`.
unfoldable pub accounts_exist : Db → List LedgerEntryRecord → Bool
accounts_exist db [] = true
accounts_exist db (e ∷ rows) = is_some (find_account e.account_id db) && accounts_exist db rows

unfoldable pub insert_entries : List LedgerEntryRecord → Action (Unit {0})
insert_entries rows = do
  known ← gets (λ db. accounts_exist db rows)
  raise_if (not known) integrity_error
  modify (λ db. record db { ledger_entries = db.ledger_entries ++ rows })

unfoldable pub post :
    LedgerPosting → ℕ → TransferKind → Option String → List (ℕ × Money) → ℕ → Action ℕ
post posting transfer_id posting_type description balances now = do
  ledger_transaction_id ← new_ulid
  insert_transaction (record {
    id = ledger_transaction_id;
    transfer_id = transfer_id;
    posting_type = posting_type;
    description = description;
    posted_at = now;
  })
  rows ← entries_of ledger_transaction_id balances now posting.lines
  insert_entries rows
  pure ledger_transaction_id
