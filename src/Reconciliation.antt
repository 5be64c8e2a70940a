-- ===== src/Reconciliation.antt =====
-- backend/modules/reconciliation/service.py: the integrity report, recomputed from the tables. A query with
-- GROUP BY and HAVING is a count over the groups.
pub mod Balanced
use money_management_pstu_ha.Prelude.{
  ℕ, suc, ◌+◌, Bool, true, false, not, ◌&&◌, ◌||◌, Option, none, some, List, [], ◌∷◌, ltb, leb,
  ◌==◌, str_eq, if◌then◌else◌, is_some, length, count,
}
use money_management_pstu_ha.Prelude.Int.{ℤ, pos, ◌+ℤ◌, ◌-ℤ◌, neg, ltb_ℤ, eqb_ℤ}
use money_management_pstu_ha.Database.{Db}
use money_management_pstu_ha.Database.Enums.{
  AccountType, TransferStatus, RequestStatus, same_account_type, same_transfer_status,
}
use money_management_pstu_ha.Database.Schema.{
  Reference, AccountRecord, TransferRecord, LedgerTransactionRecord, LedgerEntryRecord,
  MoneyRequestRecord,
}
use money_management_pstu_ha.FinancialCore.Books.{sum_for, sum_entries}

pub record MismatchDetail : Type 0 where
  pub account_id : ℕ
  pub recorded_minor : ℤ
  pub derived_minor : ℤ
  pub drift_minor : ℤ

pub record ReconciliationReport : Type 0 where
  pub unbalanced_ledger_transactions : ℕ
  pub balance_mismatches : ℕ
  pub negative_user_accounts : ℕ
  pub succeeded_transfers_without_ledger : ℕ
  pub transfers_with_wrong_entry_count : ℕ
  pub accepted_requests_without_transfer : ℕ
  pub duplicate_transfer_references : ℕ
  pub system_wide_ledger_sum_minor : ℤ
  pub total_user_balance_minor : ℤ
  pub issuance_balance_minor : ℤ
  pub money_in_circulation_minor : ℤ
  pub total_held_minor : ℤ
  pub balance_by_account_type : AccountType → ℤ
  pub accounts_checked : ℕ
  pub ledger_entries_checked : ℕ
  pub transfers_checked : ℕ
  pub mismatch_details : List MismatchDetail

-- `all_account_balance_sum_minor`: a type without accounts counts as zero.
unfoldable pub all_account_balance_sum : (AccountType → ℤ) → ℤ
all_account_balance_sum by_type =
    by_type AccountType.user
    +ℤ by_type AccountType.system_issuance
    +ℤ by_type AccountType.pending_settlement
    +ℤ by_type AccountType.escrow
    +ℤ by_type AccountType.group
    +ℤ by_type AccountType.overdraft_pool

-- `is_balanced`
unfoldable pub is_balanced : ReconciliationReport → Bool
is_balanced r =
    r.unbalanced_ledger_transactions == 0
    && (r.balance_mismatches == 0
        && (r.negative_user_accounts == 0
            && (r.succeeded_transfers_without_ledger == 0
                && (r.transfers_with_wrong_entry_count == 0
                    && (r.accepted_requests_without_transfer == 0
                        && (r.duplicate_transfer_references == 0
                            && (eqb_ℤ r.system_wide_ledger_sum_minor (pos 0)
                                && eqb_ℤ (all_account_balance_sum r.balance_by_account_type)
                                    (pos 0))))))))

-- `SUM(amount_minor)` of a ledger transaction's entries.
unfoldable pub transaction_sum : ℕ → List LedgerEntryRecord → ℤ
transaction_sum id [] = pos 0
transaction_sum id (e ∷ es) =
    if id == e.ledger_transaction_id
    then e.amount_minor +ℤ transaction_sum id es
    else transaction_sum id es

abbrev in_transaction : ℕ → LedgerEntryRecord → Bool
in_transaction id e = id == e.ledger_transaction_id

-- The groups of `entries` with a sum other than zero; a group is counted at its last entry.
unfoldable pub unbalanced_groups : List LedgerEntryRecord → List LedgerEntryRecord → ℕ
unbalanced_groups all [] = 0
unbalanced_groups all (e ∷ es) =
    let others = unbalanced_groups all es in
    if count (in_transaction e.ledger_transaction_id) es == 0
      && not (eqb_ℤ (transaction_sum e.ledger_transaction_id all) (pos 0))
    then suc others
    else others

abbrev pub is_mismatch : List LedgerEntryRecord → AccountRecord → Bool
is_mismatch entries a = not (eqb_ℤ a.balance_minor (sum_for a.id entries))

unfoldable pub mismatch_rows : List LedgerEntryRecord → List AccountRecord → List MismatchDetail
mismatch_rows entries [] = []
mismatch_rows entries (a ∷ rest) =
    let others = mismatch_rows entries rest in
    if is_mismatch entries a
    then record {
      account_id = a.id;
      recorded_minor = a.balance_minor;
      derived_minor = sum_for a.id entries;
      drift_minor = a.balance_minor -ℤ sum_for a.id entries;
    }
      ∷ others
    else others

abbrev pub is_negative_user : AccountRecord → Bool
is_negative_user a =
    same_account_type a.account_type AccountType.user && ltb_ℤ a.balance_minor (pos 0)

abbrev books_transfer : ℕ → LedgerTransactionRecord → Bool
books_transfer id t = id == t.transfer_id

abbrev lacks_ledger : List LedgerTransactionRecord → TransferRecord → Bool
lacks_ledger posted t =
    same_transfer_status t.status TransferStatus.succeeded
    && count (books_transfer t.id) posted == 0

-- The join leaves out a ledger transaction without entries.
abbrev has_wrong_count : List LedgerEntryRecord → LedgerTransactionRecord → Bool
has_wrong_count entries t = let n = count (in_transaction t.id) entries in leb 1 n && not (n == 2)

abbrev is_accepted : RequestStatus → Bool
is_accepted RequestStatus.accepted = true
is_accepted RequestStatus.pending = false
is_accepted RequestStatus.rejected = false
is_accepted RequestStatus.cancelled = false
is_accepted RequestStatus.expired = false

abbrev lacks_transfer : MoneyRequestRecord → Bool
lacks_transfer r = is_accepted r.status && not (is_some r.transfer_id)

abbrev refers_as : Reference → TransferRecord → Bool
refers_as a t =
    str_eq a.prefix t.reference.prefix
    && (a.day == t.reference.day && a.suffix == t.reference.suffix)

-- The references that occur more than once; one is counted at its last but one row.
unfoldable pub duplicate_references : List TransferRecord → ℕ
duplicate_references [] = 0
duplicate_references (t ∷ rest) =
    let others = duplicate_references rest in
    if count (refers_as t.reference) rest == 1 then suc others else others

-- `SUM(balance_minor)` of the accounts of a type.
unfoldable pub balance_of_type : AccountType → List AccountRecord → ℤ
balance_of_type t [] = pos 0
balance_of_type t (a ∷ rest) =
    if same_account_type a.account_type t
    then a.balance_minor +ℤ balance_of_type t rest
    else balance_of_type t rest

-- `ReconciliationService.run`
unfoldable pub run : Db → Bool → ReconciliationReport
run db include_details =
    let by_type : AccountType → ℤ = λ t. balance_of_type t db.accounts in
    record {
      unbalanced_ledger_transactions = unbalanced_groups db.ledger_entries db.ledger_entries;
      balance_mismatches = length (mismatch_rows db.ledger_entries db.accounts);
      negative_user_accounts = count is_negative_user db.accounts;
      succeeded_transfers_without_ledger = count (lacks_ledger db.ledger_transactions) db.transfers;
      transfers_with_wrong_entry_count =
          count (has_wrong_count db.ledger_entries) db.ledger_transactions;
      accepted_requests_without_transfer = count lacks_transfer db.money_requests;
      duplicate_transfer_references = duplicate_references db.transfers;
      system_wide_ledger_sum_minor = sum_entries db.ledger_entries;
      total_user_balance_minor = by_type AccountType.user;
      issuance_balance_minor = by_type AccountType.system_issuance;
      money_in_circulation_minor = neg (by_type AccountType.system_issuance);
      total_held_minor =
          by_type AccountType.pending_settlement
          +ℤ by_type AccountType.escrow
          +ℤ by_type AccountType.group
          +ℤ by_type AccountType.overdraft_pool;
      balance_by_account_type = by_type;
      accounts_checked = length db.accounts;
      ledger_entries_checked = length db.ledger_entries;
      transfers_checked = length db.transfers;
      mismatch_details =
          if include_details then mismatch_rows db.ledger_entries db.accounts else [];
    }
