-- ===== src/System/Tests/Holds.antt =====
-- A hold that is paid out and a transfer that is repeated, on the small bank.
use money_management_pstu_ha.Prelude.{
  order_by, select, ◌≡◌, refl, true, none, some, [], ◌∷◌, find, update, count,
}
use money_management_pstu_ha.Prelude.Int.{pos, negsuc}
use money_management_pstu_ha.Prelude.Result.{err, state_conflict}
use money_management_pstu_ha.Prelude.Exec.{lift, gets, atomically, ◌>>=◌}
use money_management_pstu_ha.Kernel.Money.{from_minor, supported_currency}
use money_management_pstu_ha.Database.{Db}
use money_management_pstu_ha.Database.Enums.{AccountType, TransferKind, TransferStatus}
use money_management_pstu_ha.FinancialCore.Holding.{SettlementOrder, settle_hold}
use money_management_pstu_ha.FinancialCore.Policies.{no_fee}
use money_management_pstu_ha.FinancialCore.Transfer.{no_interceptor, execute}
use money_management_pstu_ha.FinancialCore.Repositories.Accounts.{
  to_domain, find_account, get_by_id, optional_domain,
}
use money_management_pstu_ha.FinancialCore.Tests.{send_300, bank, policy_of, account_row, entry_row}
use money_management_pstu_ha.FinancialCore.Tests.Windows.{digest, held_300, pay_out}
use money_management_pstu_ha.Overdraft.Sweep.{interceptor_at}
use money_management_pstu_ha.System.Wiring.{interceptor_of}
use money_management_pstu_ha.System.Steps.{happen_all}
use money_management_pstu_ha.System.Once.{settle_hold-once}
use money_management_pstu_ha.Prelude.Exec.{modify, option_case}
use money_management_pstu_ha.Prelude.Int.{◌+ℤ◌, ◌-ℤ◌, neg}
use money_management_pstu_ha.Kernel.Money.{
  add, sub, negate, less_than, assert_same_currency, is_positive, is_zero, same_currency,
}
use money_management_pstu_ha.Database.{clock_now, new_ulid, draw, generate_reference}
use money_management_pstu_ha.FinancialCore.Account.{
  ensure_active, can_transact, ensure_owned_by, ensure_same_currency_as, ensure_can_afford,
  may_go_negative, debit, credit,
}
use money_management_pstu_ha.FinancialCore.Policies.{fee_for, ensure_within_limits}
use money_management_pstu_ha.FinancialCore.Ledger.{
  posting_line, ledger_posting, transfer_posting, sum_lines, has_duplicate, has_foreign_line,
  mentions,
}
use money_management_pstu_ha.FinancialCore.Repositories.Accounts.{
  sorted_set, insert_id, load_accounts, lock_for_update, get_locked, persist_balance,
}
use money_management_pstu_ha.FinancialCore.Repositories.Transfers.{
  insert_transfer, find_transfer, completion_time, sum_sent_since, sum_sent,
}
use money_management_pstu_ha.FinancialCore.Repositories.Postings.{
  post, entries_of, entry_of, balance_after, accounts_exist, insert_entries, insert_transaction,
}
use money_management_pstu_ha.FinancialCore.Repositories.Keys.{reserve, find_key, complete}
use money_management_pstu_ha.FinancialCore.Repositories.Outbox.{append_event, record_audit}
use money_management_pstu_ha.FinancialCore.Transfer.{
  system_initiated, perform, revalidate, check_limits, authorize, start_of_day, move_money,
  apply_movement, record_movement, announce, handle_idempotency_decision,
}
use money_management_pstu_ha.FinancialCore.Repositories.Transfers.{try_transition_status}
use money_management_pstu_ha.Database.{database_now}
use money_management_pstu_ha.FinancialCore.Holding.{settlement_command}
use money_management_pstu_ha.Overdraft.Sweep.{
  interceptor_with, additional_lock_ids, after_credit, sweep_credit, sweep_budget, repay_loans,
}
use money_management_pstu_ha.Overdraft.Loans.{outstanding_loans, join_loans}
use money_management_pstu_ha.FinancialCore.Idempotency.{fingerprint_request}
use money_management_pstu_ha.Prelude.Result.{is_ok}
use money_management_pstu_ha.System.Repeats.{execute-once}
use money_management_pstu_ha.System.Timers.{settle-spent}
use money_management_pstu_ha.FinancialCore.Undo.{settle}
use money_management_pstu_ha.FinancialCore.Policies.{flat_fee}
use money_management_pstu_ha.FinancialCore.Transfer.{Interceptor}
use money_management_pstu_ha.FinancialCore.Transfer.Allowed.{
  IsTransferFrom, HasAccounts-IsBookFact, perform-IsTransferFrom,
}
use money_management_pstu_ha.FinancialCore.Books.Writes.{logs}
use money_management_pstu_ha.Overdraft.Sweep.{interceptor_at}
use money_management_pstu_ha.Overdraft.Sweep.Kept.{additional_lock_ids-Keeps}
use money_management_pstu_ha.Prelude.Exec.Ensures.{Ensures}
use money_management_pstu_ha.Prelude.{none}
use money_management_pstu_ha.Prelude.Result.{ok}
use money_management_pstu_ha.System.Tests.{demo, busy_day}

-- The bank while a transfer of 3.00 BDT waits to be undone.
abbrev holding : Db
holding = record bank {
  accounts =
      account_row 0 none AccountType.system_issuance (negsuc 999)
      ∷ account_row 2 none AccountType.pending_settlement (pos 300)
      ∷ account_row 5 (some 50) AccountType.user (pos 700)
      ∷ account_row 6 (some 60) AccountType.user (pos 0)
      ∷ [];
  transfers = (record held_300 { status = TransferStatus.pending_undo }) ∷ [];
  ledger_entries =
      entry_row 1 0 (negsuc 999)
      ∷ entry_row 2 5 (pos 1000)
      ∷ entry_row 3 5 (negsuc 299)
      ∷ entry_row 4 2 (pos 300)
      ∷ [];
}

abbrev take_it_back : SettlementOrder
take_it_back = record pay_out {
  to_status = TransferStatus.refunded;
  beneficiary_account_id = 5;
  kind = TransferKind.undo_refund;
}

abbrev paid_out : Db
paid_out = (settle_hold digest (policy_of no_fee) (interceptor_of demo) pay_out holding).1

payout_returns :
    is_ok (settle_hold digest (policy_of no_fee) (interceptor_of demo) pay_out holding).0 ≡ true
unfolding settle_hold settlement_command try_transition_status database_now interceptor_at
    interceptor_with additional_lock_ids after_credit sweep_credit sweep_budget outstanding_loans
    get_by_id optional_domain repay_loans fingerprint_request join_loans order_by select find count
    update lift gets modify ◌>>=◌ option_case ◌+ℤ◌ ◌-ℤ◌ neg add sub negate less_than
    assert_same_currency is_positive is_zero same_currency from_minor supported_currency clock_now
    new_ulid draw generate_reference ensure_active can_transact ensure_owned_by
    ensure_same_currency_as ensure_can_afford may_go_negative debit credit fee_for
    ensure_within_limits posting_line ledger_posting transfer_posting sum_lines has_duplicate
    has_foreign_line mentions sorted_set insert_id load_accounts find_account to_domain
    lock_for_update get_locked persist_balance insert_transfer find_transfer completion_time
    sum_sent_since sum_sent post entries_of entry_of balance_after insert_entries accounts_exist
    insert_transaction reserve find_key complete append_event record_audit no_interceptor
    system_initiated execute perform revalidate check_limits authorize start_of_day move_money
    apply_movement record_movement announce handle_idempotency_decision
payout_returns = refl

settle_hold-once_example :
    atomically
      (settle_hold digest (policy_of no_fee) (interceptor_of demo) take_it_back)
      (happen_all demo busy_day paid_out)
    ≡ (err state_conflict, happen_all demo busy_day paid_out)
settle_hold-once_example =
    settle_hold-once demo pay_out take_it_back holding busy_day refl refl payout_returns refl refl

send_returns : is_ok (execute (policy_of no_fee) (interceptor_of demo) send_300 bank).0 ≡ true
unfolding settle_hold settlement_command try_transition_status database_now interceptor_at
    interceptor_with additional_lock_ids after_credit sweep_credit sweep_budget outstanding_loans
    get_by_id optional_domain repay_loans fingerprint_request join_loans order_by select find count
    update lift gets modify ◌>>=◌ option_case ◌+ℤ◌ ◌-ℤ◌ neg add sub negate less_than
    assert_same_currency is_positive is_zero same_currency from_minor supported_currency clock_now
    new_ulid draw generate_reference ensure_active can_transact ensure_owned_by
    ensure_same_currency_as ensure_can_afford may_go_negative debit credit fee_for
    ensure_within_limits posting_line ledger_posting transfer_posting sum_lines has_duplicate
    has_foreign_line mentions sorted_set insert_id load_accounts find_account to_domain
    lock_for_update get_locked persist_balance insert_transfer find_transfer completion_time
    sum_sent_since sum_sent post entries_of entry_of balance_after insert_entries accounts_exist
    insert_transaction reserve find_key complete append_event record_audit no_interceptor
    system_initiated execute perform revalidate check_limits authorize start_of_day move_money
    apply_movement record_movement announce handle_idempotency_decision
send_returns = refl

abbrev sent : Db
sent = (execute (policy_of no_fee) (interceptor_of demo) send_300 bank).1

execute-once_example :
    (execute (policy_of no_fee) (interceptor_of demo) send_300 (happen_all demo busy_day sent)).1
    ≡ happen_all demo busy_day sent
execute-once_example = execute-once demo send_300 bank busy_day send_returns

settle-spent_example :
    settle digest (policy_of no_fee) (interceptor_of demo) 10 77 (happen_all demo busy_day paid_out)
    ≡ (ok none, happen_all demo busy_day paid_out)
settle-spent_example = settle-spent demo pay_out holding busy_day refl refl payout_returns

abbrev fee_bearing : Interceptor
fee_bearing = interceptor_at digest (policy_of (flat_fee (pos 25))) 5_000 1

perform-IsTransferFrom_example :
    Ensures
      (λ db. db.accounts ≡ bank.accounts)
      (perform (policy_of (flat_fee (pos 25))) fee_bearing send_300 7)
      (λ result _. IsTransferFrom bank.accounts (policy_of (flat_fee (pos 25))) send_300 result)
unfolding interceptor_at interceptor_with
perform-IsTransferFrom_example =
    perform-IsTransferFrom (policy_of (flat_fee (pos 25))) fee_bearing send_300 7 bank.accounts
      λ receiver kind.
        additional_lock_ids-Keeps (logs (HasAccounts-IsBookFact bank.accounts)) receiver kind
