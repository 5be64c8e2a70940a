-- ===== src/FinancialCore/Tests/Run.antt =====
-- The transfer of the other tests, run on the small bank.
use money_management_pstu_ha.Prelude.{◌≡◌, refl, Bool, true, false, List, [], ◌∷◌}
use money_management_pstu_ha.Prelude.Int.{ℤ, pos, negsuc}
use money_management_pstu_ha.FinancialCore.Tests.{bank, send_300, policy_of}
use money_management_pstu_ha.Prelude.{find, count, update}
use money_management_pstu_ha.Prelude.Exec.{lift, gets, modify, ◌>>=◌, option_case}
use money_management_pstu_ha.Prelude.Int.{◌+ℤ◌, ◌-ℤ◌, neg}
use money_management_pstu_ha.Kernel.Money.{
  add, sub, negate, less_than, assert_same_currency, is_positive, is_zero, same_currency,
  from_minor, supported_currency,
}
use money_management_pstu_ha.Database.{clock_now, new_ulid, draw, generate_reference}
use money_management_pstu_ha.FinancialCore.Account.{
  ensure_active, can_transact, ensure_owned_by, ensure_same_currency_as, ensure_can_afford,
  may_go_negative, debit, credit,
}
use money_management_pstu_ha.FinancialCore.Policies.{fee_for, ensure_within_limits}
use money_management_pstu_ha.FinancialCore.Ledger.{
  posting_line, ledger_posting, transfer_posting, sum_lines, has_duplicate, has_foreign_line,
  mentions,
}
use money_management_pstu_ha.FinancialCore.Repositories.Accounts.{
  sorted_set, insert_id, load_accounts, find_account, to_domain, lock_for_update, get_locked,
  persist_balance,
}
use money_management_pstu_ha.FinancialCore.Repositories.Transfers.{
  insert_transfer, find_transfer, completion_time, sum_sent_since, sum_sent,
}
use money_management_pstu_ha.FinancialCore.Repositories.Postings.{
  post, entries_of, entry_of, balance_after, accounts_exist, insert_entries, insert_transaction,
}
use money_management_pstu_ha.FinancialCore.Repositories.Keys.{reserve, find_key, complete}
use money_management_pstu_ha.FinancialCore.Repositories.Outbox.{append_event, record_audit}
use money_management_pstu_ha.FinancialCore.Transfer.{
  no_interceptor, system_initiated, execute, perform, revalidate, check_limits, authorize,
  start_of_day, move_money, apply_movement, record_movement, announce, handle_idempotency_decision,
}
use money_management_pstu_ha.FinancialCore.Policies.{FeeStrategy, no_fee, flat_fee}
use money_management_pstu_ha.Reconciliation.{
  is_balanced, run, all_account_balance_sum, transaction_sum, unbalanced_groups, mismatch_rows,
  duplicate_references, balance_of_type,
}
use money_management_pstu_ha.Database.Schema.{AccountRecord}

abbrev balances : List AccountRecord → List ℤ
balances [] = []
balances (a ∷ rest) = a.balance_minor ∷ balances rest

-- The transfer of the other tests returns, and moves the money.
transfer_runs :
    balances (execute (policy_of no_fee) no_interceptor send_300 bank).1.accounts
    ≡ negsuc 999 ∷ pos 700 ∷ pos 300 ∷ []
unfolding find count update lift gets modify ◌>>=◌ option_case ◌+ℤ◌ ◌-ℤ◌ neg add sub negate
    less_than assert_same_currency is_positive is_zero same_currency from_minor supported_currency
    clock_now new_ulid draw generate_reference ensure_active can_transact ensure_owned_by
    ensure_same_currency_as ensure_can_afford may_go_negative debit credit fee_for
    ensure_within_limits posting_line ledger_posting transfer_posting sum_lines has_duplicate
    has_foreign_line mentions sorted_set insert_id load_accounts find_account to_domain
    lock_for_update get_locked persist_balance insert_transfer find_transfer completion_time
    sum_sent_since sum_sent post entries_of entry_of balance_after insert_entries accounts_exist
    insert_transaction reserve find_key complete append_event record_audit no_interceptor
    system_initiated execute perform revalidate check_limits authorize start_of_day move_money
    apply_movement record_movement announce handle_idempotency_decision
transfer_runs = refl

-- The same transfer with a flat fee of 25 poisha: the sender pays it, and nobody receives it.
fee_is_lost :
    balances (execute (policy_of (flat_fee (pos 25))) no_interceptor send_300 bank).1.accounts
    ≡ negsuc 999 ∷ pos 675 ∷ pos 300 ∷ []
unfolding find count update lift gets modify ◌>>=◌ option_case ◌+ℤ◌ ◌-ℤ◌ neg add sub negate
    less_than assert_same_currency is_positive is_zero same_currency from_minor supported_currency
    clock_now new_ulid draw generate_reference ensure_active can_transact ensure_owned_by
    ensure_same_currency_as ensure_can_afford may_go_negative debit credit fee_for
    ensure_within_limits posting_line ledger_posting transfer_posting sum_lines has_duplicate
    has_foreign_line mentions sorted_set insert_id load_accounts find_account to_domain
    lock_for_update get_locked persist_balance insert_transfer find_transfer completion_time
    sum_sent_since sum_sent post entries_of entry_of balance_after insert_entries accounts_exist
    insert_transaction reserve find_key complete append_event record_audit no_interceptor
    system_initiated execute perform revalidate check_limits authorize start_of_day move_money
    apply_movement record_movement announce handle_idempotency_decision
fee_is_lost = refl

-- What the report makes of either.
report_after : FeeStrategy → Bool
report_after fees = is_balanced (run (execute (policy_of fees) no_interceptor send_300 bank).1 true)

report_is_clean : report_after no_fee ≡ true
unfolding report_after is_balanced run all_account_balance_sum transaction_sum unbalanced_groups
    mismatch_rows duplicate_references balance_of_type find count update lift gets modify ◌>>=◌
    option_case ◌+ℤ◌ ◌-ℤ◌ neg add sub negate less_than assert_same_currency is_positive is_zero
    same_currency from_minor supported_currency clock_now new_ulid draw generate_reference
    ensure_active can_transact ensure_owned_by ensure_same_currency_as ensure_can_afford
    may_go_negative debit credit fee_for ensure_within_limits posting_line ledger_posting
    transfer_posting sum_lines has_duplicate has_foreign_line mentions sorted_set insert_id
    load_accounts find_account to_domain lock_for_update get_locked persist_balance insert_transfer
    find_transfer completion_time sum_sent_since sum_sent post entries_of entry_of balance_after
    insert_entries accounts_exist insert_transaction reserve find_key complete append_event
    record_audit no_interceptor system_initiated execute perform revalidate check_limits authorize
    start_of_day move_money apply_movement record_movement announce handle_idempotency_decision
report_is_clean = refl

report_finds_fee : report_after (flat_fee (pos 25)) ≡ false
unfolding report_after is_balanced run all_account_balance_sum transaction_sum unbalanced_groups
    mismatch_rows duplicate_references balance_of_type find count update lift gets modify ◌>>=◌
    option_case ◌+ℤ◌ ◌-ℤ◌ neg add sub negate less_than assert_same_currency is_positive is_zero
    same_currency from_minor supported_currency clock_now new_ulid draw generate_reference
    ensure_active can_transact ensure_owned_by ensure_same_currency_as ensure_can_afford
    may_go_negative debit credit fee_for ensure_within_limits posting_line ledger_posting
    transfer_posting sum_lines has_duplicate has_foreign_line mentions sorted_set insert_id
    load_accounts find_account to_domain lock_for_update get_locked persist_balance insert_transfer
    find_transfer completion_time sum_sent_since sum_sent post entries_of entry_of balance_after
    insert_entries accounts_exist insert_transaction reserve find_key complete append_event
    record_audit no_interceptor system_initiated execute perform revalidate check_limits authorize
    start_of_day move_money apply_movement record_movement announce handle_idempotency_decision
report_finds_fee = refl
