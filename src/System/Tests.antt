-- ===== src/System/Tests.antt =====
-- The whole backend on the small bank.
pub mod Holds
pub mod Parcels
use money_management_pstu_ha.Prelude.{
  order_by, select, ◌≡◌, refl, true, false, none, some, List, [], ◌∷◌, find, update, count, arith,
}
use money_management_pstu_ha.Prelude.Int.{pos, negsuc}
use money_management_pstu_ha.Prelude.Result.{err, state_conflict, authentication}
use money_management_pstu_ha.Prelude.Exec.{lift, gets, atomically, ◌>>=◌}
use money_management_pstu_ha.Prelude.Exec.Ensures.{Ensures}
use money_management_pstu_ha.Kernel.Money.{from_minor, bdt, supported_currency}
use money_management_pstu_ha.Database.Schema.{SafePayEscrowRecord}
use money_management_pstu_ha.Database.{Db}
use money_management_pstu_ha.Database.Enums.{
  AccountType, AccountStatus, EscrowStatus, TransferKind, TransferStatus, RequestStatus, UserStatus,
}
use money_management_pstu_ha.Database.Schema.{MoneyRequestRecord, SessionRecord, UserRecord}
use money_management_pstu_ha.FinancialCore.Account.{Account}
use money_management_pstu_ha.FinancialCore.Holding.{SettlementOrder, settle_hold}
use money_management_pstu_ha.FinancialCore.Policies.{no_fee}
use money_management_pstu_ha.FinancialCore.Transfer.{no_interceptor, execute}
use money_management_pstu_ha.FinancialCore.Repositories.Accounts.{
  to_domain, find_account, get_by_id, optional_domain,
}
use money_management_pstu_ha.FinancialCore.Books.Opening.{IsReferenced, IsSoundAndReferenced}
use money_management_pstu_ha.FinancialCore.Tests.{
  bank, send_300, policy_of, bank-IsSound, account_row, entry_row,
}
use money_management_pstu_ha.FinancialCore.Tests.Windows.{digest, held_300, pay_out}
use money_management_pstu_ha.Identity.Auth.{Passwords, TokenService, Settings, refresh}
use money_management_pstu_ha.Identity.Users.{find_user}
use money_management_pstu_ha.Identity.Sessions.{Client}
use money_management_pstu_ha.Identity.Pin.{IsRefused, guesses, guesses-locked}
use money_management_pstu_ha.Identity.Reuse.{refresh-reused}
use money_management_pstu_ha.MoneyRequest.Requests.{find_request}
use money_management_pstu_ha.MoneyRequest.Service.{Acceptance, accept}
use money_management_pstu_ha.MoneyRequest.Answers.{accept-expired}
use money_management_pstu_ha.Overdraft.Sweep.{interceptor_at}
use money_management_pstu_ha.Overdraft.Sweep.Once.{interceptor_at-once}
use money_management_pstu_ha.Overdraft.Sweep.Taken.{IsWithin}
use money_management_pstu_ha.Overdraft.Sweep.Budget.{after_credit-IsWithin}
use money_management_pstu_ha.System.Wiring.{Wiring, interceptor_of}
use money_management_pstu_ha.System.Steps.{
  run_command, Event, runs, time_passes, transfer, ship_escrow, run_timers, happen_all,
}
use money_management_pstu_ha.System.Books.{happen_all-IsSound}
use money_management_pstu_ha.System.Once.{settle_hold-once}
use money_management_pstu_ha.System.Links.{IsLinked, happen_all-IsLinked}
use money_management_pstu_ha.Prelude.Exec.{modify, option_case}
use money_management_pstu_ha.Prelude.Int.{◌+ℤ◌, ◌-ℤ◌, neg}
use money_management_pstu_ha.Kernel.Money.{
  add, sub, negate, less_than, assert_same_currency, is_positive, is_zero, same_currency,
}
use money_management_pstu_ha.Database.{clock_now, new_ulid, draw, generate_reference}
use money_management_pstu_ha.FinancialCore.Account.{
  ensure_active, can_transact, ensure_owned_by, ensure_same_currency_as, ensure_can_afford,
  may_go_negative, debit, credit,
}
use money_management_pstu_ha.FinancialCore.Policies.{fee_for, ensure_within_limits}
use money_management_pstu_ha.FinancialCore.Ledger.{
  posting_line, ledger_posting, transfer_posting, sum_lines, has_duplicate, has_foreign_line,
  mentions,
}
use money_management_pstu_ha.FinancialCore.Repositories.Accounts.{
  sorted_set, insert_id, load_accounts, lock_for_update, get_locked, persist_balance,
}
use money_management_pstu_ha.FinancialCore.Repositories.Transfers.{
  insert_transfer, find_transfer, completion_time, sum_sent_since, sum_sent,
}
use money_management_pstu_ha.FinancialCore.Repositories.Postings.{
  post, entries_of, entry_of, balance_after, accounts_exist, insert_entries, insert_transaction,
}
use money_management_pstu_ha.FinancialCore.Repositories.Keys.{reserve, find_key, complete}
use money_management_pstu_ha.FinancialCore.Repositories.Outbox.{append_event, record_audit}
use money_management_pstu_ha.FinancialCore.Transfer.{
  system_initiated, perform, revalidate, check_limits, authorize, start_of_day, move_money,
  apply_movement, record_movement, announce, handle_idempotency_decision,
}
use money_management_pstu_ha.FinancialCore.Repositories.Transfers.{try_transition_status}
use money_management_pstu_ha.Database.{database_now}
use money_management_pstu_ha.FinancialCore.Holding.{settlement_command}
use money_management_pstu_ha.Overdraft.Sweep.{
  interceptor_with, additional_lock_ids, after_credit, sweep_credit, sweep_budget, repay_loans,
}
use money_management_pstu_ha.Overdraft.Loans.{outstanding_loans, join_loans}
use money_management_pstu_ha.FinancialCore.Idempotency.{fingerprint_request}
use money_management_pstu_ha.Prelude.Result.{is_ok}
use money_management_pstu_ha.SafePay.Escrows.{find_escrow}
use money_management_pstu_ha.System.EscrowStates.{
  IsOnCourse, happen_all-IsOnCourse, happen_all-over,
}

abbrev no_words : Passwords
no_words = record {
  hash = λ salt word. word;
  verify = λ stored word. false;
  needs_rehash = λ stored. false;
}

abbrev plain_tokens : TokenService
plain_tokens = record {
  raw_token = λ n. "token";
  hash_refresh_token = λ token. token;
  issue_access_token = λ user session now. "access";
  refresh_ttl_seconds = 1_209_600;
}

abbrev three_attempts : Settings
three_attempts = record {
  opening_balance = from_minor (pos 1000) bdt;
  pin_max_attempts = 3;
  pin_lockout_seconds = 900;
  access_ttl_seconds = 900;
}

abbrev pub demo : Wiring
demo = record {
  digest = digest;
  passwords = no_words;
  tokens = plain_tokens;
  code_digest = λ n. n;
  policy = policy_of no_fee;
  auth = three_attempts;
  lien_sweep_basis_points = 5_000;
  max_draw_minor = 100_000;
  undo_window_seconds = 10;
  request_expiry_hours = 72;
  auto_release_hours = 72;
  code_lock_seconds = 900;
}

bank-IsReferenced : IsReferenced bank
unfolding find
bank-IsReferenced = record { refers = (refl, (refl, tt)) }

abbrev pub busy_day : List Event
busy_day =
    runs (transfer send_300)
    ∷ time_passes 1_790_000_010_000 1_790_000_010_000
    ∷ runs run_timers
    ∷ []

happen_all-IsSound_example : IsSoundAndReferenced (happen_all demo busy_day bank)
happen_all-IsSound_example =
    happen_all-IsSound demo refl busy_day bank bank-IsSound bank-IsReferenced

abbrev ann : UserRecord
ann = record {
  id = 50;
  phone = "01711111111";
  display_name = "Ann";
  password_hash = "password";
  pin_hash = "1234";
  pin_failed_attempts = 1;
  pin_locked_until = none;
  status = UserStatus.active;
  created_at = 0;
  updated_at = 0;
}

abbrev asked : MoneyRequestRecord
asked = record {
  id = 30;
  reference = record { prefix = "REQ"; day = 20_717; suffix = 5 };
  requester_account_id = 6;
  payer_account_id = 5;
  amount_minor = pos 200;
  currency = "BDT";
  note = none;
  status = RequestStatus.pending;
  transfer_id = none;
  expires_at = 1_780_000_000_000;
  responded_at = none;
  created_at = 0;
  updated_at = 0;
}

abbrev session : SessionRecord
session = record {
  id = 40;
  user_id = 50;
  refresh_token_hash = "old";
  rotated_to_id = some 41;
  issued_at = 0;
  expires_at = 1_800_000_000_000;
  revoked_at = some 7;
  user_agent = none;
  ip_address = none;
}

abbrev pub office : Db
office = record bank { users = ann ∷ []; money_requests = asked ∷ []; sessions = session ∷ [] }

happen_all-IsLinked_example : IsLinked (happen_all demo busy_day office)
happen_all-IsLinked_example =
    happen_all-IsLinked demo busy_day office (record { requests = (refl, tt); escrows = tt })

guesses-locked_example :
    IsRefused no_words plain_tokens three_attempts
      (run_command demo (transfer send_300))
      50
      "1234"
      (guesses no_words plain_tokens three_attempts
        (run_command demo (transfer send_300))
        50
        ("1111" ∷ "2222" ∷ [])
        office)
unfolding find_user find
guesses-locked_example =
    guesses-locked no_words plain_tokens three_attempts (run_command demo (transfer send_300)) 50
      "1111" ("2222" ∷ []) office ann refl refl (refl, (refl, tt)) refl (omega arith) "1234"

abbrev browser : Client
browser = record { user_agent = none; ip_address = none }

refresh-reused_example :
    atomically (refresh no_words plain_tokens three_attempts "old" browser) office
    ≡ (err authentication, office)
unfolding find
refresh-reused_example =
    refresh-reused no_words plain_tokens three_attempts "old" browser office session 7 refl refl

abbrev yes : Acceptance
yes = record {
  request_id = 30;
  payer_user_id = 50;
  idempotency_key = "accept-1";
  api_request_id = none;
}

abbrev anns_account : Account
anns_account = record {
  id = 5;
  user_id = some 50;
  account_type = AccountType.user;
  balance = from_minor (pos 1000) bdt;
  status = AccountStatus.active;
  version = 0;
}

accept-expired_example :
    atomically (accept digest (policy_of no_fee) no_interceptor yes) office
    ≡ (err state_conflict, office)
unfolding find_request find get_by_id find_account optional_domain to_domain supported_currency
    from_minor lift gets ◌>>=◌
accept-expired_example =
    accept-expired digest (policy_of no_fee) no_interceptor yes office asked (some anns_account)
      refl refl refl refl refl

interceptor_at-once_example :
    interceptor_at digest (policy_of no_fee) 5_000 4
    ≡ interceptor_at digest (policy_of no_fee) 5_000 1
interceptor_at-once_example = interceptor_at-once digest (policy_of no_fee) 5_000 3

after_credit-IsWithin_example :
    Ensures
      (IsWithin 0 0)
      ((interceptor_at digest (policy_of no_fee) 5_000 1).after_credit 77 anns_account
        (from_minor (pos 300) bdt)
        TransferKind.p2p_send
        none)
      (λ _. IsWithin 150 150)
unfolding from_minor
after_credit-IsWithin_example =
    after_credit-IsWithin digest (policy_of no_fee) 5_000 0 0 77 anns_account
      (from_minor (pos 300) bdt) TransferKind.p2p_send none
