-- ===== src/FinancialCore/Tests.antt =====
-- A small bank: the issuance account, which has granted 10.00 BDT to one of two users.
pub mod Windows
pub mod Run
use money_management_pstu_ha.Prelude.{ℕ, ◌≡◌, refl, true, false, Option, none, some, List, [], ◌∷◌}
use money_management_pstu_ha.Prelude.Int.{ℤ, pos, negsuc, ◌+ℤ◌, ◌-ℤ◌}
use money_management_pstu_ha.Prelude.Result.{ok, err, idempotency_key_reuse, request_in_progress}
use money_management_pstu_ha.Prelude.Exec.{atomically}
use money_management_pstu_ha.Prelude.Exec.Ensures.{Ensures}
use money_management_pstu_ha.Kernel.Money.{from_minor, bdt}
use money_management_pstu_ha.Database.{Db}
use money_management_pstu_ha.Database.Enums.{
  AccountType, AccountStatus, TransferKind, TransferStatus, IdempotencyStatus,
}
use money_management_pstu_ha.Database.Schema.{AccountRecord, LedgerEntryRecord, IdempotencyRecord}
use money_management_pstu_ha.Database.Json.{num, str, Fields, end, field, get, str_or}
use money_management_pstu_ha.Kernel.Money.{supported_currency}
use money_management_pstu_ha.Kernel.Ids.{ulid_digits}
use money_management_pstu_ha.Kernel.Ids.RoundTrip.{decode, decode-ulid_digits}
use money_management_pstu_ha.Prelude.{All, count, arith}
use money_management_pstu_ha.Prelude.Result.{state_conflict}
use money_management_pstu_ha.Database.Enums.{TaskType}
use money_management_pstu_ha.Database.Schema.{TransferRecord, ScheduledTaskRecord}
use money_management_pstu_ha.Scheduling.{cancel, claim_due, is_task_of}
use money_management_pstu_ha.Scheduling.Lifecycle.{IsClaim, claim_due-IsClaim}
use money_management_pstu_ha.Reconciliation.{run}
use money_management_pstu_ha.Reconciliation.Balanced.{HasNoDrift, run-HasNoDrift}
use money_management_pstu_ha.FinancialCore.Holding.{SettlementOrder, settle_hold}
use money_management_pstu_ha.FinancialCore.Undo.{settle}
use money_management_pstu_ha.FinancialCore.Undo.Latched.{atomically-settle_hold}
use money_management_pstu_ha.FinancialCore.Books.Windows.{Leads-IsSound, goes_on, stays, transfers}
use money_management_pstu_ha.FinancialCore.Repositories.Transfers.{find_transfer}
use money_management_pstu_ha.Prelude.{find, String}
use money_management_pstu_ha.FinancialCore.Repositories.Keys.{find_key}
use money_management_pstu_ha.FinancialCore.Transfer.{TransferResult}
use money_management_pstu_ha.FinancialCore.Transfer.Replay.{
  execute-payload_mismatch, execute-replays, replay_result-to_response,
}
use money_management_pstu_ha.FinancialCore.Policies.{FeeStrategy, no_fee, flat_fee}
use money_management_pstu_ha.FinancialCore.Transfer.{
  Policy, TransferCommand, no_interceptor, perform, execute, replay_result, to_response,
}
use money_management_pstu_ha.FinancialCore.Transfer.Allowed.{IsTransferFrom, perform-IsTransferFrom}
use money_management_pstu_ha.FinancialCore.Books.{IsSound, IsSoundUpTo, nothing_pending}
use money_management_pstu_ha.FinancialCore.Books.Conservation.{less_fee}
use money_management_pstu_ha.FinancialCore.Books.Execution.{
  no_interceptor-laws, fee_of, atomically-execute-IsSound, perform-IsSoundUpTo,
}

abbrev pub account_row : ℕ → Option ℕ → AccountType → ℤ → AccountRecord
account_row id owner kind balance = record {
  id = id;
  user_id = owner;
  account_type = kind;
  account_number = "";
  currency = "BDT";
  balance_minor = balance;
  status = AccountStatus.active;
  version = 0;
  created_at = 0;
  updated_at = 0;
}

abbrev pub entry_row : ℕ → ℕ → ℤ → LedgerEntryRecord
entry_row id account_id amount = record {
  id = id;
  ledger_transaction_id = 100;
  account_id = account_id;
  amount_minor = amount;
  currency = "BDT";
  balance_after_minor = amount;
  created_at = 0;
}

abbrev with_keys : List IdempotencyRecord → Db
with_keys keys = record {
  accounts =
      account_row 0 none AccountType.system_issuance (negsuc 999)
      ∷ account_row 5 (some 50) AccountType.user (pos 1000)
      ∷ account_row 6 (some 60) AccountType.user (pos 0)
      ∷ [];
  transfers = [];
  ledger_transactions = [];
  ledger_entries = entry_row 1 0 (negsuc 999) ∷ entry_row 2 5 (pos 1000) ∷ [];
  idempotency_records = keys;
  outbox_events = [];
  audit_log = [];
  money_requests = [];
  users = [];
  scheduled_tasks = [];
  safepay_escrows = [];
  overdraft_pools = [];
  overdraft_grants = [];
  overdraft_loans = [];
  overdraft_repayments = [];
  sessions = [];
  clock = 1_790_000_000_000;
  db_clock = 1_790_000_000_000;
  entropy = λ n. n;
  draws = 0;
  locks = [];
}

abbrev pub bank : Db
bank = with_keys []

abbrev pub send_300 : TransferCommand
send_300 = record {
  actor_user_id = 50;
  sender_account_id = 5;
  receiver_account_id = 6;
  amount = from_minor (pos 300) bdt;
  idempotency_key = "key-1";
  request_fingerprint = "print-1";
  kind = TransferKind.p2p_send;
  note = none;
  request_id = none;
  money_request_id = none;
  enforce_limits = true;
  initial_status = TransferStatus.succeeded;
  parent_transfer_id = none;
  intended_receiver_account_id = none;
  idempotency_endpoint = "POST:/api/v1/transfers";
}

abbrev pub policy_of : FeeStrategy → Policy
policy_of fees = record {
  fees = fees;
  limits = record { max_single_transfer_minor = pos 5_000_000; daily_total_minor = pos 20_000_000 };
}

pub bank-IsSound : IsSound bank
unfolding ◌+ℤ◌
bank-IsSound = record {
  derived = (refl, (refl, (refl, tt)));
  floored = (refl, (refl, (refl, tt)));
  total = refl;
  zero_sum = refl;
}

atomically-execute-IsSound_example :
    IsSound (atomically (execute (policy_of no_fee) no_interceptor send_300) bank).1
atomically-execute-IsSound_example =
    atomically-execute-IsSound (policy_of no_fee) refl no_interceptor no_interceptor-laws send_300
      bank bank-IsSound

perform-IsSoundUpTo_example :
    Ensures IsSound (perform (policy_of (flat_fee (pos 25))) no_interceptor send_300 7) (λ _.
      IsSoundUpTo
        (less_fee 5 (fee_of (policy_of (flat_fee (pos 25))) send_300) nothing_pending)
        (pos 0 -ℤ fee_of (policy_of (flat_fee (pos 25))) send_300))
perform-IsSoundUpTo_example =
    perform-IsSoundUpTo (policy_of (flat_fee (pos 25))) no_interceptor no_interceptor-laws send_300
      7 nothing_pending (pos 0)

abbrev seen_key : IdempotencyStatus → String → Option Fields → IdempotencyRecord
seen_key status fingerprint body = record {
  actor_id = 50;
  endpoint = "POST:/api/v1/transfers";
  idempotency_key = "key-1";
  request_fingerprint = fingerprint;
  status = status;
  resource_id = some 77;
  http_status = some 201;
  response_body = body;
  created_at = 0;
  completed_at = some 1;
}

abbrev stored_fields : Fields
stored_fields = field "transferId" (num (pos 77)) (field "currency" (str "BDT") end)

execute-payload_mismatch_example :
    execute
      (policy_of no_fee)
      no_interceptor
      send_300
      (with_keys (seen_key IdempotencyStatus.completed "print-0" none ∷ []))
    ≡ (
      err idempotency_key_reuse,
      with_keys (seen_key IdempotencyStatus.completed "print-0" none ∷ []),
    )
unfolding find_key find
execute-payload_mismatch_example =
    execute-payload_mismatch (policy_of no_fee) no_interceptor send_300
      (with_keys (seen_key IdempotencyStatus.completed "print-0" none ∷ []))
      (seen_key IdempotencyStatus.completed "print-0" none) refl refl

execute-replays_example :
    execute
      (policy_of no_fee)
      no_interceptor
      send_300
      (with_keys (seen_key IdempotencyStatus.completed "print-1" (some stored_fields) ∷ []))
    ≡ (
      ok (replay_result stored_fields (some 77) 1_790_000_000_000 bdt),
      with_keys (seen_key IdempotencyStatus.completed "print-1" (some stored_fields) ∷ []),
    )
unfolding find_key find get str_or supported_currency
execute-replays_example =
    execute-replays (policy_of no_fee) no_interceptor send_300
      (with_keys (seen_key IdempotencyStatus.completed "print-1" (some stored_fields) ∷ []))
      (seen_key IdempotencyStatus.completed "print-1" (some stored_fields)) refl refl refl bdt refl

abbrev sent_300 : TransferResult
sent_300 = record {
  transfer_id = 77;
  reference = record { prefix = "TRX"; day = 20_717; suffix = 5 };
  status = TransferStatus.pending_undo;
  amount = record { minor = pos 300; currency = bdt };
  fee = record { minor = pos 0; currency = bdt };
  sender_balance_after = record { minor = pos 700; currency = bdt };
  receiver_balance_after = record { minor = pos 300; currency = bdt };
  completed_at = 1_790_000_000_000;
  replayed = false;
}

replay_result-to_response_example :
    replay_result (to_response sent_300) (some 77) 5 bdt
    ≡ record sent_300 { receiver_balance_after = from_minor (pos 0) bdt; replayed = true }
replay_result-to_response_example = replay_result-to_response sent_300 (some 77) 5 refl refl refl
