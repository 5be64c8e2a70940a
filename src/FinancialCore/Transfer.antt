-- ===== src/FinancialCore/Transfer.antt =====
-- backend/modules/financial_core/application/transfer.py: the only code path that moves money. The fee
-- strategy and the limits of the constructor are a `Policy`, the optional overdraft hook an `Interceptor`.
pub mod Command
pub mod Allowed
pub mod Replay
pub mod Day
use money_management_pstu_ha.Prelude.{
  ℕ, ◌+◌, ◌-◌, ◌%◌, String, Bool, true, false, not, ◌&&◌, Option, none, some, List, [], ◌∷◌, ◌==◌,
  if◌then◌else◌, is_some,
}
use money_management_pstu_ha.Prelude.Int.{ℤ, pos, pos_part}
use money_management_pstu_ha.Prelude.Result.{
  Result, ok, err, not_found, self_transfer, idempotency_key_reuse, request_in_progress,
}
use money_management_pstu_ha.Prelude.Exec.{lift, pure, raise_if, require, option_case, ◌>>=◌, ◌>>◌}
use money_management_pstu_ha.Kernel.Money.{Money, Currency, supported_currency, from_minor, add}
use money_management_pstu_ha.Database.{Db, Action, clock_now, new_ulid, generate_reference}
use money_management_pstu_ha.Database.Enums.{TransferKind, TransferStatus}
use money_management_pstu_ha.Database.Schema.{Reference}
use money_management_pstu_ha.Database.Json.{
  Json, null, num, str, Fields, end, field, get, int_or, str_or,
}
use money_management_pstu_ha.Database.Words.{
  kind_text, transfer_status_text, transfer_status_of, id_json, reference_json, reference_of,
}
use money_management_pstu_ha.FinancialCore.Account.{
  Account, ensure_active, ensure_owned_by, ensure_same_currency_as, ensure_can_afford, debit,
  credit,
}
use money_management_pstu_ha.FinancialCore.Ledger.{transfer_posting}
use money_management_pstu_ha.FinancialCore.Policies.{
  FeeStrategy, fee_for, TransferLimits, ensure_within_limits,
}
use money_management_pstu_ha.FinancialCore.Idempotency.{
  IdempotencyDecision, proceed, replay, in_progress, payload_mismatch, stored_or_empty,
}
use money_management_pstu_ha.FinancialCore.Repositories.Accounts.{
  lock_for_update, get_locked, persist_balance,
}
use money_management_pstu_ha.FinancialCore.Repositories.Transfers.{
  insert_transfer, completion_time, sum_sent_since,
}
use money_management_pstu_ha.FinancialCore.Repositories.Postings.{post}
use money_management_pstu_ha.FinancialCore.Repositories.Keys.{NaturalKey, reserve, complete}
use money_management_pstu_ha.FinancialCore.Repositories.Outbox.{
  transfer_succeeded, append_event, record_audit,
}
pub use Command.{transfer_endpoint, TransferCommand, TransferResult, Policy, Interceptor}
unfoldable pub use Command.{system_initiated, no_interceptor, to_response, replay_result}

-- `_handle_idempotency_decision`
unfoldable pub handle_idempotency_decision :
    IdempotencyDecision → ℕ → Result (Option TransferResult)
handle_idempotency_decision decision now = elim decision.outcome [
  | proceed ↦ ok none
  | payload_mismatch ↦ err idempotency_key_reuse
  | in_progress ↦ err request_in_progress
  | replay ↦
      let body = stored_or_empty decision.stored_body in
      elim (supported_currency (str_or "BDT" (get "currency" body))) [
        | none ↦ err not_found
        | some currency ↦ ok (some (replay_result body decision.resource_id now currency))
      ]
]

-- `_authorize`
unfoldable pub authorize : Account → TransferCommand → Result (Unit {0})
authorize sender command =
    if system_initiated command.kind && not (is_some sender.user_id)
    then ok tt
    else ensure_owned_by sender command.actor_user_id

-- `_start_of_day`: UTC midnight, in milliseconds.
unfoldable pub start_of_day : ℕ → ℕ
start_of_day now = now - now % 86_400_000

unfoldable pub check_limits : Policy → Account → Money → ℕ → Action (Unit {0})
check_limits policy sender total_debit now = do
  already_today ← sum_sent_since sender.id (start_of_day now)
  lift (ensure_within_limits policy.limits total_debit already_today)

-- Step 3 of `execute`: everything is checked again on the locked rows. Returns the total debit.
unfoldable pub revalidate : Policy → Account → Account → TransferCommand → ℕ → Action Money
revalidate policy sender receiver command now = do
  lift (authorize sender command)
  lift (ensure_active sender)
  lift (ensure_active receiver)
  lift (ensure_same_currency_as sender receiver)
  total_debit ← lift (add command.amount (fee_for policy.fees command.amount))
  (if command.enforce_limits then check_limits policy sender total_debit now else pure tt)
  lift (ensure_can_afford sender total_debit)
  pure total_debit

-- Step 4 of `execute`: both balances.
unfoldable pub apply_movement : Account → Account → Money → Money → Action (Account × Account)
apply_movement sender receiver total_debit amount = do
  updated_sender ← lift (debit sender total_debit)
  updated_receiver ← lift (credit receiver amount)
  persist_balance updated_sender
  persist_balance updated_receiver
  pure (updated_sender, updated_receiver)

-- Steps 5 and 6 of `execute`: the transfer row and the balanced posting.
unfoldable pub record_movement : Account → Account → TransferCommand → ℕ → Action (ℕ × Reference)
record_movement updated_sender updated_receiver command now = do
  transfer_id ← new_ulid
  reference ← generate_reference "TRX" now
  insert_transfer (record {
    id = transfer_id;
    reference = reference;
    sender_account_id = updated_sender.id;
    receiver_account_id = updated_receiver.id;
    amount_minor = command.amount.minor;
    currency = command.amount.currency.code;
    kind = command.kind;
    status = command.initial_status;
    note = command.note;
    initiated_by_user_id = some command.actor_user_id;
    request_id = command.request_id;
    parent_transfer_id = command.parent_transfer_id;
    intended_receiver_account_id = command.intended_receiver_account_id;
    created_at = now;
    completed_at = completion_time command.initial_status now;
  })
  posting ← lift (transfer_posting updated_sender.id updated_receiver.id command.amount)
  post posting transfer_id command.kind command.note
      ((updated_sender.id, updated_sender.balance)
        ∷ (updated_receiver.id, updated_receiver.balance)
        ∷ [])
      now
  pure (transfer_id, reference)

-- Step 7 of `execute`: the event and the audit line.
unfoldable pub announce :
    ℕ → Reference → Account → Account → TransferCommand → Money → ℕ → Action (Unit {0})
announce transfer_id reference sender receiver command fee now = do
  append_event
      (record {
        kind = transfer_succeeded;
        aggregate_id = transfer_id;
        occurred_at = now;
        payload = field "transferId" (num (pos transfer_id)) (
            field "reference" (reference_json reference) (
              field "senderAccountId" (num (pos sender.id)) (
                field "receiverAccountId" (num (pos receiver.id)) (
                  field "senderUserId" (id_json sender.user_id) (
                    field "receiverUserId" (id_json receiver.user_id) (
                      field "amountMinor" (num command.amount.minor) (
                        field "feeMinor" (num fee.minor) (
                          field "currency" (str command.amount.currency.code)
                            (field "kind" (str (kind_text command.kind)) end)))))))));
      })
      command.request_id
  record_audit (some command.actor_user_id) "TRANSFER_SUCCEEDED" "transfer" (some transfer_id)
      command.request_id
      (some (
        field "reference" (reference_json reference) (
          field "amountMinor" (num command.amount.minor)
            (field "kind" (str (kind_text command.kind)) end))))
      now

abbrev pub key_of : TransferCommand → NaturalKey
key_of command = record {
  actor_id = command.actor_user_id;
  endpoint = command.idempotency_endpoint;
  key = command.idempotency_key;
}

-- Steps 4 to 7 on the two locked accounts.
unfoldable pub move_money :
    Policy → Account → Account → TransferCommand → Money → ℕ → Action (TransferResult × Account)
move_money policy sender receiver command total_debit now = do
  (updated_sender, updated_receiver) ← apply_movement sender receiver total_debit command.amount
  (transfer_id, reference) ← record_movement updated_sender updated_receiver command now
  let fee = fee_for policy.fees command.amount
  announce transfer_id reference sender receiver command fee now
  pure (
    record {
      transfer_id = transfer_id;
      reference = reference;
      status = command.initial_status;
      amount = command.amount;
      fee = fee;
      sender_balance_after = updated_sender.balance;
      receiver_balance_after = updated_receiver.balance;
      completed_at = now;
      replayed = false;
    },
    updated_receiver,
  )

-- `execute` for a key that is new, from step 2 on.
unfoldable pub perform : Policy → Interceptor → TransferCommand → ℕ → Action TransferResult
perform policy interceptor command now = do
  raise_if (command.sender_account_id == command.receiver_account_id) self_transfer
  extra_lock_ids ← interceptor.additional_lock_ids command.receiver_account_id command.kind
  locked ←
      lock_for_update (command.sender_account_id ∷ command.receiver_account_id ∷ extra_lock_ids)
  sender ← require (get_locked command.sender_account_id locked) not_found
  receiver ← require (get_locked command.receiver_account_id locked) not_found
  total_debit ← revalidate policy sender receiver command now
  (result, updated_receiver) ← move_money policy sender receiver command total_debit now
  interceptor.after_credit result.transfer_id updated_receiver command.amount command.kind
      command.request_id
  complete (key_of command) result.transfer_id 201 (to_response result) now
  pure result

-- `TransferUseCase.execute`
unfoldable pub execute : Policy → Interceptor → TransferCommand → Action TransferResult
execute policy interceptor command = do
  now ← clock_now
  decision ← reserve (key_of command) command.request_fingerprint now
  replayed ← lift (handle_idempotency_decision decision now)
  option_case replayed (perform policy interceptor command now) (λ r. pure r)
