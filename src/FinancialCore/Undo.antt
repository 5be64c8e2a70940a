-- ===== src/FinancialCore/Undo.antt =====
-- backend/modules/financial_core/application/undo.py: a transfer that its sender can take back for a few
-- seconds.
pub mod Latched
use money_management_pstu_ha.Prelude.{
  ℕ, Bool, true, false, not, ◌&&◌, String, Option, none, some, List, [], ◌∷◌, ◌==◌, text_of,
  same_id, if◌then◌else◌,
}
use money_management_pstu_ha.Prelude.Int.{ℤ, pos}
use money_management_pstu_ha.Prelude.Result.{state_conflict, not_found}
use money_management_pstu_ha.Prelude.Exec.{
  lift, pure, raise, raise_if, require, option_case, ◌>>=◌, ◌>>◌,
}
use money_management_pstu_ha.Kernel.Money.{Money, from_minor, bdt}
use money_management_pstu_ha.Kernel.Ids.{ulid_text}
use money_management_pstu_ha.Database.{Action, clock_now}
use money_management_pstu_ha.Database.Enums.{
  TransferKind, TransferStatus, TaskType, same_kind, same_transfer_status,
}
use money_management_pstu_ha.Database.Schema.{TransferRecord}
use money_management_pstu_ha.Database.Json.{num, str, flag, Fields, end, field, put}
use money_management_pstu_ha.Database.Words.{transfer_status_text, reference_json}
use money_management_pstu_ha.FinancialCore.Account.{Account, pending_settlement_account_id}
use money_management_pstu_ha.FinancialCore.Idempotency.{fingerprint_request, replay_body_or_raise}
use money_management_pstu_ha.FinancialCore.Repositories.Accounts.{get_by_id}
use money_management_pstu_ha.FinancialCore.Repositories.Transfers.{get}
use money_management_pstu_ha.FinancialCore.Repositories.Keys.{NaturalKey, reserve, complete}
use money_management_pstu_ha.FinancialCore.Transfer.{Policy, Interceptor, TransferResult}
use money_management_pstu_ha.FinancialCore.Holding.{hold, settle_hold}
use money_management_pstu_ha.Scheduling.{schedule, cancel}

-- The arguments of `send`.
pub record SendOrder : Type 0 where
  pub actor_user_id : ℕ
  pub sender_account_id : ℕ
  pub receiver_account_id : ℕ
  pub amount : Money
  pub idempotency_key : String
  pub note : Option String
  pub request_id : Option String
  pub idempotency_endpoint : String

-- `_require_hold`
unfoldable pub require_hold : ℕ → Action TransferRecord
require_hold transfer_id = do
  row ← get transfer_id
  found ← require row not_found
  raise_if (not (same_kind found.kind TransferKind.undo_hold)) not_found
  raise_if (not (same_transfer_status found.status TransferStatus.pending_undo)) state_conflict
  pure found

abbrev pub is_owner : ℕ → Option Account → Bool
is_owner actor none = false
is_owner actor (some a) = same_id a.user_id (some actor)

-- `hold.initiated_by_user_id or ""`; 0 stands for the empty text, which is no identifier.
abbrev pub initiator : Option ℕ → ℕ
initiator none = 0
initiator (some id) = id

-- The response that `undo` stores and returns.
unfoldable pub undo_response : TransferRecord → TransferResult → Fields
undo_response held settlement = field "transferId" (num (pos held.id)) (
    field "reference" (reference_json held.reference) (
      field "status" (str (transfer_status_text TransferStatus.refunded)) (
        field "refundTransferId" (num (pos settlement.transfer_id)) (
          field "refundReference" (reference_json settlement.reference) (
            field "amountMinor" (num settlement.amount.minor) (
              field "currency" (str settlement.amount.currency.code) (
                field "senderBalanceMinor" (num settlement.receiver_balance_after.minor)
                  (field "replayed" (flag false) end))))))))

abbrev pub undo_key : ℕ → ℕ → String → NaturalKey
undo_key actor transfer_id key = record {
  actor_id = actor;
  endpoint = text_of ("POST:/api/v1/transfers/" ∷ ulid_text transfer_id ∷ "/undo" ∷ []);
  key = key;
}

module _ (digest : Fields → String) (policy : Policy) (interceptor : Interceptor)
    (window_seconds : ℕ) where
  -- `UndoableTransferService.send`
  unfoldable pub send : SendOrder → Action TransferResult
  send o = do
    held ← hold digest policy interceptor (record {
      actor_user_id = o.actor_user_id;
      payer_account_id = o.sender_account_id;
      holding_account_id = pending_settlement_account_id;
      amount = o.amount;
      kind = TransferKind.undo_hold;
      pending_status = TransferStatus.pending_undo;
      idempotency_key = o.idempotency_key;
      note = o.note;
      request_id = o.request_id;
      enforce_limits = true;
      intended_receiver_account_id = some o.receiver_account_id;
      idempotency_endpoint = o.idempotency_endpoint;
    })
    (if held.replayed
        then pure tt
        else (schedule TaskType.undo_settle held.transfer_id window_seconds >>= λ _. pure tt))
    pure held

  -- `undo` for a key that is new.
  unfoldable pub take_back : ℕ → ℕ → String → Option String → ℕ → Action Fields
  take_back transfer_id actor idempotency_key request_id now = do
    held ← require_hold transfer_id
    sender ← get_by_id held.sender_account_id
    raise_if (not (is_owner actor sender)) not_found
    settlement ← settle_hold digest policy interceptor (record {
      hold_transfer_id = held.id;
      from_status = TransferStatus.pending_undo;
      to_status = TransferStatus.refunded;
      beneficiary_account_id = held.sender_account_id;
      holding_account_id = pending_settlement_account_id;
      amount = from_minor held.amount_minor bdt;
      kind = TransferKind.undo_refund;
      actor_user_id = actor;
      note = some "Undone by sender";
      request_id = request_id;
    })
    cancel TaskType.undo_settle held.id >>= λ _. pure tt
    let response = undo_response held settlement
    complete (undo_key actor transfer_id idempotency_key) held.id 200 response now
    pure response

  -- `UndoableTransferService.undo`
  unfoldable pub undo : ℕ → ℕ → String → Option String → Action Fields
  undo transfer_id actor idempotency_key request_id = do
    now ← clock_now
    decision ←
        reserve (undo_key actor transfer_id idempotency_key)
          (fingerprint_request digest (field "transferId" (num (pos transfer_id)) end)) now
    replayed ← lift (replay_body_or_raise decision)
    option_case replayed (take_back transfer_id actor idempotency_key request_id now)
        (λ body. pure (put "replayed" (flag true) body))

  -- The rest of `settle`, on the hold that it found.
  unfoldable pub finalise : TransferRecord → ℕ → Action TransferResult
  finalise held receiver = settle_hold digest policy interceptor (record {
    hold_transfer_id = held.id;
    from_status = TransferStatus.pending_undo;
    to_status = TransferStatus.succeeded;
    beneficiary_account_id = receiver;
    holding_account_id = pending_settlement_account_id;
    amount = from_minor held.amount_minor bdt;
    kind = TransferKind.undo_settle;
    actor_user_id = initiator held.initiated_by_user_id;
    note = held.note;
    request_id = none;
  })

  -- `UndoableTransferService.settle`
  unfoldable pub settle : ℕ → Action (Option TransferResult)
  settle transfer_id = do
    row ← get transfer_id
    option_case row (pure none) (λ held.
        if not (same_transfer_status held.status TransferStatus.pending_undo)
        then pure none
        else option_case held.intended_receiver_account_id (raise state_conflict)
            (λ receiver. finalise held receiver >>= λ settlement. pure (some settlement)))
