-- ===== src/SafePay/Settlement.antt =====
-- `_release_locked` and `_refund_locked` of backend/modules/safepay/application/service.py: the end of an escrow,
-- which moves its money out of the holding account.
use money_management_pstu_ha.Prelude.{ℕ, not, String, Option, some, ◌==◌}
use money_management_pstu_ha.Prelude.Int.{pos}
use money_management_pstu_ha.Prelude.Result.{state_conflict}
use money_management_pstu_ha.Prelude.Exec.{pure, raise_if, require, ◌>>=◌, ◌>>◌}
use money_management_pstu_ha.Kernel.Money.{from_minor, bdt}
use money_management_pstu_ha.Database.{Action, clock_now}
use money_management_pstu_ha.Database.Enums.{TransferKind, TransferStatus, TaskType}
use money_management_pstu_ha.Database.Schema.{TransferRecord, SafePayEscrowRecord}
use money_management_pstu_ha.Database.Json.{num, str, Fields, end, field}
use money_management_pstu_ha.Database.Words.{reference_json, escrow_status_text}
use money_management_pstu_ha.FinancialCore.Account.{escrow_account_id}
use money_management_pstu_ha.FinancialCore.Repositories.Outbox.{record_audit}
use money_management_pstu_ha.FinancialCore.Repositories.Transfers.{get}
use money_management_pstu_ha.FinancialCore.Transfer.{Policy, Interceptor, TransferResult}
use money_management_pstu_ha.FinancialCore.Holding.{SettlementOrder, settle_hold}
use money_management_pstu_ha.SafePay.Escrows.{
  Outcome, release, refund, outcome_status, mark_settled,
}
use money_management_pstu_ha.Scheduling.{cancel}

-- `_audit_event`
unfoldable pub audit_event : Option ℕ → String → ℕ → Option String → Fields → Action (Unit {0})
audit_event actor action escrow_id request_id metadata = do
  now ← clock_now
  record_audit actor action "safepay_escrow" (some escrow_id) request_id (some metadata) now

unfoldable pub settled_body : Outcome → SafePayEscrowRecord → TransferResult → Fields
settled_body outcome escrow settlement = field "escrowId" (num (pos escrow.id)) (
    field "reference" (reference_json escrow.reference) (
      field "status" (str (escrow_status_text (outcome_status outcome))) (
        field "settlementTransferId" (num (pos settlement.transfer_id))
          (field "settlementReference" (reference_json settlement.reference) end))))

module _ (digest : Fields → String) (policy : Policy) (interceptor : Interceptor) where
  unfoldable pub release_order :
      SafePayEscrowRecord → TransferRecord → ℕ → ℕ → String → Option String → SettlementOrder
  release_order escrow held receiver actor reason request_id = record {
    hold_transfer_id = held.id;
    from_status = TransferStatus.held;
    to_status = TransferStatus.succeeded;
    beneficiary_account_id = receiver;
    holding_account_id = escrow_account_id;
    amount = from_minor escrow.amount_minor bdt;
    kind = TransferKind.escrow_release;
    actor_user_id = actor;
    note = some reason;
    request_id = request_id;
  }

  -- The settlement of `_release_locked` and what follows it.
  unfoldable pub pay_seller :
      SafePayEscrowRecord
      → SettlementOrder
      → ℕ
      → String
      → Option String
      → Option String
      → Action Fields
  pay_seller escrow order actor reason request_id resolution_note = do
    settlement ← settle_hold digest policy interceptor order
    now ← clock_now
    rows ← mark_settled escrow.id release settlement.transfer_id now resolution_note
    raise_if (not (rows == 1)) state_conflict
    cancel TaskType.escrow_auto_release escrow.id >>= λ _. pure tt
    audit_event (some actor) "SAFEPAY_RELEASED" escrow.id request_id (
        field "settlementTransferId" (num (pos settlement.transfer_id))
          (field "reason" (str reason) end))
    pure (settled_body release escrow settlement)

  -- `_release_locked`
  unfoldable pub release_locked :
      SafePayEscrowRecord → ℕ → String → Option String → Option String → Action Fields
  release_locked escrow actor reason request_id resolution_note = do
    row ← get escrow.hold_transfer_id
    held ← require row state_conflict
    receiver ← require held.intended_receiver_account_id state_conflict
    pay_seller escrow (release_order escrow held receiver actor reason request_id) actor reason
        request_id resolution_note

  unfoldable pub refund_order :
      SafePayEscrowRecord → TransferRecord → String → Option String → SettlementOrder
  refund_order escrow held reason request_id = record {
    hold_transfer_id = held.id;
    from_status = TransferStatus.held;
    to_status = TransferStatus.refunded;
    beneficiary_account_id = held.sender_account_id;
    holding_account_id = escrow_account_id;
    amount = from_minor escrow.amount_minor bdt;
    kind = TransferKind.escrow_refund;
    actor_user_id = escrow.buyer_user_id;
    note = some reason;
    request_id = request_id;
  }

  -- `_refund_locked`
  unfoldable pub refund_locked :
      SafePayEscrowRecord → String → Option String → String → Action Fields
  refund_locked escrow reason request_id resolution_note = do
    row ← get escrow.hold_transfer_id
    held ← require row state_conflict
    settlement ← settle_hold digest policy interceptor (refund_order escrow held reason request_id)
    now ← clock_now
    rows ← mark_settled escrow.id refund settlement.transfer_id now (some resolution_note)
    raise_if (not (rows == 1)) state_conflict
    pure (settled_body refund escrow settlement)
