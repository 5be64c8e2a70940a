-- ===== src/FinancialCore/Holding.antt =====
-- backend/modules/financial_core/application/holding.py: money that leaves its payer before it reaches its
-- payee. A `str` identifier is a number, and `ulid_text` its text where it goes into a key.
use money_management_pstu_ha.Prelude.{
  ℕ, Bool, false, not, String, Option, none, some, [], ◌∷◌, ◌==◌, text_of,
}
use money_management_pstu_ha.Prelude.Int.{pos}
use money_management_pstu_ha.Prelude.Result.{state_conflict}
use money_management_pstu_ha.Prelude.Exec.{raise_if, ◌>>=◌, ◌>>◌}
use money_management_pstu_ha.Kernel.Money.{Money}
use money_management_pstu_ha.Kernel.Ids.{ulid_text}
use money_management_pstu_ha.Database.{Action}
use money_management_pstu_ha.Database.Enums.{TransferKind, TransferStatus}
use money_management_pstu_ha.Database.Json.{num, str, Fields, end, field}
use money_management_pstu_ha.Database.Words.{kind_text, transfer_status_text}
use money_management_pstu_ha.FinancialCore.Idempotency.{fingerprint_request}
use money_management_pstu_ha.FinancialCore.Repositories.Transfers.{try_transition_status}
use money_management_pstu_ha.FinancialCore.Transfer.{
  Policy, Interceptor, TransferCommand, TransferResult, execute,
}

-- The arguments of `HoldingService.hold`.
pub record HoldOrder : Type 0 where
  pub actor_user_id : ℕ
  pub payer_account_id : ℕ
  pub holding_account_id : ℕ
  pub amount : Money
  pub kind : TransferKind
  pub pending_status : TransferStatus
  pub idempotency_key : String
  pub note : Option String
  pub request_id : Option String
  pub enforce_limits : Bool
  pub intended_receiver_account_id : Option ℕ
  pub idempotency_endpoint : String

-- The arguments of `HoldingService.settle`, but for the reference, which only a message shows.
pub record SettlementOrder : Type 0 where
  pub hold_transfer_id : ℕ
  pub from_status : TransferStatus
  pub to_status : TransferStatus
  pub beneficiary_account_id : ℕ
  pub holding_account_id : ℕ
  pub amount : Money
  pub kind : TransferKind
  pub actor_user_id : ℕ
  pub note : Option String
  pub request_id : Option String

-- `kind.lower()`
unfoldable pub kind_lower : TransferKind → String
kind_lower TransferKind.p2p_send = "p2p_send"
kind_lower TransferKind.request_settlement = "request_settlement"
kind_lower TransferKind.signup_grant = "signup_grant"
kind_lower TransferKind.reversal = "reversal"
kind_lower TransferKind.undo_hold = "undo_hold"
kind_lower TransferKind.undo_settle = "undo_settle"
kind_lower TransferKind.undo_refund = "undo_refund"
kind_lower TransferKind.escrow_hold = "escrow_hold"
kind_lower TransferKind.escrow_release = "escrow_release"
kind_lower TransferKind.escrow_refund = "escrow_refund"
kind_lower TransferKind.group_deposit = "group_deposit"
kind_lower TransferKind.group_withdrawal = "group_withdrawal"
kind_lower TransferKind.link_payment = "link_payment"
kind_lower TransferKind.overdraft_draw = "overdraft_draw"
kind_lower TransferKind.overdraft_repay = "overdraft_repay"
kind_lower TransferKind.overdraft_fund = "overdraft_fund"

module _ (digest : Fields → String) where
  unfoldable pub hold_command : HoldOrder → TransferCommand
  hold_command o = record {
    actor_user_id = o.actor_user_id;
    sender_account_id = o.payer_account_id;
    receiver_account_id = o.holding_account_id;
    amount = o.amount;
    idempotency_key = o.idempotency_key;
    request_fingerprint = fingerprint_request digest (
        field "payer" (num (pos o.payer_account_id)) (
          field "holding" (num (pos o.holding_account_id)) (
            field "amountMinor" (num o.amount.minor) (field "kind" (str (kind_text o.kind)) end))));
    kind = o.kind;
    note = o.note;
    request_id = o.request_id;
    money_request_id = none;
    enforce_limits = o.enforce_limits;
    initial_status = o.pending_status;
    parent_transfer_id = none;
    intended_receiver_account_id = o.intended_receiver_account_id;
    idempotency_endpoint = o.idempotency_endpoint;
  }

  unfoldable pub settlement_command : SettlementOrder → TransferCommand
  settlement_command o = record {
    actor_user_id = o.actor_user_id;
    sender_account_id = o.holding_account_id;
    receiver_account_id = o.beneficiary_account_id;
    amount = o.amount;
    idempotency_key =
        text_of
          ("settle:" ∷ ulid_text o.hold_transfer_id ∷ ":" ∷ transfer_status_text o.to_status ∷ []);
    request_fingerprint = fingerprint_request digest (
        field "hold" (num (pos o.hold_transfer_id))
          (field "outcome" (str (transfer_status_text o.to_status)) end));
    kind = o.kind;
    note = o.note;
    request_id = o.request_id;
    money_request_id = none;
    enforce_limits = false;
    initial_status = TransferStatus.succeeded;
    parent_transfer_id = some o.hold_transfer_id;
    intended_receiver_account_id = none;
    idempotency_endpoint = text_of ("INTERNAL:/holds/" ∷ kind_lower o.kind ∷ []);
  }

  module _ (policy : Policy) (interceptor : Interceptor) where
    -- `HoldingService.hold`
    unfoldable pub hold : HoldOrder → Action TransferResult
    hold o = execute policy interceptor (hold_command o)

    -- `HoldingService.settle`: the status is latched before any money moves.
    unfoldable pub settle_hold : SettlementOrder → Action TransferResult
    settle_hold o = do
      rows ← try_transition_status o.hold_transfer_id o.from_status o.to_status
      raise_if (not (rows == 1)) state_conflict
      execute policy interceptor (settlement_command o)
