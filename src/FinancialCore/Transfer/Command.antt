-- ===== src/FinancialCore/Transfer/Command.antt =====
-- The command, the result and the strategies of backend/modules/financial_core/application/transfer.py, and a
-- result as it is stored and read back.
use money_management_pstu_ha.Prelude.{ℕ, String, Bool, true, false, Option, none, some, List, []}
use money_management_pstu_ha.Prelude.Int.{ℤ, pos, pos_part}
use money_management_pstu_ha.Prelude.Exec.{pure}
use money_management_pstu_ha.Kernel.Money.{Money, Currency, from_minor}
use money_management_pstu_ha.Database.{Action}
use money_management_pstu_ha.Database.Enums.{TransferKind, TransferStatus}
use money_management_pstu_ha.Database.Schema.{Reference}
use money_management_pstu_ha.Database.Json.{num, str, Fields, end, field, get, int_or}
use money_management_pstu_ha.Database.Words.{
  transfer_status_text, transfer_status_of, reference_json, reference_of,
}
use money_management_pstu_ha.FinancialCore.Account.{Account}
use money_management_pstu_ha.FinancialCore.Policies.{FeeStrategy, TransferLimits}

abbrev pub transfer_endpoint : String
transfer_endpoint = "POST:/api/v1/transfers"

-- `SYSTEM_INITIATED_KINDS`
unfoldable pub system_initiated : TransferKind → Bool
system_initiated TransferKind.signup_grant = true
system_initiated TransferKind.undo_settle = true
system_initiated TransferKind.undo_refund = true
system_initiated TransferKind.escrow_release = true
system_initiated TransferKind.escrow_refund = true
system_initiated TransferKind.group_withdrawal = true
system_initiated TransferKind.p2p_send = false
system_initiated TransferKind.request_settlement = false
system_initiated TransferKind.reversal = false
system_initiated TransferKind.undo_hold = false
system_initiated TransferKind.escrow_hold = false
system_initiated TransferKind.group_deposit = false
system_initiated TransferKind.link_payment = false
system_initiated TransferKind.overdraft_draw = false
system_initiated TransferKind.overdraft_repay = false
system_initiated TransferKind.overdraft_fund = false

pub record TransferCommand : Type 0 where
  pub actor_user_id : ℕ
  pub sender_account_id : ℕ
  pub receiver_account_id : ℕ
  pub amount : Money
  pub idempotency_key : String
  pub request_fingerprint : String
  pub kind : TransferKind
  pub note : Option String
  pub request_id : Option String
  pub money_request_id : Option ℕ
  pub enforce_limits : Bool
  pub initial_status : TransferStatus
  pub parent_transfer_id : Option ℕ
  pub intended_receiver_account_id : Option ℕ
  pub idempotency_endpoint : String

pub record TransferResult : Type 0 where
  pub transfer_id : ℕ
  pub reference : Reference
  pub status : TransferStatus
  pub amount : Money
  pub fee : Money
  pub sender_balance_after : Money
  pub receiver_balance_after : Money
  pub completed_at : ℕ
  pub replayed : Bool

pub record Policy : Type 0 where
  pub fees : FeeStrategy
  pub limits : TransferLimits

pub record Interceptor : Type 0 where
  pub additional_lock_ids : ℕ → TransferKind → Action (List ℕ)
  pub after_credit : ℕ → Account → Money → TransferKind → Option String → Action (Unit {0})

-- The interceptor that is not there.
unfoldable pub no_interceptor : Interceptor
no_interceptor = record {
  additional_lock_ids = λ receiver kind. pure [];
  after_credit = λ incoming receiver amount kind request_id. pure tt;
}

-- `TransferResult.to_response`
unfoldable pub to_response : TransferResult → Fields
to_response r = field "transferId" (num (pos r.transfer_id)) (
    field "reference" (reference_json r.reference) (
      field "status" (str (transfer_status_text r.status)) (
        field "amountMinor" (num r.amount.minor) (
          field "feeMinor" (num r.fee.minor) (
            field "currency" (str r.amount.currency.code) (
              field "senderBalanceMinor" (num r.sender_balance_after.minor)
                (field "completedAt" (num (pos r.completed_at)) end)))))))

abbrev or_zero : Option ℕ → ℤ
or_zero none = pos 0
or_zero (some id) = pos id

-- The result that a stored response stands for. The receiver's balance is not stored.
unfoldable pub replay_result : Fields → Option ℕ → ℕ → Currency → TransferResult
replay_result body resource_id now currency = record {
  transfer_id = pos_part (int_or (or_zero resource_id) (get "transferId" body));
  reference = reference_of (get "reference" body);
  status = transfer_status_of (get "status" body);
  amount = from_minor (int_or (pos 0) (get "amountMinor" body)) currency;
  fee = from_minor (int_or (pos 0) (get "feeMinor" body)) currency;
  sender_balance_after = from_minor (int_or (pos 0) (get "senderBalanceMinor" body)) currency;
  receiver_balance_after = from_minor (pos 0) currency;
  completed_at = pos_part (int_or (pos now) (get "completedAt" body));
  replayed = true;
}
