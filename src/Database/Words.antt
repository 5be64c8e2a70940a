-- ===== src/Database/Words.antt =====
-- The words of the status and kind columns as they stand in JSON.
use money_management_pstu_ha.Prelude.{ℕ, String, Option, none, some, if◌then◌else◌, str_eq}
use money_management_pstu_ha.Prelude.Int.{pos, pos_part}
use money_management_pstu_ha.Database.Enums.{TransferKind, TransferStatus, EscrowStatus}
use money_management_pstu_ha.Database.Json.{
  Json, null, num, str, obj, end, field, get, int_or, str_or,
}
use money_management_pstu_ha.Database.Schema.{Reference}

unfoldable pub kind_text : TransferKind → String
kind_text TransferKind.p2p_send = "P2P_SEND"
kind_text TransferKind.request_settlement = "REQUEST_SETTLEMENT"
kind_text TransferKind.signup_grant = "SIGNUP_GRANT"
kind_text TransferKind.reversal = "REVERSAL"
kind_text TransferKind.undo_hold = "UNDO_HOLD"
kind_text TransferKind.undo_settle = "UNDO_SETTLE"
kind_text TransferKind.undo_refund = "UNDO_REFUND"
kind_text TransferKind.escrow_hold = "ESCROW_HOLD"
kind_text TransferKind.escrow_release = "ESCROW_RELEASE"
kind_text TransferKind.escrow_refund = "ESCROW_REFUND"
kind_text TransferKind.group_deposit = "GROUP_DEPOSIT"
kind_text TransferKind.group_withdrawal = "GROUP_WITHDRAWAL"
kind_text TransferKind.link_payment = "LINK_PAYMENT"
kind_text TransferKind.overdraft_draw = "OVERDRAFT_DRAW"
kind_text TransferKind.overdraft_repay = "OVERDRAFT_REPAY"
kind_text TransferKind.overdraft_fund = "OVERDRAFT_FUND"

unfoldable pub transfer_status_text : TransferStatus → String
transfer_status_text TransferStatus.succeeded = "SUCCEEDED"
transfer_status_text TransferStatus.failed = "FAILED"
transfer_status_text TransferStatus.reversed = "REVERSED"
transfer_status_text TransferStatus.pending_undo = "PENDING_UNDO"
transfer_status_text TransferStatus.held = "HELD"
transfer_status_text TransferStatus.disputed = "DISPUTED"
transfer_status_text TransferStatus.refunded = "REFUNDED"

-- A stored status; every other word reads as "SUCCEEDED", which only an absent field meets.
unfoldable pub transfer_status_of : Option Json → TransferStatus
transfer_status_of j =
    let word = str_or "SUCCEEDED" j in
    if str_eq word "PENDING_UNDO"
    then TransferStatus.pending_undo
    else (if str_eq word "HELD"
        then TransferStatus.held
        else (if str_eq word "REFUNDED"
            then TransferStatus.refunded
            else (if str_eq word "FAILED"
                then TransferStatus.failed
                else (if str_eq word "REVERSED"
                    then TransferStatus.reversed
                    else (if str_eq word "DISPUTED"
                        then TransferStatus.disputed
                        else TransferStatus.succeeded)))))

unfoldable pub id_json : Option ℕ → Json
id_json none = null
id_json (some id) = num (pos id)

unfoldable pub text_json : Option String → Json
text_json none = null
text_json (some s) = str s

-- A reference is rendered by its three parts.
unfoldable pub reference_json : Reference → Json
reference_json r = obj (
    field "prefix" (str r.prefix)
      (field "day" (num (pos r.day)) (field "suffix" (num (pos r.suffix)) end)))

abbrev no_reference : Reference
no_reference = record { prefix = ""; day = 0; suffix = 0 }

unfoldable pub reference_of : Option Json → Reference
reference_of none = no_reference
reference_of (some (obj fs)) = record {
  prefix = str_or "" (get "prefix" fs);
  day = pos_part (int_or (pos 0) (get "day" fs));
  suffix = pos_part (int_or (pos 0) (get "suffix" fs));
}
reference_of (some other) = no_reference

unfoldable pub escrow_status_text : EscrowStatus → String
escrow_status_text EscrowStatus.awaiting_shipment = "AWAITING_SHIPMENT"
escrow_status_text EscrowStatus.shipped = "SHIPPED"
escrow_status_text EscrowStatus.delivered = "DELIVERED"
escrow_status_text EscrowStatus.released = "RELEASED"
escrow_status_text EscrowStatus.refunded = "REFUNDED"
escrow_status_text EscrowStatus.disputed = "DISPUTED"
escrow_status_text EscrowStatus.cancelled = "CANCELLED"
