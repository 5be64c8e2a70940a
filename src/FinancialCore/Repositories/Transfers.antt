-- ===== src/FinancialCore/Repositories/Transfers.antt =====
-- `SqlTransferRepository`.
pub mod Latch
use money_management_pstu_ha.Prelude.{
  ℕ, suc, String, Bool, true, false, not, ◌&&◌, ◌||◌, Option, none, some, List, [], ◌∷◌, ◌++◌, leb,
  ◌==◌, str_eq, if◌then◌else◌, is_some, find, count, update,
}
use money_management_pstu_ha.Prelude.Int.{ℤ, pos, ◌+ℤ◌, leb_ℤ, ltb_ℤ}
use money_management_pstu_ha.Prelude.Result.{integrity_error}
use money_management_pstu_ha.Prelude.Exec.{gets, modify, pure, raise_if, ◌>>=◌, ◌>>◌}
use money_management_pstu_ha.Kernel.Money.{Money, bdt, from_minor}
use money_management_pstu_ha.Database.{Db, Action, database_now}
use money_management_pstu_ha.Database.Enums.{TransferKind, TransferStatus, same_transfer_status}
use money_management_pstu_ha.Database.Schema.{Reference, TransferRecord}

abbrev pub same_reference : Reference → TransferRecord → Bool
same_reference a r =
    str_eq a.prefix r.reference.prefix
    && (a.day == r.reference.day && a.suffix == r.reference.suffix)

abbrev pub has_id : ℕ → TransferRecord → Bool
has_id id r = id == r.id

unfoldable pub find_transfer : ℕ → Db → Option TransferRecord
find_transfer id db = find (has_id id) db.transfers

-- The legs that complete a hold, which the CHECK `settlement_leg_has_parent` ties to a parent.
abbrev pub is_settlement_leg : TransferKind → Bool
is_settlement_leg TransferKind.undo_settle = true
is_settlement_leg TransferKind.undo_refund = true
is_settlement_leg TransferKind.escrow_release = true
is_settlement_leg TransferKind.escrow_refund = true
is_settlement_leg TransferKind.p2p_send = false
is_settlement_leg TransferKind.request_settlement = false
is_settlement_leg TransferKind.signup_grant = false
is_settlement_leg TransferKind.reversal = false
is_settlement_leg TransferKind.undo_hold = false
is_settlement_leg TransferKind.escrow_hold = false
is_settlement_leg TransferKind.group_deposit = false
is_settlement_leg TransferKind.group_withdrawal = false
is_settlement_leg TransferKind.link_payment = false
is_settlement_leg TransferKind.overdraft_draw = false
is_settlement_leg TransferKind.overdraft_repay = false
is_settlement_leg TransferKind.overdraft_fund = false

abbrev same_flag : Bool → Bool → Bool
same_flag true b = b
same_flag false b = not b

-- The CHECK constraints of the table that a new row may break.
abbrev pub row_is_valid : TransferRecord → Bool
row_is_valid r =
    ltb_ℤ (pos 0) r.amount_minor
    && (not (r.sender_account_id == r.receiver_account_id)
        && same_flag (is_settlement_leg r.kind) (is_some r.parent_transfer_id))

-- `create`, on the row that it inserts. `completed_at` is set only on a transfer that is final.
unfoldable pub insert_transfer : TransferRecord → Action (Unit {0})
insert_transfer row = do
  taken ← gets (λ db. is_some (find_transfer row.id db))
  raise_if taken integrity_error
  referenced ← gets (λ db. is_some (find (same_reference row.reference) db.transfers))
  raise_if referenced integrity_error
  raise_if (not (row_is_valid row)) integrity_error
  modify (λ db. record db { transfers = db.transfers ++ (row ∷ []) })

unfoldable pub completion_time : TransferStatus → ℕ → Option ℕ
completion_time status now =
    if same_transfer_status status TransferStatus.succeeded then some now else none

abbrev pub in_status : ℕ → TransferStatus → TransferRecord → Bool
in_status id status r = id == r.id && same_transfer_status r.status status

abbrev pub with_status : TransferStatus → ℕ → TransferRecord → TransferRecord
with_status status now r = record r { status = status; completed_at = some now }

-- Latches a transfer from one status to another, and returns the number of rows changed.
unfoldable pub try_transition_status : ℕ → TransferStatus → TransferStatus → Action ℕ
try_transition_status transfer_id from_status to_status = do
  now ← database_now
  rows ← gets (λ db. count (in_status transfer_id from_status) db.transfers)
  modify (λ db. record db {
    transfers = update (in_status transfer_id from_status) (with_status to_status now) db.transfers;
  })
  pure rows

unfoldable pub get : ℕ → Action (Option TransferRecord)
get transfer_id = gets (find_transfer transfer_id)

abbrev with_receiver : ℕ → TransferRecord → TransferRecord
with_receiver account_id r = record r { intended_receiver_account_id = some account_id }

unfoldable pub set_intended_receiver : ℕ → ℕ → Action (Unit {0})
set_intended_receiver transfer_id account_id = modify (λ db. record db {
  transfers = update (has_id transfer_id) (with_receiver account_id) db.transfers;
})

-- The statuses of money that has left the sender.
abbrev pub counts_as_sent : TransferStatus → Bool
counts_as_sent TransferStatus.succeeded = true
counts_as_sent TransferStatus.pending_undo = true
counts_as_sent TransferStatus.held = true
counts_as_sent TransferStatus.failed = false
counts_as_sent TransferStatus.reversed = false
counts_as_sent TransferStatus.disputed = false
counts_as_sent TransferStatus.refunded = false

unfoldable pub sum_sent : ℕ → ℕ → List TransferRecord → ℤ
sum_sent account_id since [] = pos 0
sum_sent account_id since (r ∷ rest) =
    let others = sum_sent account_id since rest in
    if r.sender_account_id == account_id && (counts_as_sent r.status && leb since r.created_at)
    then r.amount_minor +ℤ others
    else others

unfoldable pub sum_sent_since : ℕ → ℕ → Action Money
sum_sent_since account_id since =
    gets (λ db. from_minor (sum_sent account_id since db.transfers) bdt)

unfoldable pub count_sent_since : ℕ → ℕ → Action ℕ
count_sent_since account_id since =
    gets
      (λ db. count (λ r. r.sender_account_id == account_id && leb since r.created_at) db.transfers)

-- The row whose columns the returned dictionary shows.
unfoldable pub get_by_reference : Reference → Action (Option TransferRecord)
get_by_reference reference = gets (λ db. find (same_reference reference) db.transfers)
