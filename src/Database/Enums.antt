-- ===== src/Database/Enums.antt =====
-- The closed sets of words that the status, kind and type columns hold (the CHECK constraints of
-- backend/modules/*/adapters/persistence/models.py), each with a number by which equality is tested.
use money_management_pstu_ha.Prelude.{ℕ, Bool, true, false, ◌==◌}

pub data AccountType : Type 0 where
  user system_issuance pending_settlement escrow group overdraft_pool : AccountType

abbrev account_type_code : AccountType → ℕ
account_type_code AccountType.user = 0
account_type_code AccountType.system_issuance = 1
account_type_code AccountType.pending_settlement = 2
account_type_code AccountType.escrow = 3
account_type_code AccountType.group = 4
account_type_code AccountType.overdraft_pool = 5

abbrev pub same_account_type : AccountType → AccountType → Bool
same_account_type a b = account_type_code a == account_type_code b

pub data AccountStatus : Type 0 where
  active frozen closed : AccountStatus

pub data TransferKind : Type 0 where
  p2p_send request_settlement signup_grant reversal undo_hold undo_settle : TransferKind
  undo_refund escrow_hold escrow_release escrow_refund group_deposit : TransferKind
  group_withdrawal link_payment overdraft_draw overdraft_repay overdraft_fund : TransferKind

abbrev transfer_kind_code : TransferKind → ℕ
transfer_kind_code TransferKind.p2p_send = 0
transfer_kind_code TransferKind.request_settlement = 1
transfer_kind_code TransferKind.signup_grant = 2
transfer_kind_code TransferKind.reversal = 3
transfer_kind_code TransferKind.undo_hold = 4
transfer_kind_code TransferKind.undo_settle = 5
transfer_kind_code TransferKind.undo_refund = 6
transfer_kind_code TransferKind.escrow_hold = 7
transfer_kind_code TransferKind.escrow_release = 8
transfer_kind_code TransferKind.escrow_refund = 9
transfer_kind_code TransferKind.group_deposit = 10
transfer_kind_code TransferKind.group_withdrawal = 11
transfer_kind_code TransferKind.link_payment = 12
transfer_kind_code TransferKind.overdraft_draw = 13
transfer_kind_code TransferKind.overdraft_repay = 14
transfer_kind_code TransferKind.overdraft_fund = 15

abbrev pub same_kind : TransferKind → TransferKind → Bool
same_kind a b = transfer_kind_code a == transfer_kind_code b

pub data TransferStatus : Type 0 where
  succeeded failed reversed pending_undo held disputed refunded : TransferStatus

abbrev transfer_status_code : TransferStatus → ℕ
transfer_status_code TransferStatus.succeeded = 0
transfer_status_code TransferStatus.failed = 1
transfer_status_code TransferStatus.reversed = 2
transfer_status_code TransferStatus.pending_undo = 3
transfer_status_code TransferStatus.held = 4
transfer_status_code TransferStatus.disputed = 5
transfer_status_code TransferStatus.refunded = 6

abbrev pub same_transfer_status : TransferStatus → TransferStatus → Bool
same_transfer_status a b = transfer_status_code a == transfer_status_code b

pub data IdempotencyStatus : Type 0 where
  processing completed : IdempotencyStatus

pub data RequestStatus : Type 0 where
  pending accepted rejected cancelled expired : RequestStatus

abbrev request_status_code : RequestStatus → ℕ
request_status_code RequestStatus.pending = 0
request_status_code RequestStatus.accepted = 1
request_status_code RequestStatus.rejected = 2
request_status_code RequestStatus.cancelled = 3
request_status_code RequestStatus.expired = 4

abbrev pub same_request_status : RequestStatus → RequestStatus → Bool
same_request_status a b = request_status_code a == request_status_code b

abbrev pub is_pending : RequestStatus → Bool
is_pending RequestStatus.pending = true
is_pending RequestStatus.accepted = false
is_pending RequestStatus.rejected = false
is_pending RequestStatus.cancelled = false
is_pending RequestStatus.expired = false

pub data TaskType : Type 0 where
  undo_settle escrow_auto_release link_expiry money_request_expiry : TaskType

abbrev task_type_code : TaskType → ℕ
task_type_code TaskType.undo_settle = 0
task_type_code TaskType.escrow_auto_release = 1
task_type_code TaskType.link_expiry = 2
task_type_code TaskType.money_request_expiry = 3

abbrev pub same_task_type : TaskType → TaskType → Bool
same_task_type a b = task_type_code a == task_type_code b

pub data TaskStatus : Type 0 where
  pending done cancelled failed : TaskStatus

abbrev pub is_pending_task : TaskStatus → Bool
is_pending_task TaskStatus.pending = true
is_pending_task TaskStatus.done = false
is_pending_task TaskStatus.cancelled = false
is_pending_task TaskStatus.failed = false

pub data UserStatus : Type 0 where
  active suspended closed : UserStatus

pub data EscrowStatus : Type 0 where
  awaiting_shipment shipped delivered released refunded disputed cancelled : EscrowStatus

abbrev pub escrow_status_code : EscrowStatus → ℕ
escrow_status_code EscrowStatus.awaiting_shipment = 0
escrow_status_code EscrowStatus.shipped = 1
escrow_status_code EscrowStatus.delivered = 2
escrow_status_code EscrowStatus.released = 3
escrow_status_code EscrowStatus.refunded = 4
escrow_status_code EscrowStatus.disputed = 5
escrow_status_code EscrowStatus.cancelled = 6

abbrev pub same_escrow_status : EscrowStatus → EscrowStatus → Bool
same_escrow_status a b = escrow_status_code a == escrow_status_code b

pub data PoolStatus : Type 0 where
  active suspended closed : PoolStatus

abbrev pub is_open : PoolStatus → Bool
is_open PoolStatus.active = true
is_open PoolStatus.suspended = false
is_open PoolStatus.closed = false

pub data GrantStatus : Type 0 where
  active revoked : GrantStatus

abbrev pub is_granted : GrantStatus → Bool
is_granted GrantStatus.active = true
is_granted GrantStatus.revoked = false

pub data LoanStatus : Type 0 where
  outstanding repaid written_off : LoanStatus

abbrev pub is_outstanding : LoanStatus → Bool
is_outstanding LoanStatus.outstanding = true
is_outstanding LoanStatus.repaid = false
is_outstanding LoanStatus.written_off = false

abbrev pub is_active_account : AccountStatus → Bool
is_active_account AccountStatus.active = true
is_active_account AccountStatus.frozen = false
is_active_account AccountStatus.closed = false

abbrev pub is_active_user : UserStatus → Bool
is_active_user UserStatus.active = true
is_active_user UserStatus.suspended = false
is_active_user UserStatus.closed = false
