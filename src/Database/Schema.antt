-- ===== src/Database/Schema.antt =====
-- The tables: backend/modules/financial_core, money_request, identity, safepay and overdraft
-- (adapters/persistence/models.py), backend/modules/audit/models.py, backend/platform_/messaging/models.py,
-- backend/platform_/scheduling/models.py. A ULID is the number that its text encodes, so their orders
-- agree; a time is in milliseconds since 1970. Columns that no modelled code reads or sets are left out.
use money_management_pstu_ha.Prelude.{ℕ, String, Option}
use money_management_pstu_ha.Prelude.Int.{ℤ}
use money_management_pstu_ha.Database.Enums.{
  AccountType, AccountStatus, TransferKind, TransferStatus, IdempotencyStatus, RequestStatus,
  TaskType, TaskStatus, UserStatus, EscrowStatus, PoolStatus, GrantStatus, LoanStatus,
}
use money_management_pstu_ha.Database.Json.{Fields}

-- `TRX-20260829-K3M9QP4T`: the prefix, the day and the random suffix as a number.
pub record Reference : Type 0 where
  pub prefix : String
  pub day : ℕ
  pub suffix : ℕ

pub record AccountRecord : Type 0 where
  pub id : ℕ
  pub user_id : Option ℕ
  pub account_type : AccountType
  pub account_number : String
  pub currency : String
  pub balance_minor : ℤ
  pub status : AccountStatus
  pub version : ℕ
  pub created_at : ℕ
  pub updated_at : ℕ

pub record TransferRecord : Type 0 where
  pub id : ℕ
  pub reference : Reference
  pub sender_account_id : ℕ
  pub receiver_account_id : ℕ
  pub amount_minor : ℤ
  pub currency : String
  pub kind : TransferKind
  pub status : TransferStatus
  pub note : Option String
  pub initiated_by_user_id : Option ℕ
  pub request_id : Option String
  pub parent_transfer_id : Option ℕ
  pub intended_receiver_account_id : Option ℕ
  pub created_at : ℕ
  pub completed_at : Option ℕ

pub record LedgerTransactionRecord : Type 0 where
  pub id : ℕ
  pub transfer_id : ℕ
  pub posting_type : TransferKind
  pub description : Option String
  pub posted_at : ℕ

pub record LedgerEntryRecord : Type 0 where
  pub id : ℕ
  pub ledger_transaction_id : ℕ
  pub account_id : ℕ
  pub amount_minor : ℤ
  pub currency : String
  pub balance_after_minor : ℤ
  pub created_at : ℕ

pub record IdempotencyRecord : Type 0 where
  pub actor_id : ℕ
  pub endpoint : String
  pub idempotency_key : String
  pub request_fingerprint : String
  pub status : IdempotencyStatus
  pub resource_id : Option ℕ
  pub http_status : Option ℕ
  pub response_body : Option Fields
  pub created_at : ℕ
  pub completed_at : Option ℕ

pub record OutboxEventRecord : Type 0 where
  pub id : ℕ
  pub aggregate_type : String
  pub aggregate_id : ℕ
  pub event_type : String
  pub payload : Fields
  pub trace_id : Option String
  pub occurred_at : ℕ
  pub published_at : Option ℕ
  pub attempt_count : ℕ
  pub next_attempt_at : Option ℕ
  pub dead_lettered_at : Option ℕ

pub record AuditLogRecord : Type 0 where
  pub id : ℕ
  pub actor_user_id : Option ℕ
  pub action : String
  pub resource_type : String
  pub resource_id : Option ℕ
  pub request_id : Option String
  pub event_metadata : Option Fields
  pub created_at : ℕ

pub record MoneyRequestRecord : Type 0 where
  pub id : ℕ
  pub reference : Reference
  pub requester_account_id : ℕ
  pub payer_account_id : ℕ
  pub amount_minor : ℤ
  pub currency : String
  pub note : Option String
  pub status : RequestStatus
  pub transfer_id : Option ℕ
  pub expires_at : ℕ
  pub responded_at : Option ℕ
  pub created_at : ℕ
  pub updated_at : ℕ

pub record UserRecord : Type 0 where
  pub id : ℕ
  pub phone : String
  pub display_name : String
  pub password_hash : String
  pub pin_hash : String
  pub pin_failed_attempts : ℕ
  pub pin_locked_until : Option ℕ
  pub status : UserStatus
  pub created_at : ℕ
  pub updated_at : ℕ

pub record ScheduledTaskRecord : Type 0 where
  pub id : ℕ
  pub task_type : TaskType
  pub resource_id : ℕ
  pub due_at : ℕ
  pub status : TaskStatus
  pub attempt_count : ℕ
  pub completed_at : Option ℕ

pub record SafePayEscrowRecord : Type 0 where
  pub id : ℕ
  pub reference : Reference
  pub hold_transfer_id : ℕ
  pub settlement_transfer_id : Option ℕ
  pub buyer_user_id : ℕ
  pub seller_user_id : ℕ
  pub amount_minor : ℤ
  pub currency : String
  pub description : Option String
  pub status : EscrowStatus
  pub delivery_code_hash : String
  pub delivery_code_attempts : ℕ
  pub delivery_code_locked_until : Option ℕ
  pub tracking_number : Option String
  pub courier_slug : Option String
  pub shipped_at : Option ℕ
  pub delivered_at : Option ℕ
  pub auto_release_at : Option ℕ
  pub settled_at : Option ℕ
  pub dispute_reason : Option String
  pub disputed_at : Option ℕ
  pub resolution_note : Option String
  pub created_at : ℕ
  pub updated_at : ℕ

pub record OverdraftPoolRecord : Type 0 where
  pub id : ℕ
  pub sponsor_user_id : ℕ
  pub pool_account_id : ℕ
  pub currency : String
  pub status : PoolStatus
  pub created_at : ℕ
  pub updated_at : ℕ

pub record OverdraftGrantRecord : Type 0 where
  pub id : ℕ
  pub pool_id : ℕ
  pub beneficiary_user_id : ℕ
  pub max_draw_minor : ℤ
  pub status : GrantStatus
  pub created_at : ℕ
  pub updated_at : ℕ

pub record OverdraftLoanRecord : Type 0 where
  pub id : ℕ
  pub pool_id : ℕ
  pub borrower_user_id : ℕ
  pub draw_transfer_id : ℕ
  pub principal_minor : ℤ
  pub outstanding_minor : ℤ
  pub currency : String
  pub status : LoanStatus
  pub created_at : ℕ
  pub repaid_at : Option ℕ

pub record OverdraftRepaymentRecord : Type 0 where
  pub id : ℕ
  pub loan_id : ℕ
  pub transfer_id : ℕ
  pub amount_minor : ℤ
  pub triggered_by_transfer_id : Option ℕ
  pub created_at : ℕ

pub record SessionRecord : Type 0 where
  pub id : ℕ
  pub user_id : ℕ
  pub refresh_token_hash : String
  pub rotated_to_id : Option ℕ
  pub issued_at : ℕ
  pub expires_at : ℕ
  pub revoked_at : Option ℕ
  pub user_agent : Option String
  pub ip_address : Option String
