-- ===== src/FinancialCore/Repositories/Tests.antt =====
-- The lock order and the latch on small inputs.
use money_management_pstu_ha.Prelude.{ℕ, ◌≡◌, refl, none, [], ◌∷◌, arith}
use money_management_pstu_ha.Prelude.Int.{pos}
use money_management_pstu_ha.Prelude.Result.{ok}
use money_management_pstu_ha.Prelude.Exec.{◌>>◌}
use money_management_pstu_ha.Database.{Db}
use money_management_pstu_ha.Database.Enums.{TransferStatus, TransferKind}
use money_management_pstu_ha.Database.Schema.{TransferRecord}
use money_management_pstu_ha.FinancialCore.Repositories.Accounts.{lock_for_update}
use money_management_pstu_ha.FinancialCore.Repositories.Accounts.Order.{among, lock_for_update-same}
use money_management_pstu_ha.FinancialCore.Repositories.Transfers.{try_transition_status}
use money_management_pstu_ha.FinancialCore.Repositories.Transfers.Latch.{try_transition_status-once}

both_ways : (k : ℕ) → among k (6 ∷ 5 ∷ []) ≡ among k (5 ∷ 6 ∷ [])
both_ways k = ground arith

abbrev held : TransferRecord
held = record {
  id = 77;
  reference = record { prefix = "TRX"; day = 20_717; suffix = 5 };
  sender_account_id = 5;
  receiver_account_id = 2;
  amount_minor = pos 300;
  currency = "BDT";
  kind = TransferKind.undo_hold;
  status = TransferStatus.pending_undo;
  note = none;
  initiated_by_user_id = none;
  request_id = none;
  parent_transfer_id = none;
  intended_receiver_account_id = none;
  created_at = 0;
  completed_at = none;
}

abbrev one_hold : Db
one_hold = record {
  accounts = [];
  transfers = held ∷ [];
  ledger_transactions = [];
  ledger_entries = [];
  idempotency_records = [];
  outbox_events = [];
  audit_log = [];
  money_requests = [];
  users = [];
  scheduled_tasks = [];
  safepay_escrows = [];
  overdraft_pools = [];
  overdraft_grants = [];
  overdraft_loans = [];
  overdraft_repayments = [];
  sessions = [];
  clock = 0;
  db_clock = 0;
  entropy = λ n. n;
  draws = 0;
  locks = [];
}

lock_for_update-same_example :
    lock_for_update (6 ∷ 5 ∷ []) one_hold ≡ lock_for_update (5 ∷ 6 ∷ []) one_hold
lock_for_update-same_example = lock_for_update-same (6 ∷ 5 ∷ []) (5 ∷ 6 ∷ []) one_hold both_ways

try_transition_status-once_example :
    ((try_transition_status 77 TransferStatus.pending_undo TransferStatus.refunded
        >> try_transition_status 77 TransferStatus.pending_undo TransferStatus.refunded)
      one_hold).0
    ≡ ok 0
try_transition_status-once_example =
    try_transition_status-once 77 TransferStatus.pending_undo TransferStatus.refunded one_hold refl
