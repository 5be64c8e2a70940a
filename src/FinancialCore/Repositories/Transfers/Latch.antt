-- ===== src/FinancialCore/Repositories/Transfers/Latch.antt =====
-- `SqlTransferRepository.try_transition_status` is a latch
-- (backend/modules/financial_core/adapters/persistence/repositories.py).
use money_management_pstu_ha.Prelude.{ℕ, ◌≡◌, refl, false, List, [], ◌∷◌, arith, count, update}
use money_management_pstu_ha.Prelude.Result.{ok}
use money_management_pstu_ha.Prelude.Exec.{lift, gets, modify, ◌>>=◌, ◌>>◌}
use money_management_pstu_ha.Database.{Db, database_now}
use money_management_pstu_ha.Database.Enums.{TransferStatus, same_transfer_status}
use money_management_pstu_ha.Database.Schema.{TransferRecord}
use money_management_pstu_ha.FinancialCore.Repositories.Transfers.{
  in_status, with_status, try_transition_status,
}

no_longer :
    (id : ℕ) (from_status to_status : TransferStatus) (now : ℕ) (rows : List TransferRecord)
    → same_transfer_status to_status from_status ≡ false
    → count
        (in_status id from_status)
        (update (in_status id from_status) (with_status to_status now) rows)
      ≡ 0
unfolding count update
no_longer id from_status to_status now [] differ = refl
no_longer id from_status to_status now (r ∷ rows) differ =
    grind (arith, no_longer id from_status to_status now rows differ)

-- A transition to another status happens once: whatever a first attempt found, a second one changes
-- no row.
pub try_transition_status-once :
    (id : ℕ) (from_status to_status : TransferStatus) (db : Db)
    → same_transfer_status to_status from_status ≡ false
    → ((try_transition_status id from_status to_status
          >> try_transition_status id from_status to_status)
        db).0
      ≡ ok 0
unfolding try_transition_status ◌>>=◌ gets modify lift database_now
try_transition_status-once id from_status to_status db differ =
    rw (no_longer id from_status to_status db.db_clock db.transfers differ) refl
