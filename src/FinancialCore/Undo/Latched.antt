-- ===== src/FinancialCore/Undo/Latched.antt =====
-- A hold that is no longer pending is left alone (backend/modules/financial_core/application/undo.py).
use money_management_pstu_ha.Prelude.{◌≡◌, refl, String, count}
use money_management_pstu_ha.Prelude.Result.{err, state_conflict}
use money_management_pstu_ha.Prelude.Exec.{lift, gets, modify, ◌>>=◌, atomically}
use money_management_pstu_ha.Database.{Db, database_now}
use money_management_pstu_ha.Database.Json.{Fields}
use money_management_pstu_ha.FinancialCore.Repositories.Transfers.{in_status, try_transition_status}
use money_management_pstu_ha.FinancialCore.Transfer.{Policy, Interceptor}
use money_management_pstu_ha.FinancialCore.Holding.{SettlementOrder, settle_hold}

module _ (digest : Fields → String) (policy : Policy) (interceptor : Interceptor) where
  -- A settlement of a hold that is not in the status it is latched from is refused before any money moves,
  -- and its transaction leaves the database as it was.
  pub atomically-settle_hold :
      (o : SettlementOrder) (db : Db)
      → count (in_status o.hold_transfer_id o.from_status) db.transfers ≡ 0
      → atomically (settle_hold digest policy interceptor o) db ≡ (err state_conflict, db)
  unfolding settle_hold try_transition_status atomically ◌>>=◌ gets modify lift database_now
  atomically-settle_hold o db gone = rw gone refl
