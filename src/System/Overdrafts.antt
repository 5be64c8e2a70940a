-- ===== src/System/Overdrafts.antt =====
-- Every invariant survives the overdraft commands (backend/modules/overdraft/application/service.py).
use money_management_pstu_ha.Prelude.{ℕ, String, Option, List}
use money_management_pstu_ha.Prelude.Int.{ℤ}
use money_management_pstu_ha.Prelude.Exec.Ensures.{
  Keeps, Keeps-bind, Keeps-lift, Keeps-gets, Keeps-if, Keeps-modify, Keeps-option_case,
}
use money_management_pstu_ha.Database.{Db, Action}
use money_management_pstu_ha.Database.Json.{Fields}
use money_management_pstu_ha.FinancialCore.Account.{Account}
use money_management_pstu_ha.FinancialCore.Repositories.Keys.{NaturalKey}
use money_management_pstu_ha.FinancialCore.Transfer.{Policy, Interceptor, TransferResult, execute}
use money_management_pstu_ha.FinancialCore.Undo.{SendOrder}
use money_management_pstu_ha.FinancialCore.Books.Writes.{
  clock_now-Keeps, new_ulid-Keeps, record_audit-Keeps, get_by_id-Keeps, get_by_user_id-Keeps,
  lock_for_update-Keeps,
}
use money_management_pstu_ha.Identity.Users.{get_user_by_phone}
use money_management_pstu_ha.Overdraft.Pools.{
  GrantRow, insert_pool, get_pool_for_sponsor, get_grant, insert_grant, active_grants_for_borrower,
}
use money_management_pstu_ha.Overdraft.Loans.{create_loan}
use money_management_pstu_ha.Overdraft.Service.{
  Funding, GrantOrder, audit_event, complete_command, reserve_command, grant_once, grant_access,
  fund_pool, create_pool_once, create_pool,
}
use money_management_pstu_ha.Overdraft.Send.{borrow, send_once, send}
use money_management_pstu_ha.System.Invariant.{IsInvariant}

module _ {policy : Policy} {interceptor : Interceptor} {P : Db → Type 0}
    (kept : IsInvariant policy interceptor P) (digest : Fields → String) where
  get_pool_for_sponsor-Keeps : (sponsor : ℕ) → Keeps P (get_pool_for_sponsor sponsor)
  unfolding get_pool_for_sponsor
  get_pool_for_sponsor-Keeps sponsor = Keeps-gets _

  audit_event-Keeps :
      (actor : ℕ) (action : String) (id : ℕ) (request_id : Option String) (metadata : Fields)
      → Keeps P (audit_event actor action id request_id metadata)
  unfolding audit_event
  audit_event-Keeps actor action id request_id metadata =
      Keeps-bind _ _ (clock_now-Keeps kept.logs) λ now. record_audit-Keeps kept.logs _ _ _ _ _ _ _

  complete_command-Keeps :
      (key : NaturalKey) (id : ℕ) (body : Fields) (now : ℕ)
      → Keeps P (complete_command key id body now)
  unfolding complete_command
  complete_command-Keeps key id body now = kept.completes _ _ _ _ _

  reserve_command-Keeps :
      (key : NaturalKey) (payload : Fields) (now : ℕ)
      → Keeps P (reserve_command digest key payload now)
  unfolding reserve_command
  reserve_command-Keeps key payload now =
      Keeps-bind _ _ (kept.reserves _ _ _) λ decision. Keeps-lift _

  insert_grant-Keeps :
      (id pool_id beneficiary : ℕ) (most : ℤ) (now : ℕ)
      → Keeps P (insert_grant id pool_id beneficiary most now)
  unfolding insert_grant
  insert_grant-Keeps id pool_id beneficiary most now = Keeps-bind _ _ (Keeps-gets _) λ taken.
      Keeps-bind _ _ (Keeps-lift _)
        λ _. Keeps-bind _ _ (Keeps-lift _) λ _. Keeps-modify _ (λ db h. kept.rest.grants db _ h)

  grant_once-Keeps :
      (service_max : ℕ) (o : GrantOrder) (now : ℕ) → Keeps P (grant_once digest service_max o now)
  unfolding grant_once get_user_by_phone get_grant
  grant_once-Keeps service_max o now = Keeps-bind _ _ (get_pool_for_sponsor-Keeps _) λ found.
      Keeps-bind _ _ (Keeps-gets _) λ person. Keeps-bind _ _ (Keeps-lift _) λ pool.
        Keeps-bind _ _ (Keeps-lift _) λ beneficiary. Keeps-bind _ _ (Keeps-lift _) λ _.
          Keeps-bind _ _ (Keeps-lift _) λ _. Keeps-bind _ _ (Keeps-gets _) λ granted.
            Keeps-bind _ _ (Keeps-lift _) λ _. Keeps-bind _ _ (new_ulid-Keeps kept.logs) λ id.
              Keeps-bind _ _ (insert_grant-Keeps _ _ _ _ _) λ _.
                Keeps-bind _ _ (complete_command-Keeps _ _ _ _)
                  λ _. Keeps-bind _ _ (audit_event-Keeps _ _ _ _ _) λ _. Keeps-lift _

  pub grant_access-Keeps :
      (service_max : ℕ) (o : GrantOrder) → Keeps P (grant_access digest service_max o)
  unfolding grant_access
  grant_access-Keeps service_max o = Keeps-bind _ _ (clock_now-Keeps kept.logs) λ now.
      Keeps-bind _ _ (reserve_command-Keeps _ _ _) λ replayed.
        Keeps-option_case _ _ _ (grant_once-Keeps service_max o now) λ stored. Keeps-lift _

  create_loan-Keeps :
      (pool_id borrower drawn : ℕ) (amount : ℤ) (currency : String) (now : ℕ)
      → Keeps P (create_loan pool_id borrower drawn amount currency now)
  unfolding create_loan
  create_loan-Keeps pool_id borrower drawn amount currency now =
      Keeps-bind _ _ (new_ulid-Keeps kept.logs) λ id. Keeps-bind _ _ (Keeps-gets _) λ taken.
        Keeps-bind _ _ (Keeps-lift _) λ _.
          Keeps-bind _ _ (Keeps-lift _)
            λ _. Keeps-bind _ _ (Keeps-modify _ (λ db h. kept.loans.loans db _ h)) λ _. Keeps-lift _

  pub fund_pool-Keeps : (f : Funding) → Keeps P (fund_pool digest (execute policy interceptor) f)
  unfolding fund_pool
  fund_pool-Keeps f = Keeps-bind _ _ (get_pool_for_sponsor-Keeps _) λ found.
      Keeps-bind _ _ (Keeps-lift _) λ pool.
        Keeps-bind _ _ (get_by_user_id-Keeps kept.logs _) λ owned.
          Keeps-bind _ _ (Keeps-lift _) λ sponsor.
            Keeps-bind _ _ (kept.executes _)
              λ funding. Keeps-bind _ _ (get_by_id-Keeps kept.logs _) λ account. Keeps-lift _

  insert_pool-Keeps :
      (id sponsor account : ℕ) (currency : String) (now : ℕ)
      → Keeps P (insert_pool id sponsor account currency now)
  unfolding insert_pool
  insert_pool-Keeps id sponsor account currency now =
      Keeps-bind _ _ (Keeps-gets _)
        λ taken. Keeps-bind _ _ (Keeps-lift _) λ _. Keeps-modify _ (λ db h. kept.rest.pools db _ h)

  create_pool_once-Keeps :
      (f : Funding) (now : ℕ) → Keeps P (create_pool_once digest (execute policy interceptor) f now)
  unfolding create_pool_once
  create_pool_once-Keeps f now = Keeps-bind _ _ (get_pool_for_sponsor-Keeps _) λ existing.
      Keeps-bind _ _ (Keeps-lift _) λ _. Keeps-bind _ _ (get_by_user_id-Keeps kept.logs _) λ owned.
        Keeps-bind _ _ (Keeps-lift _) λ sponsor. Keeps-bind _ _ (new_ulid-Keeps kept.logs) λ id.
          Keeps-bind _ _ (new_ulid-Keeps kept.logs) λ account.
            Keeps-bind _ _ (kept.opens _ _ _ _ _ _) λ _.
              Keeps-bind _ _ (insert_pool-Keeps _ _ _ _ _) λ _.
                Keeps-bind _ _ (kept.executes _) λ funding.
                  Keeps-bind _ _ (complete_command-Keeps _ _ _ _)
                    λ _. Keeps-bind _ _ (audit_event-Keeps _ _ _ _ _) λ _. Keeps-lift _

  pub create_pool-Keeps :
      (f : Funding) → Keeps P (create_pool digest (execute policy interceptor) f)
  unfolding create_pool
  create_pool-Keeps f = Keeps-bind _ _ (clock_now-Keeps kept.logs) λ now.
      Keeps-bind _ _ (reserve_command-Keeps _ _ _)
        λ replayed. Keeps-option_case _ _ _ (create_pool_once-Keeps f now) λ stored. Keeps-lift _

  borrow-Keeps :
      (service_max : ℕ) (o : SendOrder) (grants : List GrantRow) (locked : List Account)
      (shortfall now : ℕ)
      → Keeps P
          (borrow digest (execute policy interceptor) service_max o grants locked shortfall now)
  unfolding borrow
  borrow-Keeps service_max o grants locked shortfall now = Keeps-bind _ _ (Keeps-lift _) λ selected.
      Keeps-bind _ _ (Keeps-lift _) λ _.
        Keeps-bind _ _ (kept.executes _)
          λ drawn. Keeps-bind _ _ (create_loan-Keeps _ _ _ _ _ _) λ id. Keeps-lift _

  module _ (send_undoable : SendOrder → Action TransferResult)
      (sends : (o : SendOrder) → Keeps P (send_undoable o)) (service_max window : ℕ) where
    send_once-Keeps :
        (o : SendOrder) (now : ℕ)
        → Keeps P
            (send_once digest (execute policy interceptor) send_undoable service_max window o now)
    unfolding send_once active_grants_for_borrower
    send_once-Keeps o now = Keeps-bind _ _ (Keeps-gets _) λ grants.
        Keeps-bind _ _ (lock_for_update-Keeps kept.logs _) λ locked.
          Keeps-bind _ _ (Keeps-lift _) λ sender. Keeps-bind _ _ (Keeps-lift _) λ _.
            Keeps-bind _ _
              (Keeps-if _ _ _ (Keeps-lift _) (borrow-Keeps service_max o grants locked _ now))
              λ drawn.
                Keeps-bind _ _ (sends _)
                  λ held. Keeps-bind _ _ (complete_command-Keeps _ _ _ _) λ _. Keeps-lift _

    pub send-Keeps :
        (o : SendOrder)
        → Keeps P (send digest (execute policy interceptor) send_undoable service_max window o)
    unfolding send
    send-Keeps o = Keeps-bind _ _ (clock_now-Keeps kept.logs) λ now.
        Keeps-bind _ _ (reserve_command-Keeps _ _ _)
          λ replayed. Keeps-option_case _ _ _ (send_once-Keeps o now) λ stored. Keeps-lift _
