-- ===== src/MoneyRequest/Answers.antt =====
-- A money request gets one answer (backend/modules/money_request).
use money_management_pstu_ha.Prelude.{◌≡◌, refl, true, Option, some, String, leb}
use money_management_pstu_ha.Prelude.Result.{ok, err, state_conflict}
use money_management_pstu_ha.Prelude.Exec.{lift, gets, modify, atomically, ◌>>=◌}
use money_management_pstu_ha.Database.{Db, clock_now}
use money_management_pstu_ha.Database.Enums.{is_pending}
use money_management_pstu_ha.Database.Json.{Fields}
use money_management_pstu_ha.Database.Schema.{MoneyRequestRecord}
use money_management_pstu_ha.FinancialCore.Account.{Account}
use money_management_pstu_ha.FinancialCore.Repositories.Accounts.{get_by_id}
use money_management_pstu_ha.FinancialCore.Transfer.{Policy, Interceptor}
use money_management_pstu_ha.MoneyRequest.Requests.{find_request, lock_request, mark_terminal}
use money_management_pstu_ha.MoneyRequest.Service.{Acceptance, is_owned_by, accept}

module _ (digest : Fields → String) (policy : Policy) (interceptor : Interceptor) where
  -- A payer who accepts a pending request that has expired is refused before any money moves, and the
  -- transaction leaves the database as it was: the request is still pending, since the mark that it has
  -- expired is undone with the error.
  pub accept-expired :
      (a : Acceptance) (db : Db) (found : MoneyRequestRecord) (payer : Option Account)
      → find_request a.request_id db ≡ some found
      → get_by_id found.payer_account_id db ≡ (ok payer, db)
      → is_owned_by a.payer_user_id payer ≡ true
      → is_pending found.status ≡ true
      → leb found.expires_at db.clock ≡ true
      → atomically (accept digest policy interceptor a) db ≡ (err state_conflict, db)
  unfolding accept atomically clock_now lock_request mark_terminal lift gets modify ◌>>=◌
  accept-expired a db found payer there loaded owner pending late =
      rw (there, loaded, owner, pending, late) refl
