-- ===== src/System/Requests.antt =====
-- Every invariant survives money requests (backend/modules/money_request/application/money_request_service.py).
use money_management_pstu_ha.Prelude.{ℕ, ◌≢◌, refl, String, Option}
use money_management_pstu_ha.Prelude.Exec.Ensures.{
  Keeps, Keeps-bind, Keeps-lift, Keeps-gets, Keeps-if,
}
use money_management_pstu_ha.Database.{Db}
use money_management_pstu_ha.Database.Enums.{RequestStatus}
use money_management_pstu_ha.Database.Json.{Fields}
use money_management_pstu_ha.Database.Schema.{MoneyRequestRecord}
use money_management_pstu_ha.FinancialCore.Account.{Account}
use money_management_pstu_ha.FinancialCore.Transfer.{Policy, Interceptor}
use money_management_pstu_ha.FinancialCore.Books.Writes.{
  clock_now-Keeps, new_ulid-Keeps, generate_reference-Keeps, append_event-Keeps, record_audit-Keeps,
  get_by_id-Keeps, get_by_user_id-Keeps, get_by_phone-Keeps,
}
use money_management_pstu_ha.MoneyRequest.Requests.{lock_request}
use money_management_pstu_ha.MoneyRequest.Service.{
  RequestOrder, Acceptance, Role, role_status, open_request, create, terminate, announce_rejection,
  expire_due, pay_request, accept,
}
use money_management_pstu_ha.System.Invariant.{IsInvariant}

role_status-open : (role : Role) → role_status role ≢ RequestStatus.accepted
role_status-open Role.payer e = cc
role_status-open Role.requester e = cc

module _ {policy : Policy} {interceptor : Interceptor} {P : Db → Type 0}
    (kept : IsInvariant policy interceptor P) where
  lock_request-Keeps : (id : ℕ) → Keeps P (lock_request id)
  unfolding lock_request
  lock_request-Keeps id = Keeps-gets _

  open_request-Keeps :
      (o : RequestOrder) (hours : ℕ) (requester payer : Account) (now : ℕ)
      → Keeps P (open_request o hours requester payer now)
  unfolding open_request
  open_request-Keeps o hours requester payer now = Keeps-bind _ _ (new_ulid-Keeps kept.logs) λ id.
      Keeps-bind _ _ (generate_reference-Keeps kept.logs _ _) λ reference.
        Keeps-bind _ _ (kept.requests.inserts _ refl refl) λ _.
          Keeps-bind _ _ (append_event-Keeps kept.logs _ _)
            λ _. Keeps-bind _ _ (record_audit-Keeps kept.logs _ _ _ _ _ _ _) λ _. Keeps-lift _

  pub create-Keeps : (hours : ℕ) (o : RequestOrder) → Keeps P (create hours o)
  unfolding create
  create-Keeps hours o = Keeps-bind _ _ (clock_now-Keeps kept.logs) λ now.
      Keeps-bind _ _ (get_by_user_id-Keeps kept.logs _) λ asking.
        Keeps-bind _ _ (Keeps-lift _) λ requester.
          Keeps-bind _ _ (get_by_phone-Keeps kept.logs _) λ asked.
            Keeps-bind _ _ (Keeps-lift _) λ payer. Keeps-bind _ _ (Keeps-lift _) λ _.
              Keeps-bind _ _ (Keeps-lift _) λ _. Keeps-bind _ _ (Keeps-lift _) λ _.
                Keeps-bind _ _ (Keeps-lift _) λ _. open_request-Keeps o hours requester payer now

  announce_rejection-Keeps :
      (role : Role) (id actor : ℕ) (api_request_id : Option String) (now : ℕ)
      → Keeps P (announce_rejection role id actor api_request_id now)
  announce_rejection-Keeps Role.payer id actor api_request_id now = append_event-Keeps kept.logs _ _
  announce_rejection-Keeps Role.requester id actor api_request_id now = Keeps-lift _

  pub terminate-Keeps :
      (role : Role) (id actor : ℕ) (api_request_id : Option String)
      → Keeps P (terminate role id actor api_request_id)
  unfolding terminate
  terminate-Keeps role id actor api_request_id = Keeps-bind _ _ (clock_now-Keeps kept.logs) λ now.
      Keeps-bind _ _ (lock_request-Keeps id) λ row. Keeps-bind _ _ (Keeps-lift _) λ found.
        Keeps-bind _ _ (get_by_id-Keeps kept.logs _) λ account. Keeps-bind _ _ (Keeps-lift _) λ _.
          Keeps-bind _ _ (kept.requests.ends id _ now (role_status-open role)) λ rows.
            Keeps-bind _ _ (Keeps-lift _) λ _.
              Keeps-bind _ _ (announce_rejection-Keeps role id actor api_request_id now)
                λ _. Keeps-bind _ _ (record_audit-Keeps kept.logs _ _ _ _ _ _ _) λ _. Keeps-lift _

  pub expire_due-Keeps : Keeps P expire_due
  unfolding expire_due
  expire_due-Keeps = Keeps-bind _ _ (clock_now-Keeps kept.logs) λ now. kept.requests.sweeps now

  module _ (digest : Fields → String) where
    pay_request-Keeps :
        (a : Acceptance) (found : MoneyRequestRecord) (now : ℕ)
        → Keeps P (pay_request digest policy interceptor a found now)
    unfolding pay_request
    pay_request-Keeps a found now = Keeps-bind _ _ (kept.executes _) λ transfer.
        Keeps-bind _ _ (kept.requests.accepts _ _ _) λ rows. Keeps-bind _ _ (Keeps-lift _) λ _.
          Keeps-bind _ _ (append_event-Keeps kept.logs _ _)
            λ _. Keeps-bind _ _ (record_audit-Keeps kept.logs _ _ _ _ _ _ _) λ _. Keeps-lift _

    pub accept-Keeps : (a : Acceptance) → Keeps P (accept digest policy interceptor a)
    unfolding accept
    accept-Keeps a = Keeps-bind _ _ (clock_now-Keeps kept.logs) λ now.
        Keeps-bind _ _ (lock_request-Keeps _) λ row. Keeps-bind _ _ (Keeps-lift _) λ found.
          Keeps-bind _ _ (get_by_id-Keeps kept.logs _) λ account. Keeps-bind _ _ (Keeps-lift _) λ _.
            Keeps-bind _ _ (Keeps-lift _) λ _.
              Keeps-bind _ _
                (Keeps-if _ _ _
                  (Keeps-bind _ _ (kept.requests.ends _ _ _ (λ e. cc)) λ _. Keeps-lift _)
                  (Keeps-lift _))
                λ _. pay_request-Keeps a found now
