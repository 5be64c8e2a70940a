-- ===== src/System/Windows.antt =====
-- Every invariant survives the undo window (backend/modules/financial_core/application/holding.py and undo.py).
use money_management_pstu_ha.Prelude.{ℕ, ◌≡◌, refl, true, String, Option}
use money_management_pstu_ha.Prelude.Exec.Ensures.{
  Keeps, keeps_rules, Keeps-bind, Keeps-lift, Keeps-if, Keeps-option_case,
}
use money_management_pstu_ha.Database.{Db}
use money_management_pstu_ha.Database.Json.{Fields}
use money_management_pstu_ha.FinancialCore.Transfer.{Policy, Interceptor}
use money_management_pstu_ha.FinancialCore.Holding.{HoldOrder, SettlementOrder, hold, settle_hold}
use money_management_pstu_ha.FinancialCore.Undo.{
  SendOrder, require_hold, send, take_back, undo, finalise, settle,
}
use money_management_pstu_ha.FinancialCore.Books.Writes.{
  clock_now-Keeps, get-Keeps, get_by_id-Keeps,
}
use money_management_pstu_ha.System.Invariant.{IsInvariant, is_final, schedule-Keeps, cancel-Keeps}

module _ (digest : Fields → String) {policy : Policy} {interceptor : Interceptor} {P : Db → Type 0}
    (kept : IsInvariant policy interceptor P) where
  pub settle_hold-Keeps :
      (o : SettlementOrder)
      → is_final o.to_status ≡ true
      → Keeps P (settle_hold digest policy interceptor o)
  unfolding settle_hold
  settle_hold-Keeps o final =
      Keeps-bind _ _ (kept.latches _ _ _ final)
        λ rows. Keeps-bind _ _ (Keeps-lift _) λ _. kept.executes _

  pub hold-Keeps : (o : HoldOrder) → Keeps P (hold digest policy interceptor o)
  unfolding hold
  hold-Keeps o = kept.executes _

  pub send-Keeps : (window : ℕ) (o : SendOrder) → Keeps P (send digest policy interceptor window o)
  unfolding send
  send-Keeps window o = Keeps-bind _ _ (hold-Keeps _) λ held.
      Keeps-bind _ _
        (Keeps-if _ _ _ (Keeps-lift _)
          (Keeps-bind _ _ (schedule-Keeps kept _ _ _) λ _. Keeps-lift _))
        λ _. Keeps-lift _

  require_hold-Keeps : (id : ℕ) → Keeps P (require_hold id)
  unfolding require_hold
  require_hold-Keeps id = search (keeps_rules, get-Keeps kept.logs) depth 10

  take_back-Keeps :
      (window id actor : ℕ) (key : String) (request_id : Option String) (now : ℕ)
      → Keeps P (take_back digest policy interceptor window id actor key request_id now)
  unfolding take_back
  take_back-Keeps window id actor key request_id now =
      Keeps-bind _ _ (require_hold-Keeps id) λ held.
        Keeps-bind _ _ (get_by_id-Keeps kept.logs _) λ sender. Keeps-bind _ _ (Keeps-lift _) λ _.
          Keeps-bind _ _ (settle_hold-Keeps _ refl) λ settlement.
            Keeps-bind _ _ (Keeps-bind _ _ (cancel-Keeps kept _ _) λ _. Keeps-lift _)
              λ _. Keeps-bind _ _ (kept.completes _ _ _ _ _) λ _. Keeps-lift _

  pub undo-Keeps :
      (window id actor : ℕ) (key : String) (request_id : Option String)
      → Keeps P (undo digest policy interceptor window id actor key request_id)
  unfolding undo
  undo-Keeps window id actor key request_id = Keeps-bind _ _ (clock_now-Keeps kept.logs) λ now.
      Keeps-bind _ _ (kept.reserves _ _ _) λ decision. Keeps-bind _ _ (Keeps-lift _) λ replayed.
        Keeps-option_case _ _ _ (take_back-Keeps window id actor key request_id now)
          λ body. Keeps-lift _

  pub settle-Keeps : (window id : ℕ) → Keeps P (settle digest policy interceptor window id)
  unfolding settle finalise
  settle-Keeps window id = Keeps-bind _ _ (get-Keeps kept.logs id) λ row.
      Keeps-option_case _ _ _ (Keeps-lift _) λ held. Keeps-if _ _ _ (Keeps-lift _) (
        Keeps-option_case _ _ _ (Keeps-lift _)
          λ receiver. Keeps-bind _ _ (settle_hold-Keeps _ refl) λ settlement. Keeps-lift _)
