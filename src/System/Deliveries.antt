-- ===== src/System/Deliveries.antt =====
-- Every invariant survives the proofs of delivery (backend/modules/safepay/application/service.py,
-- `release_with_code` and `courier_delivered`).
use money_management_pstu_ha.Prelude.{ℕ, String}
use money_management_pstu_ha.Prelude.Exec.Ensures.{
  Keeps, Keeps-bind, Keeps-lift, Keeps-gets, Keeps-if, Keeps-option_case,
}
use money_management_pstu_ha.Database.{Db}
use money_management_pstu_ha.Database.Json.{Fields}
use money_management_pstu_ha.Database.Schema.{SafePayEscrowRecord}
use money_management_pstu_ha.FinancialCore.Transfer.{Policy, Interceptor}
use money_management_pstu_ha.FinancialCore.Books.Writes.{clock_now-Keeps}
use money_management_pstu_ha.Identity.Auth.{Passwords}
use money_management_pstu_ha.SafePay.Escrows.{find_by_tracking}
use money_management_pstu_ha.SafePay.Service.Delivery.{
  CodeEntry, DeliveryEvent, refuse_code, accept_code, try_code, release_with_code, deliver,
  apply_delivery, courier_delivered,
}
use money_management_pstu_ha.System.Invariant.{IsInvariant, schedule-Keeps}
use money_management_pstu_ha.System.Escrows.{
  lock_escrow-Keeps, complete_command-Keeps, reserve_command-Keeps, release_locked-Keeps,
}

module _ (digest : Fields → String) {policy : Policy} {interceptor : Interceptor} {P : Db → Type 0}
    (kept : IsInvariant policy interceptor P) (passwords : Passwords) (lock_seconds hours : ℕ) where
  refuse_code-Keeps :
      (c : CodeEntry) (escrow : SafePayEscrowRecord) (now : ℕ)
      → Keeps P (refuse_code digest policy interceptor passwords lock_seconds hours c escrow now)
  unfolding refuse_code
  refuse_code-Keeps c escrow now =
      Keeps-bind _ _ (kept.escrows.counts _ _ _ _)
        λ _. Keeps-bind _ _ (complete_command-Keeps kept _ _ _ _ _) λ _. Keeps-lift _

  accept_code-Keeps :
      (c : CodeEntry) (escrow : SafePayEscrowRecord) (now : ℕ)
      → Keeps P (accept_code digest policy interceptor passwords lock_seconds hours c escrow now)
  unfolding accept_code
  accept_code-Keeps c escrow now =
      Keeps-bind _ _ (release_locked-Keeps kept digest escrow _ _ _ _)
        λ body. Keeps-bind _ _ (complete_command-Keeps kept _ _ _ _ _) λ _. Keeps-lift _

  try_code-Keeps :
      (c : CodeEntry) (now : ℕ)
      → Keeps P (try_code digest policy interceptor passwords lock_seconds hours c now)
  unfolding try_code
  try_code-Keeps c now = Keeps-bind _ _ (lock_escrow-Keeps kept _) λ row.
      Keeps-bind _ _ (Keeps-lift _) λ escrow. Keeps-bind _ _ (Keeps-lift _) λ _.
        Keeps-bind _ _ (Keeps-lift _) λ _.
          Keeps-if _ _ _ (Keeps-bind _ _ (complete_command-Keeps kept _ _ _ _ _) λ _. Keeps-lift _)
            (Keeps-if _ _ _ (accept_code-Keeps c escrow now) (refuse_code-Keeps c escrow now))

  pub release_with_code-Keeps :
      (c : CodeEntry)
      → Keeps P (release_with_code digest policy interceptor passwords lock_seconds hours c)
  unfolding release_with_code
  release_with_code-Keeps c = Keeps-bind _ _ (clock_now-Keeps kept.logs) λ now.
      Keeps-bind _ _ (reserve_command-Keeps kept digest _ _ _)
        λ replayed. Keeps-option_case _ _ _ (try_code-Keeps c now) λ stored. Keeps-lift _

  deliver-Keeps :
      (e : DeliveryEvent) (escrow : SafePayEscrowRecord) (now : ℕ)
      → Keeps P (deliver digest policy interceptor passwords lock_seconds hours e escrow now)
  unfolding deliver
  deliver-Keeps e escrow now = Keeps-bind _ _ (kept.escrows.delivers _ _ _) λ rows.
      Keeps-bind _ _ (Keeps-lift _) λ _. Keeps-bind _ _ (lock_escrow-Keeps kept _) λ row.
        Keeps-bind _ _ (Keeps-lift _) λ refreshed.
          Keeps-if _ _ _ (release_locked-Keeps kept digest refreshed _ _ _ _)
            (Keeps-bind _ _ (schedule-Keeps kept _ _ _) λ _. Keeps-lift _)

  apply_delivery-Keeps :
      (e : DeliveryEvent) (escrow : SafePayEscrowRecord) (now : ℕ)
      → Keeps P (apply_delivery digest policy interceptor passwords lock_seconds hours e escrow now)
  unfolding apply_delivery
  apply_delivery-Keeps e escrow now =
      Keeps-if _ _ _ (deliver-Keeps e escrow now) (Keeps-if _ _ _ (Keeps-lift _) (Keeps-lift _))

  pub courier_delivered-Keeps :
      (e : DeliveryEvent)
      → Keeps P (courier_delivered digest policy interceptor passwords lock_seconds hours e)
  unfolding courier_delivered find_by_tracking
  courier_delivered-Keeps e = Keeps-bind _ _ (Keeps-gets _) λ row.
      Keeps-bind _ _ (Keeps-lift _) λ escrow. Keeps-bind _ _ (clock_now-Keeps kept.logs) λ now.
        Keeps-bind _ _ (reserve_command-Keeps kept digest _ _ _) λ replayed.
          Keeps-option_case _ _ _
            (Keeps-bind _ _ (apply_delivery-Keeps e escrow now)
              λ body. Keeps-bind _ _ (complete_command-Keeps kept _ _ _ _ _) λ _. Keeps-lift _)
            λ stored. Keeps-lift _
