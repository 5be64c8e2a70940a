-- ===== src/System/Escrows.antt =====
-- Every invariant survives SafePay (backend/modules/safepay/application/service.py).
use money_management_pstu_ha.Prelude.{ℕ, ◌≡◌, refl, true, String, Option}
use money_management_pstu_ha.Prelude.Exec.Ensures.{
  Keeps, Keeps-bind, Keeps-lift, Keeps-gets, Keeps-if, Keeps-modify, Keeps-option_case,
}
use money_management_pstu_ha.Database.{Db, Action}
use money_management_pstu_ha.Database.Json.{Fields}
use money_management_pstu_ha.Database.Schema.{SafePayEscrowRecord}
use money_management_pstu_ha.FinancialCore.Repositories.Keys.{NaturalKey}
use money_management_pstu_ha.FinancialCore.Transfer.{Policy, Interceptor, TransferResult}
use money_management_pstu_ha.FinancialCore.Holding.{SettlementOrder}
use money_management_pstu_ha.FinancialCore.Books.Writes.{
  clock_now-Keeps, draw-Keeps, new_ulid-Keeps, generate_reference-Keeps, record_audit-Keeps,
  get-Keeps, get_by_user_id-Keeps,
}
use money_management_pstu_ha.Identity.Auth.{Passwords}
use money_management_pstu_ha.Identity.Users.{set_user_status}
use money_management_pstu_ha.Identity.Sessions.{revoke_all_for_user}
use money_management_pstu_ha.SafePay.Escrows.{lock_escrow}
use money_management_pstu_ha.SafePay.Settlement.{
  audit_event, release_order, refund_order, pay_seller, release_locked, refund_locked,
}
use money_management_pstu_ha.SafePay.Service.{
  EscrowOrder, Resolution, complete_command, reserve_command, state_command, mark_shipped_once,
  dispute_once, close_buyer,
}
use money_management_pstu_ha.SafePay.Service.Commands.{
  new_escrow, open_escrow, create, ship, buyer_release_once, confirm_received, dispute,
  resolve_once, resolve_dispute, auto_release,
}
use money_management_pstu_ha.System.Invariant.{IsInvariant, is_final, cancel-Keeps}
use money_management_pstu_ha.System.Windows.{hold-Keeps, settle_hold-Keeps}

module _ {policy : Policy} {interceptor : Interceptor} {P : Db → Type 0}
    (kept : IsInvariant policy interceptor P) where
  pub lock_escrow-Keeps : (id : ℕ) → Keeps P (lock_escrow id)
  unfolding lock_escrow
  lock_escrow-Keeps id = Keeps-gets _

  audit_event-Keeps :
      (actor : Option ℕ) (action : String) (id : ℕ) (request_id : Option String) (metadata : Fields)
      → Keeps P (audit_event actor action id request_id metadata)
  unfolding audit_event
  audit_event-Keeps actor action id request_id metadata =
      Keeps-bind _ _ (clock_now-Keeps kept.logs) λ now. record_audit-Keeps kept.logs _ _ _ _ _ _ _

  pub complete_command-Keeps :
      (key : NaturalKey) (id http_status : ℕ) (body : Fields) (now : ℕ)
      → Keeps P (complete_command key id http_status body now)
  unfolding complete_command
  complete_command-Keeps key id http_status body now = kept.completes _ _ _ _ _

  mark_shipped_once-Keeps :
      (id seller : ℕ) (courier tracking : String) (request_id : Option String) (now : ℕ)
      → Keeps P (mark_shipped_once id seller courier tracking request_id now)
  unfolding mark_shipped_once
  mark_shipped_once-Keeps id seller courier tracking request_id now =
      Keeps-bind _ _ (kept.escrows.ships _ _ _ _ _) λ rows.
        Keeps-bind _ _ (Keeps-lift _)
          λ _. Keeps-bind _ _ (audit_event-Keeps _ _ _ _ _) λ _. Keeps-lift _

  dispute_once-Keeps :
      (id buyer : ℕ) (reason : String) (request_id : Option String) (now : ℕ)
      → Keeps P (dispute_once id buyer reason request_id now)
  unfolding dispute_once
  dispute_once-Keeps id buyer reason request_id now =
      Keeps-bind _ _ (kept.escrows.disputes _ _ _ _) λ rows. Keeps-bind _ _ (Keeps-lift _) λ _.
        Keeps-bind _ _ (Keeps-bind _ _ (cancel-Keeps kept _ _) λ _. Keeps-lift _)
          λ _. Keeps-bind _ _ (audit_event-Keeps _ _ _ _ _) λ _. Keeps-lift _

  close_buyer-Keeps : (buyer : ℕ) → Keeps P (close_buyer buyer)
  unfolding close_buyer set_user_status revoke_all_for_user
  close_buyer-Keeps buyer =
      Keeps-bind _ _
        (Keeps-bind _ _
          (Keeps-bind _ _ (Keeps-gets _) λ rows.
            Keeps-bind _ _ (Keeps-modify _ (λ db h. kept.rest.users db _ h)) λ _. Keeps-lift _)
          λ _. Keeps-lift _)
        λ _. Keeps-bind _ _ (get_by_user_id-Keeps kept.logs _) λ owned.
          Keeps-bind _ _
            (Keeps-option_case _ _ _ (Keeps-lift _)
              λ account. Keeps-bind _ _ (kept.closes _ _) λ _. Keeps-lift _)
            λ _.
              Keeps-bind _ _ (clock_now-Keeps kept.logs)
                λ now. Keeps-modify _ (λ db h. kept.rest.sessions db _ h)

  module _ (digest : Fields → String) where
    pub reserve_command-Keeps :
        (key : NaturalKey) (payload : Fields) (now : ℕ)
        → Keeps P (reserve_command digest key payload now)
    unfolding reserve_command
    reserve_command-Keeps key payload now =
        Keeps-bind _ _ (kept.reserves _ _ _) λ decision. Keeps-lift _

    state_command-Keeps :
        (key : NaturalKey) (payload : Fields) (run : ℕ → Action Fields)
        → ((now : ℕ) → Keeps P (run now))
        → Keeps P (state_command digest key payload run)
    unfolding state_command
    state_command-Keeps key payload run runs = Keeps-bind _ _ (clock_now-Keeps kept.logs) λ now.
        Keeps-bind _ _ (reserve_command-Keeps _ _ _) λ replayed.
          Keeps-option_case _ _ _
            (Keeps-bind _ _ (runs now) λ body.
              Keeps-bind _ _ (Keeps-lift _)
                λ id. Keeps-bind _ _ (complete_command-Keeps _ _ _ _ _) λ _. Keeps-lift _)
            λ stored. Keeps-lift _

    pay_seller-Keeps :
        (escrow : SafePayEscrowRecord) (order : SettlementOrder) (actor : ℕ) (reason : String)
        (request_id memo : Option String)
        → is_final order.to_status ≡ true
        → Keeps P (pay_seller digest policy interceptor escrow order actor reason request_id memo)
    unfolding pay_seller
    pay_seller-Keeps escrow order actor reason request_id memo final =
        Keeps-bind _ _ (settle_hold-Keeps digest kept order final) λ settlement.
          Keeps-bind _ _ (clock_now-Keeps kept.logs) λ now.
            Keeps-bind _ _ (kept.escrows.settles _ _ _ _ _) λ rows.
              Keeps-bind _ _ (Keeps-lift _) λ _.
                Keeps-bind _ _ (Keeps-bind _ _ (cancel-Keeps kept _ _) λ _. Keeps-lift _)
                  λ _. Keeps-bind _ _ (audit_event-Keeps _ _ _ _ _) λ _. Keeps-lift _

    pub release_locked-Keeps :
        (escrow : SafePayEscrowRecord) (actor : ℕ) (reason : String)
        (request_id memo : Option String)
        → Keeps P (release_locked digest policy interceptor escrow actor reason request_id memo)
    unfolding release_locked release_order
    release_locked-Keeps escrow actor reason request_id memo =
        Keeps-bind _ _ (get-Keeps kept.logs _) λ row.
          Keeps-bind _ _ (Keeps-lift _)
            λ held. Keeps-bind _ _ (Keeps-lift _) λ receiver. pay_seller-Keeps escrow _ _ _ _ _ refl

    refund_locked-Keeps :
        (escrow : SafePayEscrowRecord) (reason : String) (request_id : Option String)
        (note : String)
        → Keeps P (refund_locked digest policy interceptor escrow reason request_id note)
    unfolding refund_locked refund_order
    refund_locked-Keeps escrow reason request_id note =
        Keeps-bind _ _ (get-Keeps kept.logs _) λ row. Keeps-bind _ _ (Keeps-lift _) λ held.
          Keeps-bind _ _ (settle_hold-Keeps digest kept _ refl) λ settlement.
            Keeps-bind _ _ (clock_now-Keeps kept.logs) λ now.
              Keeps-bind _ _ (kept.escrows.settles _ _ _ _ _)
                λ rows. Keeps-bind _ _ (Keeps-lift _) λ _. Keeps-lift _

    module _ (passwords : Passwords) (code_digest : ℕ → ℕ) where
      new_escrow-Keeps :
          (o : EscrowOrder) (id : ℕ) (held : TransferResult) (hash : String) (now : ℕ)
          → Keeps P (new_escrow digest policy interceptor passwords code_digest o id held hash now)
      unfolding new_escrow
      new_escrow-Keeps o id held hash now =
          Keeps-bind _ _ (generate_reference-Keeps kept.logs _ _)
            λ reference. Keeps-bind _ _ (kept.escrows.inserts _ refl refl) λ _. Keeps-lift _

      open_escrow-Keeps :
          (o : EscrowOrder) (now : ℕ)
          → Keeps P (open_escrow digest policy interceptor passwords code_digest o now)
      unfolding open_escrow
      open_escrow-Keeps o now = Keeps-bind _ _ (new_ulid-Keeps kept.logs) λ id.
          Keeps-bind _ _ (hold-Keeps digest kept _) λ held.
            Keeps-bind _ _ (draw-Keeps kept.logs) λ salt.
              Keeps-bind _ _ (new_escrow-Keeps o id held _ now) λ body.
                Keeps-bind _ _ (complete_command-Keeps _ _ _ _ _)
                  λ _. Keeps-bind _ _ (audit_event-Keeps _ _ _ _ _) λ _. Keeps-lift _

      pub create-Keeps :
          (o : EscrowOrder) → Keeps P (create digest policy interceptor passwords code_digest o)
      unfolding create
      create-Keeps o = Keeps-bind _ _ (clock_now-Keeps kept.logs) λ now.
          Keeps-bind _ _ (reserve_command-Keeps _ _ _) λ replayed.
            Keeps-option_case _ _ _ (open_escrow-Keeps o now)
              λ stored. Keeps-bind _ _ (Keeps-lift _) λ id. Keeps-lift _

      pub ship-Keeps :
          (id seller : ℕ) (courier tracking key : String) (request_id : Option String)
          → Keeps P (
              ship digest policy interceptor passwords code_digest id seller courier tracking key
                request_id)
      unfolding ship
      ship-Keeps id seller courier tracking key request_id =
          state_command-Keeps _ _ _ λ now. mark_shipped_once-Keeps id seller courier tracking _ now

      pub dispute-Keeps :
          (id buyer : ℕ) (reason key : String) (request_id : Option String)
          → Keeps P (
              dispute digest policy interceptor passwords code_digest id buyer reason key
                request_id)
      unfolding dispute
      dispute-Keeps id buyer reason key request_id =
          state_command-Keeps _ _ _ λ now. dispute_once-Keeps id buyer reason request_id now

      pub confirm_received-Keeps :
          (id buyer : ℕ) (key : String) (request_id : Option String)
          → Keeps P (
              confirm_received digest policy interceptor passwords code_digest id buyer key
                request_id)
      unfolding confirm_received buyer_release_once
      confirm_received-Keeps id buyer key request_id = state_command-Keeps _ _ _ λ now.
          Keeps-bind _ _ (lock_escrow-Keeps id) λ row. Keeps-bind _ _ (Keeps-lift _) λ escrow.
            Keeps-bind _ _ (Keeps-lift _) λ _.
              Keeps-bind _ _ (Keeps-lift _) λ _. release_locked-Keeps escrow buyer _ request_id _

      resolve_once-Keeps :
          (r : Resolution)
          → Keeps P (resolve_once digest policy interceptor passwords code_digest r)
      unfolding resolve_once
      resolve_once-Keeps r = Keeps-bind _ _ (lock_escrow-Keeps _) λ row.
          Keeps-bind _ _ (Keeps-lift _) λ escrow. Keeps-bind _ _ (Keeps-lift _) λ _.
            Keeps-if _ _ _
              (Keeps-bind _ _ (release_locked-Keeps escrow _ _ _ _) λ body.
                Keeps-if _ _ _ (Keeps-bind _ _ (close_buyer-Keeps _) λ _. Keeps-lift _)
                  (Keeps-lift _))
              (refund_locked-Keeps escrow _ _ _)

      pub resolve_dispute-Keeps :
          (r : Resolution)
          → Keeps P (resolve_dispute digest policy interceptor passwords code_digest r)
      unfolding resolve_dispute
      resolve_dispute-Keeps r = state_command-Keeps _ _ _ λ now. resolve_once-Keeps r

      pub auto_release-Keeps :
          (id : ℕ) → Keeps P (auto_release digest policy interceptor passwords code_digest id)
      unfolding auto_release
      auto_release-Keeps id = Keeps-bind _ _ (lock_escrow-Keeps id) λ row.
          Keeps-option_case _ _ _ (Keeps-lift _) λ escrow.
            Keeps-if _ _ _ (Keeps-lift _)
              (Keeps-bind _ _ (release_locked-Keeps escrow _ _ _ _) λ body. Keeps-lift _)
