-- ===== src/SafePay/Lifecycle.antt =====
-- The life of an escrow as a state machine: what the services of backend/modules/safepay may make of one, and
-- how the statements of its repository turn it.
use money_management_pstu_ha.Prelude.{
  ℕ, zero, suc, ap, ◌∙◌, ◌≡◌, refl, sym, Bool, true, false, arith, Bool-cases, inl, inr,
}
use mathlib.Core.Path.{subst}
use money_management_pstu_ha.Database.Enums.{EscrowStatus, escrow_status_code, same_escrow_status}
use money_management_pstu_ha.SafePay.Escrows.{
  Outcome, release, refund, is_under_way, may_end, outcome_status,
}

-- One turn: it is sent off, it is delivered, the buyer freezes it, the seller is paid, also after a dispute, or
-- the buyer gets the money back, only after a dispute.
pub data Turn : EscrowStatus → EscrowStatus → Type 0 where
  sent_off : Turn EscrowStatus.awaiting_shipment EscrowStatus.shipped
  brought : Turn EscrowStatus.shipped EscrowStatus.delivered
  frozen : (s : EscrowStatus) → is_under_way s ≡ true → Turn s EscrowStatus.disputed
  paid_out : (s : EscrowStatus) → is_under_way s ≡ true → Turn s EscrowStatus.released
  paid_out_late : Turn EscrowStatus.disputed EscrowStatus.released
  given_back : Turn EscrowStatus.disputed EscrowStatus.refunded

-- Any number of turns.
pub data Course (start : EscrowStatus) : EscrowStatus → Type 0 where
  unmoved : Course start start
  moves_on : (s t : EscrowStatus) → Course start s → Turn s t → Course start t

abbrev pub is_over : EscrowStatus → Bool
is_over EscrowStatus.released = true
is_over EscrowStatus.refunded = true
is_over EscrowStatus.awaiting_shipment = false
is_over EscrowStatus.shipped = false
is_over EscrowStatus.delivered = false
is_over EscrowStatus.disputed = false
is_over EscrowStatus.cancelled = false

under_way_goes_on : (s : EscrowStatus) → is_under_way s ≡ true → is_over s ≡ false
under_way_goes_on s here = ground arith

Turn-goes_on : (s t : EscrowStatus) → Turn s t → is_over s ≡ false
Turn-goes_on s t sent_off = refl
Turn-goes_on s t brought = refl
Turn-goes_on s t (frozen from here) = under_way_goes_on from here
Turn-goes_on s t (paid_out from here) = under_way_goes_on from here
Turn-goes_on s t paid_out_late = refl
Turn-goes_on s t given_back = refl

pub Course-ends : (start s : EscrowStatus) → is_over start ≡ true → Course start s → s ≡ start
Course-ends start s over unmoved = refl
Course-ends start s over (moves_on from t before turn) =
    let stuck = Course-ends start from over before in
    let goes_on = Turn-goes_on from s turn in ground (arith, over, stuck, goes_on)

abbrev status_of_code : ℕ → EscrowStatus
status_of_code zero = EscrowStatus.awaiting_shipment
status_of_code (suc zero) = EscrowStatus.shipped
status_of_code (suc (suc zero)) = EscrowStatus.delivered
status_of_code (suc (suc (suc zero))) = EscrowStatus.released
status_of_code (suc (suc (suc (suc zero)))) = EscrowStatus.refunded
status_of_code (suc (suc (suc (suc (suc zero))))) = EscrowStatus.disputed
status_of_code (suc (suc (suc (suc (suc (suc n)))))) = EscrowStatus.cancelled

status_of_code-code : (s : EscrowStatus) → status_of_code (escrow_status_code s) ≡ s
status_of_code-code EscrowStatus.awaiting_shipment = refl
status_of_code-code EscrowStatus.shipped = refl
status_of_code-code EscrowStatus.delivered = refl
status_of_code-code EscrowStatus.released = refl
status_of_code-code EscrowStatus.refunded = refl
status_of_code-code EscrowStatus.disputed = refl
status_of_code-code EscrowStatus.cancelled = refl

same_escrow_status-same : (s t : EscrowStatus) → same_escrow_status s t ≡ true → t ≡ s
same_escrow_status-same s t same =
    let codes : escrow_status_code t ≡ escrow_status_code s = ground (arith, same) in
    sym (status_of_code-code t) ∙ ap status_of_code codes ∙ status_of_code-code s

pub ships_from :
    (s : EscrowStatus)
    → same_escrow_status s EscrowStatus.awaiting_shipment ≡ true
    → Turn s EscrowStatus.shipped
ships_from s here =
    subst (λ (from : EscrowStatus). Turn from EscrowStatus.shipped)
      (same_escrow_status-same s EscrowStatus.awaiting_shipment here) sent_off

pub delivers_from :
    (s : EscrowStatus)
    → same_escrow_status s EscrowStatus.shipped ≡ true
    → Turn s EscrowStatus.delivered
delivers_from s here =
    subst (λ (from : EscrowStatus). Turn from EscrowStatus.delivered)
      (same_escrow_status-same s EscrowStatus.shipped here) brought

pub settles_from :
    (outcome : Outcome) (s : EscrowStatus)
    → may_end outcome s ≡ true
    → Turn s (outcome_status outcome)
settles_from release s here = elim (Bool-cases (is_under_way s)) [
  | inl under_way ↦ paid_out s under_way
  | inr done ↦
      subst (λ (from : EscrowStatus). Turn from EscrowStatus.released)
        (same_escrow_status-same s EscrowStatus.disputed (ground (arith, here, done))) paid_out_late
]
settles_from refund s here =
    subst (λ (from : EscrowStatus). Turn from EscrowStatus.refunded)
      (same_escrow_status-same s EscrowStatus.disputed here) given_back
