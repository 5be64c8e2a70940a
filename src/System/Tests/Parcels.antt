-- ===== src/System/Tests/Parcels.antt =====
-- The life of one escrow, on the small bank.
use money_management_pstu_ha.Prelude.{◌≡◌, refl, none, some, List, [], ◌∷◌, find}
use money_management_pstu_ha.Prelude.Int.{pos}
use money_management_pstu_ha.Database.Schema.{SafePayEscrowRecord}
use money_management_pstu_ha.Database.{Db}
use money_management_pstu_ha.Database.Enums.{EscrowStatus}
use money_management_pstu_ha.System.Steps.{Event, runs, ship_escrow, happen_all}
use money_management_pstu_ha.SafePay.Escrows.{find_escrow}
use money_management_pstu_ha.System.EscrowStates.{
  IsOnCourse, happen_all-IsOnCourse, happen_all-over,
}
use money_management_pstu_ha.System.Tests.{demo, busy_day, office}

abbrev parcel : EscrowStatus → SafePayEscrowRecord
parcel status = record {
  id = 90;
  reference = record { prefix = "SAFE"; day = 20_717; suffix = 5 };
  hold_transfer_id = 77;
  settlement_transfer_id = none;
  buyer_user_id = 50;
  seller_user_id = 60;
  amount_minor = pos 300;
  currency = "BDT";
  description = none;
  status = status;
  delivery_code_hash = "code";
  delivery_code_attempts = 0;
  delivery_code_locked_until = none;
  tracking_number = none;
  courier_slug = none;
  shipped_at = none;
  delivered_at = none;
  auto_release_at = none;
  settled_at = none;
  dispute_reason = none;
  disputed_at = none;
  resolution_note = none;
  created_at = 0;
  updated_at = 0;
}

abbrev shop : EscrowStatus → Db
shop status = record office { safepay_escrows = parcel status ∷ [] }

abbrev shopping : List Event
shopping = runs (ship_escrow 90 60 "pathao" "P-1" "ship-1" none) ∷ busy_day

happen_all-IsOnCourse_example :
    IsOnCourse 90 EscrowStatus.awaiting_shipment
      (happen_all demo shopping (shop EscrowStatus.awaiting_shipment))
unfolding find_escrow find
happen_all-IsOnCourse_example =
    happen_all-IsOnCourse demo shopping (shop EscrowStatus.awaiting_shipment) 90
      (parcel EscrowStatus.awaiting_shipment) refl

happen_all-over_example :
    (later : SafePayEscrowRecord) × (find_escrow 90
        (happen_all demo shopping (shop EscrowStatus.refunded))
      ≡ some later)
    × (later.status ≡ EscrowStatus.refunded)
unfolding find_escrow find
happen_all-over_example =
    happen_all-over demo shopping (shop EscrowStatus.refunded) 90 (parcel EscrowStatus.refunded)
      refl refl
