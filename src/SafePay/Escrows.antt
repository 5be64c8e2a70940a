-- ===== src/SafePay/Escrows.antt =====
-- backend/modules/safepay/adapters/persistence/repositories.py: each statement on the table of escrows. The CHECK
-- `settled_has_settlement_leg` and the list of statuses are no tests here: no statement can violate them.
use money_management_pstu_ha.Prelude.{
  ℕ, Bool, true, false, not, ◌&&◌, ◌||◌, String, Option, none, some, List, [], ◌∷◌, ◌++◌, ◌==◌, leb,
  str_eq, if◌then◌else◌, same_id, is_some, find, select, count, update, order_by, limit,
}
use money_management_pstu_ha.Prelude.Int.{pos, leb_ℤ}
use money_management_pstu_ha.Prelude.Result.{integrity_error}
use money_management_pstu_ha.Prelude.Exec.{gets, modify, pure, raise_if, ◌>>=◌, ◌>>◌}
use money_management_pstu_ha.Database.{Db, Action}
use money_management_pstu_ha.Database.Enums.{EscrowStatus, same_escrow_status}
use money_management_pstu_ha.Database.Schema.{Reference, SafePayEscrowRecord}

abbrev pub has_id : ℕ → SafePayEscrowRecord → Bool
has_id id e = id == e.id

unfoldable pub find_escrow : ℕ → Db → Option SafePayEscrowRecord
find_escrow id db = find (has_id id) db.safepay_escrows

abbrev same_reference : Reference → SafePayEscrowRecord → Bool
same_reference a e =
    str_eq a.prefix e.reference.prefix
    && (a.day == e.reference.day && a.suffix == e.reference.suffix)

-- The PRIMARY KEY and the UNIQUE columns that an insert sets.
abbrev clashes : SafePayEscrowRecord → SafePayEscrowRecord → Bool
clashes row e =
    row.id == e.id || (same_reference row.reference e || row.hold_transfer_id == e.hold_transfer_id)

-- `amount_positive` and `buyer_differs_from_seller`
abbrev violates_check : SafePayEscrowRecord → Bool
violates_check e = leb_ℤ e.amount_minor (pos 0) || e.buyer_user_id == e.seller_user_id

-- `create`, on the row that it inserts.
unfoldable pub insert_escrow : SafePayEscrowRecord → Action (Unit {0})
insert_escrow row = do
  taken ← gets (λ db. is_some (find (clashes row) db.safepay_escrows))
  raise_if taken integrity_error
  raise_if (violates_check row) integrity_error
  modify (λ db. record db { safepay_escrows = db.safepay_escrows ++ (row ∷ []) })

-- `lock`, and `get` without the lock.
unfoldable pub lock_escrow : ℕ → Action (Option SafePayEscrowRecord)
lock_escrow escrow_id = gets (find_escrow escrow_id)

abbrev same_text : Option String → String → Bool
same_text none s = false
same_text (some t) s = str_eq t s

abbrev is_parcel : String → String → SafePayEscrowRecord → Bool
is_parcel courier tracking e =
    same_text e.courier_slug courier && same_text e.tracking_number tracking

abbrev newer : SafePayEscrowRecord → SafePayEscrowRecord → Bool
newer a b = leb b.created_at a.created_at

abbrev first_of : List SafePayEscrowRecord → Option SafePayEscrowRecord
first_of [] = none
first_of (e ∷ rest) = some e

unfoldable pub find_by_tracking : String → String → Action (Option SafePayEscrowRecord)
find_by_tracking courier tracking =
    gets (λ db. first_of (order_by newer (select (is_parcel courier tracking) db.safepay_escrows)))

abbrev is_party : ℕ → SafePayEscrowRecord → Bool
is_party user_id e = e.buyer_user_id == user_id || e.seller_user_id == user_id

-- The rows that `list_for_user` shows, newest first. Every party of an escrow is a user.
unfoldable pub list_for_user : ℕ → ℕ → Action (List SafePayEscrowRecord)
list_for_user user_id page =
    gets (λ db. limit page (order_by newer (select (is_party user_id) db.safepay_escrows)))

abbrev is_disputed : SafePayEscrowRecord → Bool
is_disputed e = same_escrow_status e.status EscrowStatus.disputed

abbrev or_never : Option ℕ → ℕ
or_never none = 0
or_never (some t) = t

-- `ORDER BY disputed_at, id`; a disputed row has the time of its dispute.
abbrev waits_longer : SafePayEscrowRecord → SafePayEscrowRecord → Bool
waits_longer a b =
    if or_never a.disputed_at == or_never b.disputed_at
    then leb a.id b.id
    else leb (or_never a.disputed_at) (or_never b.disputed_at)

-- The rows that `list_disputes` shows.
unfoldable pub list_disputes : ℕ → Action (List SafePayEscrowRecord)
list_disputes page =
    gets (λ db. limit page (order_by waits_longer (select is_disputed db.safepay_escrows)))

abbrev pub can_ship : ℕ → ℕ → SafePayEscrowRecord → Bool
can_ship escrow_id seller e =
    escrow_id == e.id
    && (seller == e.seller_user_id && same_escrow_status e.status EscrowStatus.awaiting_shipment)

abbrev shipped_with : String → String → ℕ → SafePayEscrowRecord → SafePayEscrowRecord
shipped_with courier tracking now e = record e {
  status = EscrowStatus.shipped;
  courier_slug = some courier;
  tracking_number = some tracking;
  shipped_at = some now;
  updated_at = now;
}

-- Each `mark_…` returns the number of rows changed.
unfoldable pub mark_shipped : ℕ → ℕ → String → String → ℕ → Action ℕ
mark_shipped escrow_id seller courier tracking now = do
  rows ← gets (λ db. count (can_ship escrow_id seller) db.safepay_escrows)
  modify (λ db. record db {
    safepay_escrows =
        update (can_ship escrow_id seller) (shipped_with courier tracking now) db.safepay_escrows;
  })
  pure rows

abbrev pub can_deliver : ℕ → SafePayEscrowRecord → Bool
can_deliver escrow_id e = escrow_id == e.id && same_escrow_status e.status EscrowStatus.shipped

abbrev delivered_by : ℕ → ℕ → SafePayEscrowRecord → SafePayEscrowRecord
delivered_by delivered_at auto_release_at e = record e {
  status = EscrowStatus.delivered;
  delivered_at = some delivered_at;
  auto_release_at = some auto_release_at;
  updated_at = delivered_at;
}

unfoldable pub mark_delivered : ℕ → ℕ → ℕ → Action ℕ
mark_delivered escrow_id delivered_at auto_release_at = do
  rows ← gets (λ db. count (can_deliver escrow_id) db.safepay_escrows)
  modify (λ db. record db {
    safepay_escrows =
        update (can_deliver escrow_id) (delivered_by delivered_at auto_release_at)
          db.safepay_escrows;
  })
  pure rows

-- The statuses from which a buyer may dispute and a code may release.
abbrev pub is_under_way : EscrowStatus → Bool
is_under_way EscrowStatus.awaiting_shipment = true
is_under_way EscrowStatus.shipped = true
is_under_way EscrowStatus.delivered = true
is_under_way EscrowStatus.released = false
is_under_way EscrowStatus.refunded = false
is_under_way EscrowStatus.disputed = false
is_under_way EscrowStatus.cancelled = false

abbrev pub can_dispute : ℕ → ℕ → SafePayEscrowRecord → Bool
can_dispute escrow_id buyer e =
    escrow_id == e.id && (buyer == e.buyer_user_id && is_under_way e.status)

abbrev disputed_for : String → ℕ → SafePayEscrowRecord → SafePayEscrowRecord
disputed_for reason now e = record e {
  status = EscrowStatus.disputed;
  dispute_reason = some reason;
  disputed_at = some now;
  updated_at = now;
}

unfoldable pub mark_disputed : ℕ → ℕ → String → ℕ → Action ℕ
mark_disputed escrow_id buyer reason now = do
  rows ← gets (λ db. count (can_dispute escrow_id buyer) db.safepay_escrows)
  modify (λ db. record db {
    safepay_escrows =
        update (can_dispute escrow_id buyer) (disputed_for reason now) db.safepay_escrows;
  })
  pure rows

abbrev with_attempts : ℕ → Option ℕ → ℕ → SafePayEscrowRecord → SafePayEscrowRecord
with_attempts attempts locked_until now e = record e {
  delivery_code_attempts = attempts;
  delivery_code_locked_until = locked_until;
  updated_at = now;
}

unfoldable pub record_code_failure : ℕ → ℕ → Option ℕ → ℕ → Action (Unit {0})
record_code_failure escrow_id attempts locked_until now = modify (λ db. record db {
  safepay_escrows =
      update (has_id escrow_id) (with_attempts attempts locked_until now) db.safepay_escrows;
})

-- The two ways in which an escrow ends, each with the statuses it may end from.
pub data Outcome : Type 0 where
  release refund : Outcome

abbrev pub outcome_status : Outcome → EscrowStatus
outcome_status release = EscrowStatus.released
outcome_status refund = EscrowStatus.refunded

abbrev pub may_end : Outcome → EscrowStatus → Bool
may_end release status = is_under_way status || same_escrow_status status EscrowStatus.disputed
may_end refund status = same_escrow_status status EscrowStatus.disputed

abbrev pub can_settle : ℕ → Outcome → SafePayEscrowRecord → Bool
can_settle escrow_id outcome e =
    escrow_id == e.id && (may_end outcome e.status && not (is_some e.settlement_transfer_id))

abbrev settles_with : ℕ → SafePayEscrowRecord → Bool
settles_with transfer_id e = same_id e.settlement_transfer_id (some transfer_id)

abbrev settled_with : Outcome → ℕ → ℕ → Option String → SafePayEscrowRecord → SafePayEscrowRecord
settled_with outcome transfer_id now note e = record e {
  status = outcome_status outcome;
  settlement_transfer_id = some transfer_id;
  settled_at = some now;
  resolution_note = note;
  delivery_code_attempts = 0;
  delivery_code_locked_until = none;
  updated_at = now;
}

-- The outcome fixes `from_statuses` and `to_status` as the two callers pass them; neither passes
-- `resolved_by_user_id`.
unfoldable pub mark_settled : ℕ → Outcome → ℕ → ℕ → Option String → Action ℕ
mark_settled escrow_id outcome transfer_id now note = do
  rows ← gets (λ db. count (can_settle escrow_id outcome) db.safepay_escrows)
  used ← gets (λ db. is_some (find (settles_with transfer_id) db.safepay_escrows))
  raise_if (not (rows == 0) && used) integrity_error
  modify (λ db. record db {
    safepay_escrows =
        update (can_settle escrow_id outcome) (settled_with outcome transfer_id now note)
          db.safepay_escrows;
  })
  pure rows
