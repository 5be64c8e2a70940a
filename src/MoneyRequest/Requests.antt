-- ===== src/MoneyRequest/Requests.antt =====
-- backend/modules/money_request/adapters/persistence/repositories.py. The CHECK that ties a transfer to the
-- status ACCEPTED, and the list of statuses, are no tests here: no statement can violate them.
use money_management_pstu_ha.Prelude.{
  ℕ, Bool, true, not, ◌&&◌, ◌||◌, Option, none, some, List, [], ◌∷◌, ◌++◌, ◌==◌, leb, ltb, str_eq,
  same_id, is_some, find, select, count, update, order_by, limit,
}
use money_management_pstu_ha.Prelude.Int.{pos, leb_ℤ}
use money_management_pstu_ha.Prelude.Result.{integrity_error}
use money_management_pstu_ha.Prelude.Exec.{gets, modify, pure, raise_if, ◌>>=◌, ◌>>◌}
use money_management_pstu_ha.Database.{Db, Action}
use money_management_pstu_ha.Database.Enums.{RequestStatus, is_pending, same_request_status}
use money_management_pstu_ha.Database.Schema.{Reference, MoneyRequestRecord}

abbrev pub has_id : ℕ → MoneyRequestRecord → Bool
has_id id r = id == r.id

unfoldable pub find_request : ℕ → Db → Option MoneyRequestRecord
find_request id db = find (has_id id) db.money_requests

abbrev same_reference : Reference → MoneyRequestRecord → Bool
same_reference a r =
    str_eq a.prefix r.reference.prefix
    && (a.day == r.reference.day && a.suffix == r.reference.suffix)

-- `amount_positive` and `requester_differs_from_payer`
abbrev violates_check : MoneyRequestRecord → Bool
violates_check r = leb_ℤ r.amount_minor (pos 0) || r.requester_account_id == r.payer_account_id

-- `create`, on the row that it inserts.
unfoldable pub insert_request : MoneyRequestRecord → Action (Unit {0})
insert_request row = do
  taken ← gets (λ db. is_some (find_request row.id db))
  raise_if taken integrity_error
  referenced ← gets (λ db. is_some (find (same_reference row.reference) db.money_requests))
  raise_if referenced integrity_error
  raise_if (violates_check row) integrity_error
  modify (λ db. record db { money_requests = db.money_requests ++ (row ∷ []) })

unfoldable pub lock_request : ℕ → Action (Option MoneyRequestRecord)
lock_request request_id = gets (find_request request_id)

abbrev pub is_open : ℕ → MoneyRequestRecord → Bool
is_open id r = id == r.id && is_pending r.status

abbrev settles_with : ℕ → MoneyRequestRecord → Bool
settles_with transfer_id r = same_id r.transfer_id (some transfer_id)

abbrev pub accepted_with : ℕ → ℕ → MoneyRequestRecord → MoneyRequestRecord
accepted_with transfer_id now r = record r {
  status = RequestStatus.accepted;
  transfer_id = some transfer_id;
  responded_at = some now;
  updated_at = now;
}

-- Returns the number of rows changed.
unfoldable pub mark_accepted : ℕ → ℕ → ℕ → Action ℕ
mark_accepted request_id transfer_id now = do
  rows ← gets (λ db. count (is_open request_id) db.money_requests)
  settled ← gets (λ db. is_some (find (settles_with transfer_id) db.money_requests))
  raise_if (not (rows == 0) && settled) integrity_error
  modify (λ db. record db {
    money_requests = update (is_open request_id) (accepted_with transfer_id now) db.money_requests;
  })
  pure rows

abbrev pub ended_as : RequestStatus → ℕ → MoneyRequestRecord → MoneyRequestRecord
ended_as status now r = record r { status = status; responded_at = some now; updated_at = now }

-- Returns the number of rows changed.
unfoldable pub mark_terminal : ℕ → RequestStatus → ℕ → Action ℕ
mark_terminal request_id status now = do
  rows ← gets (λ db. count (is_open request_id) db.money_requests)
  modify (λ db. record db {
    money_requests = update (is_open request_id) (ended_as status now) db.money_requests;
  })
  pure rows

abbrev pub is_overdue : ℕ → MoneyRequestRecord → Bool
is_overdue now r = is_pending r.status && leb r.expires_at now

abbrev pub lapsed : ℕ → MoneyRequestRecord → MoneyRequestRecord
lapsed now r = record r { status = RequestStatus.expired; updated_at = now }

-- `expire_due`: returns the number of rows changed.
unfoldable pub sweep_expired : ℕ → Action ℕ
sweep_expired now = do
  rows ← gets (λ db. count (is_overdue now) db.money_requests)
  modify
      (λ db. record db { money_requests = update (is_overdue now) (lapsed now) db.money_requests })
  pure rows

-- `direction`, as the only word that the code tests for and every other.
pub data Direction : Type 0 where
  incoming outgoing : Direction

abbrev listed_account : Direction → MoneyRequestRecord → ℕ
listed_account incoming r = r.payer_account_id
listed_account outgoing r = r.requester_account_id

abbrev has_status : Option RequestStatus → MoneyRequestRecord → Bool
has_status none r = true
has_status (some status) r = same_request_status r.status status

abbrev is_before : Option ℕ → MoneyRequestRecord → Bool
is_before none r = true
is_before (some cursor) r = ltb r.id cursor

abbrev pub is_listed : ℕ → Direction → Option RequestStatus → Option ℕ → MoneyRequestRecord → Bool
is_listed account_id direction status cursor r =
    listed_account direction r == account_id && (has_status status r && is_before cursor r)

abbrev newer : MoneyRequestRecord → MoneyRequestRecord → Bool
newer a b = leb b.id a.id

-- `list_for_account`, as the rows whose columns it shows, newest first.
unfoldable pub list_for_account :
    ℕ → Direction → Option RequestStatus → ℕ → Option ℕ → Action (List MoneyRequestRecord)
list_for_account account_id direction status page cursor = gets (λ db.
    limit page
      (order_by newer (select (is_listed account_id direction status cursor) db.money_requests)))
