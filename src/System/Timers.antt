-- ===== src/System/Timers.antt =====
-- The timer of an undoable transfer, over the whole backend (backend/modules/financial_core/application/undo.py,
-- `settle`, which backend/apps/scheduler_worker/main.py runs).
use money_management_pstu_ha.Prelude.{
  ℕ, ◌≡◌, refl, sym, true, false, none, some, String, List, [], ◌∷◌, arith, find, count,
  Option-cases, inl, inr,
}
use money_management_pstu_ha.Prelude.Result.{ok, is_ok}
use money_management_pstu_ha.Prelude.Exec.{lift, gets, option_case, ◌>>=◌}
use money_management_pstu_ha.Database.{Db}
use money_management_pstu_ha.Database.Enums.{TransferStatus, same_transfer_status}
use money_management_pstu_ha.Database.Json.{Fields}
use money_management_pstu_ha.Database.Schema.{TransferRecord}
use money_management_pstu_ha.FinancialCore.Repositories.Transfers.{
  find_transfer, has_id, in_status, get,
}
use money_management_pstu_ha.FinancialCore.Holding.{SettlementOrder, settle_hold}
use money_management_pstu_ha.FinancialCore.Transfer.{Policy, Interceptor}
use money_management_pstu_ha.FinancialCore.Undo.{settle}
use money_management_pstu_ha.System.Invariant.{is_final}
use money_management_pstu_ha.System.Wiring.{Wiring, interceptor_of}
use money_management_pstu_ha.System.Steps.{Event, happen_all, happen_all-Keeps}
use money_management_pstu_ha.System.Once.{IsSettled-IsInvariant, settle_hold-IsSettled, when_ok}

not_in_status :
    (id : ℕ) (status : TransferStatus) (rows : List TransferRecord) (r : TransferRecord)
    → count (in_status id status) rows ≡ 0
    → find (has_id id) rows ≡ some r
    → same_transfer_status r.status status ≡ false
unfolding count find
not_in_status id status [] r absent found = ground arith
not_in_status id status (x ∷ rows) r absent found =
    ground (arith, not_in_status id status rows r, absent, found)

settle-nothing :
    (digest : Fields → String) (policy : Policy) (interceptor : Interceptor) (window id : ℕ)
    (db : Db)
    → count (in_status id TransferStatus.pending_undo) db.transfers ≡ 0
    → settle digest policy interceptor window id db ≡ (ok none, db)
unfolding settle get find_transfer option_case ◌>>=◌ gets lift
settle-nothing digest policy interceptor window id db absent =
    elim (Option-cases (find (has_id id) db.transfers)) [
      | inl missing ↦ rw missing refl
      | inr (held, found) ↦
          rw (found, not_in_status id TransferStatus.pending_undo db.transfers held absent found)
            refl
    ]

none_of :
    (id : ℕ) (s t : TransferStatus) (rows : List TransferRecord)
    → s ≡ t
    → count (in_status id s) rows ≡ 0
    → count (in_status id t) rows ≡ 0
none_of id s t rows same h = rw (sym same) h

-- The timer of an undoable transfer pays nobody a second time. After a settlement of the hold from
-- `PENDING_UNDO` to a final status has returned, whoever it paid, and after any sequence of events of the
-- whole backend, the timer's `settle` succeeds with no settlement and writes nothing.
pub settle-spent :
    (w : Wiring) (first : SettlementOrder) (db : Db) (events : List Event)
    → first.from_status ≡ TransferStatus.pending_undo
    → is_final first.to_status ≡ true
    → is_ok (settle_hold w.digest w.policy (interceptor_of w) first db).0 ≡ true
    → let now = happen_all w events (settle_hold w.digest w.policy (interceptor_of w) first db).1 in
      settle w.digest w.policy (interceptor_of w) w.undo_window_seconds first.hold_transfer_id now
      ≡ (ok none, now)
settle-spent w first db events pending final returned =
    let run = settle_hold w.digest w.policy (interceptor_of w) first db in
    let held : is_final first.from_status ≡ false = rw pending refl in
    let settled =
      when_ok _ run.0 run.1 returned ((settle_hold-IsSettled w first held final).at db tt) in
    let still =
      happen_all-Keeps w (IsSettled-IsInvariant w first.hold_transfer_id first.from_status held)
        events run.1 settled in
    settle-nothing w.digest w.policy (interceptor_of w) w.undo_window_seconds first.hold_transfer_id
      (happen_all w events run.1)
      (none_of first.hold_transfer_id first.from_status TransferStatus.pending_undo _ pending
        still.none_left)
