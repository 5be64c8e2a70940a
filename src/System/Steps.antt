-- ===== src/System/Steps.antt =====
-- The commands of the backend (backend/apps/api/routes and backend/apps/scheduler_worker/main.py), each one
-- transaction, and sequences of them. A command that asks for a PIN runs under `run_pin_protected`.
use money_management_pstu_ha.Prelude.{ℕ, String, Option, List, [], ◌∷◌}
use money_management_pstu_ha.Prelude.Exec.{pure, atomically, ◌>>=◌}
use money_management_pstu_ha.Prelude.Exec.Ensures.{Keeps, Keeps-bind, Keeps-lift, atomically-Keeps}
use money_management_pstu_ha.Database.{Db, Action}
use money_management_pstu_ha.FinancialCore.Transfer.{TransferCommand}
use money_management_pstu_ha.FinancialCore.Undo.{SendOrder, undo}
use money_management_pstu_ha.MoneyRequest.Service.{RequestOrder, Acceptance, Role}
use money_management_pstu_ha.MoneyRequest.Service as Requests
use money_management_pstu_ha.SafePay.Service.{EscrowOrder, Resolution}
use money_management_pstu_ha.SafePay.Service.Commands as Escrows
use money_management_pstu_ha.SafePay.Service.Delivery.{
  CodeEntry, DeliveryEvent, release_with_code, courier_delivered,
}
use money_management_pstu_ha.Overdraft.Service.{
  Funding, GrantOrder, create_pool, fund_pool, grant_access,
}
use money_management_pstu_ha.Overdraft.Send as Overdrafts
use money_management_pstu_ha.Identity.Sessions.{Client}
use money_management_pstu_ha.Identity.Auth.{
  Registration, register, login, refresh, logout, pin_protected,
}
use money_management_pstu_ha.System.Wiring.{Wiring, interceptor_of, transfer_of, undoable_of}
use money_management_pstu_ha.System.Worker.{run_due_tasks, run_due_tasks-Keeps}
use money_management_pstu_ha.System.Invariant.{IsInvariant}
use money_management_pstu_ha.System.Windows.{send-Keeps, undo-Keeps}
use money_management_pstu_ha.System.Requests as KeptRequests
use money_management_pstu_ha.System.Escrows as KeptEscrows
use money_management_pstu_ha.System.Deliveries.{release_with_code-Keeps, courier_delivered-Keeps}
use money_management_pstu_ha.System.Overdrafts as KeptOverdrafts
use money_management_pstu_ha.System.Sessions.{
  register-Keeps, login-Keeps, refresh-Keeps, logout-Keeps, pin_protected-Keeps,
}

pub data Command : Type 0 where
  transfer : TransferCommand → Command
  send_undoable send_with_overdraft : SendOrder → Command
  undo_send : ℕ → ℕ → String → Option String → Command
  ask_money : RequestOrder → Command
  accept_request : Acceptance → Command
  end_request : Role → ℕ → ℕ → Option String → Command
  open_escrow : EscrowOrder → Command
  ship_escrow : ℕ → ℕ → String → String → String → Option String → Command
  confirm_receipt : ℕ → ℕ → String → Option String → Command
  dispute_escrow : ℕ → ℕ → String → String → Option String → Command
  resolve_escrow : Resolution → Command
  enter_code : CodeEntry → Command
  report_delivery : DeliveryEvent → Command
  open_pool add_to_pool : Funding → Command
  grant_pool : GrantOrder → Command
  register_user : Registration → Command
  log_in : String → String → Client → Command
  refresh_session : String → Client → Command
  log_out : String → Command
  run_timers : Command

-- What can happen to the database.
pub data Event : Type 0 where
  runs : Command → Event
  runs_with_pin : ℕ → String → Command → Event
  time_passes : ℕ → ℕ → Event

unfoldable pub answered : {A : Type 0} → Action A → Action (Unit {0})
answered m = m >>= λ _. pure tt

module _ (w : Wiring) where
  unfoldable pub run_command : Command → Action (Unit {0})
  run_command (transfer c) = answered (transfer_of w c)
  run_command (send_undoable o) = answered (undoable_of w o)
  run_command (send_with_overdraft o) = answered (
      Overdrafts.send w.digest (transfer_of w) (undoable_of w) w.max_draw_minor
        w.undo_window_seconds o)
  run_command (undo_send id actor key request_id) =
      answered
        (undo w.digest w.policy (interceptor_of w) w.undo_window_seconds id actor key request_id)
  run_command (ask_money o) = answered (Requests.create w.request_expiry_hours o)
  run_command (accept_request a) = answered (Requests.accept w.digest w.policy (interceptor_of w) a)
  run_command (end_request role id actor request_id) =
      answered (Requests.terminate role id actor request_id)
  run_command (open_escrow o) =
      answered (Escrows.create w.digest w.policy (interceptor_of w) w.passwords w.code_digest o)
  run_command (ship_escrow id seller courier tracking key request_id) = answered (
      Escrows.ship w.digest w.policy (interceptor_of w) w.passwords w.code_digest id seller courier
        tracking key request_id)
  run_command (confirm_receipt id buyer key request_id) = answered (
      Escrows.confirm_received w.digest w.policy (interceptor_of w) w.passwords w.code_digest id
        buyer key request_id)
  run_command (dispute_escrow id buyer reason key request_id) = answered (
      Escrows.dispute w.digest w.policy (interceptor_of w) w.passwords w.code_digest id buyer reason
        key request_id)
  run_command (resolve_escrow r) =
      answered
        (Escrows.resolve_dispute w.digest w.policy (interceptor_of w) w.passwords w.code_digest r)
  run_command (enter_code c) = answered (
      release_with_code w.digest w.policy (interceptor_of w) w.passwords w.code_lock_seconds
        w.auto_release_hours c)
  run_command (report_delivery e) = answered (
      courier_delivered w.digest w.policy (interceptor_of w) w.passwords w.code_lock_seconds
        w.auto_release_hours e)
  run_command (open_pool f) = answered (create_pool w.digest (transfer_of w) f)
  run_command (add_to_pool f) = answered (fund_pool w.digest (transfer_of w) f)
  run_command (grant_pool o) = answered (grant_access w.digest w.max_draw_minor o)
  run_command (register_user r) =
      answered (register w.passwords w.tokens w.auth w.digest w.policy (interceptor_of w) r)
  run_command (log_in phone password client) =
      answered (login w.passwords w.tokens w.auth phone password client)
  run_command (refresh_session token client) =
      answered (refresh w.passwords w.tokens w.auth token client)
  run_command (log_out token) = logout w.passwords w.tokens w.auth token
  run_command run_timers = answered (run_due_tasks w)

  -- The database after an event: a transaction, committed or rolled back, or the clocks moved on.
  unfoldable pub happen : Event → Db → Db
  happen (runs c) db = (atomically (run_command c) db).1
  happen (runs_with_pin user_id pin c) db =
      (atomically (pin_protected w.passwords w.tokens w.auth user_id pin (run_command c)) db).1
  happen (time_passes now db_now) db = record db { clock = now; db_clock = db_now }

  unfoldable pub happen_all : List Event → Db → Db
  happen_all [] db = db
  happen_all (e ∷ events) db = happen_all events (happen e db)

  module _ {P : Db → Type 0} (kept : IsInvariant w.policy (interceptor_of w) P) where
    answered-Keeps : {A : Type 0} (m : Action A) → Keeps P m → Keeps P (answered m)
    unfolding answered
    answered-Keeps m keeps = Keeps-bind _ _ keeps λ _. Keeps-lift _

    run_command-Keeps : (c : Command) → Keeps P (run_command c)
    unfolding run_command
    run_command-Keeps (transfer c) = answered-Keeps _ (kept.executes c)
    run_command-Keeps (send_undoable o) = answered-Keeps _ (send-Keeps w.digest kept _ o)
    run_command-Keeps (send_with_overdraft o) = answered-Keeps _ (
        KeptOverdrafts.send-Keeps kept w.digest _ (λ order. send-Keeps w.digest kept _ order) _ _ o)
    run_command-Keeps (undo_send id actor key request_id) =
        answered-Keeps _ (undo-Keeps w.digest kept _ id actor key request_id)
    run_command-Keeps (ask_money o) = answered-Keeps _ (KeptRequests.create-Keeps kept _ o)
    run_command-Keeps (accept_request a) =
        answered-Keeps _ (KeptRequests.accept-Keeps kept w.digest a)
    run_command-Keeps (end_request role id actor request_id) =
        answered-Keeps _ (KeptRequests.terminate-Keeps kept role id actor request_id)
    run_command-Keeps (open_escrow o) =
        answered-Keeps _ (KeptEscrows.create-Keeps kept w.digest w.passwords w.code_digest o)
    run_command-Keeps (ship_escrow id seller courier tracking key request_id) = answered-Keeps _ (
        KeptEscrows.ship-Keeps kept w.digest w.passwords w.code_digest id seller courier tracking
          key request_id)
    run_command-Keeps (confirm_receipt id buyer key request_id) = answered-Keeps _ (
        KeptEscrows.confirm_received-Keeps kept w.digest w.passwords w.code_digest id buyer key
          request_id)
    run_command-Keeps (dispute_escrow id buyer reason key request_id) = answered-Keeps _ (
        KeptEscrows.dispute-Keeps kept w.digest w.passwords w.code_digest id buyer reason key
          request_id)
    run_command-Keeps (resolve_escrow r) =
        answered-Keeps _
          (KeptEscrows.resolve_dispute-Keeps kept w.digest w.passwords w.code_digest r)
    run_command-Keeps (enter_code c) =
        answered-Keeps _ (release_with_code-Keeps w.digest kept w.passwords _ _ c)
    run_command-Keeps (report_delivery e) =
        answered-Keeps _ (courier_delivered-Keeps w.digest kept w.passwords _ _ e)
    run_command-Keeps (open_pool f) =
        answered-Keeps _ (KeptOverdrafts.create_pool-Keeps kept w.digest f)
    run_command-Keeps (add_to_pool f) =
        answered-Keeps _ (KeptOverdrafts.fund_pool-Keeps kept w.digest f)
    run_command-Keeps (grant_pool o) =
        answered-Keeps _ (KeptOverdrafts.grant_access-Keeps kept w.digest _ o)
    run_command-Keeps (register_user r) =
        answered-Keeps _ (register-Keeps kept w.passwords w.tokens w.auth w.digest r)
    run_command-Keeps (log_in phone password client) =
        answered-Keeps _ (login-Keeps kept w.passwords w.tokens w.auth phone password client)
    run_command-Keeps (refresh_session token client) =
        answered-Keeps _ (refresh-Keeps kept w.passwords w.tokens w.auth token client)
    run_command-Keeps (log_out token) = logout-Keeps kept w.passwords w.tokens w.auth token
    run_command-Keeps run_timers = answered-Keeps _ (run_due_tasks-Keeps w kept)

    happen-Keeps : (e : Event) (db : Db) → P db → P (happen e db)
    unfolding happen
    happen-Keeps (runs c) db h = atomically-Keeps _ (run_command-Keeps c) db h
    happen-Keeps (runs_with_pin user_id pin c) db h =
        atomically-Keeps _
          (pin_protected-Keeps kept w.passwords w.tokens w.auth _ (run_command-Keeps c) user_id pin)
          db h
    happen-Keeps (time_passes now db_now) db h = kept.rest.clocks db now db_now h

    -- An invariant holds after every sequence of events from a database where it holds.
    pub happen_all-Keeps : (events : List Event) (db : Db) → P db → P (happen_all events db)
    unfolding happen_all
    happen_all-Keeps [] db h = h
    happen_all-Keeps (e ∷ events) db h = happen_all-Keeps events (happen e db) (happen-Keeps e db h)
