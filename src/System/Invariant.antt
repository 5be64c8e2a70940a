-- ===== src/System/Invariant.antt =====
-- What an invariant of the database owes its statements, and so, as the modules beside this one prove, every
-- command of the backend.
use money_management_pstu_ha.Prelude.{ℕ, ◌≡◌, ◌≢◌, true, false, Bool, String, Option, none, List}
use money_management_pstu_ha.Prelude.Exec.Ensures.{
  Keeps, Keeps-bind, Keeps-lift, Keeps-gets, Keeps-modify,
}
use money_management_pstu_ha.Database.{Db}
use money_management_pstu_ha.Database.Enums.{
  TransferStatus, TaskType, RequestStatus, AccountStatus, AccountType,
}
use money_management_pstu_ha.Database.Json.{Fields}
use money_management_pstu_ha.Database.Schema.{
  ScheduledTaskRecord, UserRecord, SessionRecord, OverdraftPoolRecord, OverdraftGrantRecord,
  MoneyRequestRecord, SafePayEscrowRecord,
}
use money_management_pstu_ha.FinancialCore.Repositories.Accounts.{create_subaccount, set_status}
use money_management_pstu_ha.FinancialCore.Repositories.Transfers.{try_transition_status}
use money_management_pstu_ha.FinancialCore.Repositories.Keys.{NaturalKey, reserve, complete}
use money_management_pstu_ha.FinancialCore.Transfer.{Policy, Interceptor, TransferCommand, execute}
use money_management_pstu_ha.FinancialCore.Books.Writes.{
  IgnoresLogs, new_ulid-Keeps, database_now-Keeps,
}
use money_management_pstu_ha.MoneyRequest.Requests.{
  insert_request, mark_accepted, mark_terminal, sweep_expired,
}
use money_management_pstu_ha.SafePay.Escrows.{
  Outcome, insert_escrow, mark_shipped, mark_delivered, mark_disputed, record_code_failure,
  mark_settled, is_under_way,
}
use money_management_pstu_ha.Overdraft.Sweep.Kept.{IgnoresLoans}
use money_management_pstu_ha.Scheduling.{schedule, cancel}

-- The statuses in which a hold ends.
abbrev pub is_final : TransferStatus → Bool
is_final TransferStatus.succeeded = true
is_final TransferStatus.refunded = true
is_final TransferStatus.failed = false
is_final TransferStatus.reversed = false
is_final TransferStatus.pending_undo = false
is_final TransferStatus.held = false
is_final TransferStatus.disputed = false

-- The tables that hold no money and that no invariant here speaks of.
pub record IgnoresRest (P : Db → Type 0) : Type 0 where
  pub tasks :
      (db : Db) (rows : List ScheduledTaskRecord) → P db → P (record db { scheduled_tasks = rows })
  pub users : (db : Db) (rows : List UserRecord) → P db → P (record db { users = rows })
  pub sessions : (db : Db) (rows : List SessionRecord) → P db → P (record db { sessions = rows })
  pub pools :
      (db : Db) (rows : List OverdraftPoolRecord) → P db → P (record db { overdraft_pools = rows })
  pub grants :
      (db : Db) (rows : List OverdraftGrantRecord)
      → P db
      → P (record db { overdraft_grants = rows })
  pub clocks : (db : Db) (now db_now : ℕ) → P db → P (record db { clock = now; db_clock = db_now })

-- The statements on money requests, as the service uses them.
pub record KeptByRequests (P : Db → Type 0) : Type 0 where
  pub inserts :
      (row : MoneyRequestRecord)
      → row.status ≡ RequestStatus.pending
      → row.transfer_id ≡ none
      → Keeps P (insert_request row)
  pub accepts : (id transfer_id now : ℕ) → Keeps P (mark_accepted id transfer_id now)
  pub ends :
      (id : ℕ) (status : RequestStatus) (now : ℕ)
      → status ≢ RequestStatus.accepted
      → Keeps P (mark_terminal id status now)
  pub sweeps : (now : ℕ) → Keeps P (sweep_expired now)

-- The statements on escrows.
pub record KeptByEscrows (P : Db → Type 0) : Type 0 where
  pub inserts :
      (row : SafePayEscrowRecord)
      → is_under_way row.status ≡ true
      → row.settlement_transfer_id ≡ none
      → Keeps P (insert_escrow row)
  pub ships :
      (id seller : ℕ) (courier tracking : String) (now : ℕ)
      → Keeps P (mark_shipped id seller courier tracking now)
  pub delivers : (id now release_at : ℕ) → Keeps P (mark_delivered id now release_at)
  pub disputes :
      (id buyer : ℕ) (reason : String) (now : ℕ) → Keeps P (mark_disputed id buyer reason now)
  pub counts :
      (id attempts : ℕ) (until : Option ℕ) (now : ℕ)
      → Keeps P (record_code_failure id attempts until now)
  pub settles :
      (id : ℕ) (outcome : Outcome) (transfer_id now : ℕ) (note : Option String)
      → Keeps P (mark_settled id outcome transfer_id now note)

pub record IsInvariant (policy : Policy) (interceptor : Interceptor) (P : Db → Type 0)
    : Type 0 where
  pub logs : IgnoresLogs P
  pub rest : IgnoresRest P
  pub loans : IgnoresLoans P
  pub executes : (command : TransferCommand) → Keeps P (execute policy interceptor command)
  pub reserves :
      (key : NaturalKey) (fingerprint : String) (now : ℕ) → Keeps P (reserve key fingerprint now)
  pub completes :
      (key : NaturalKey) (resource_id http_status : ℕ) (body : Fields) (now : ℕ)
      → Keeps P (complete key resource_id http_status body now)
  pub latches :
      (id : ℕ) (from_status to_status : TransferStatus)
      → is_final to_status ≡ true
      → Keeps P (try_transition_status id from_status to_status)
  pub opens :
      (id : ℕ) (user_id : Option ℕ) (type : AccountType) (number currency : String) (now : ℕ)
      → Keeps P (create_subaccount id user_id type number currency now)
  pub closes : (id : ℕ) (status : AccountStatus) → Keeps P (set_status id status)
  pub requests : KeptByRequests P
  pub escrows : KeptByEscrows P

module _ {policy : Policy} {interceptor : Interceptor} {P : Db → Type 0}
    (kept : IsInvariant policy interceptor P) where
  pub schedule-Keeps : (t : TaskType) (resource delay : ℕ) → Keeps P (schedule t resource delay)
  unfolding schedule
  schedule-Keeps t resource delay = Keeps-bind _ _ (new_ulid-Keeps kept.logs) λ id.
      Keeps-bind _ _ (database_now-Keeps kept.logs)
        λ now. Keeps-bind _ _ (Keeps-modify _ (λ db h. kept.rest.tasks db _ h)) λ _. Keeps-lift _

  pub cancel-Keeps : (t : TaskType) (resource : ℕ) → Keeps P (cancel t resource)
  unfolding cancel
  cancel-Keeps t resource = Keeps-bind _ _ (database_now-Keeps kept.logs) λ now.
      Keeps-bind _ _ (Keeps-gets _)
        λ rows. Keeps-bind _ _ (Keeps-modify _ (λ db h. kept.rest.tasks db _ h)) λ _. Keeps-lift _
