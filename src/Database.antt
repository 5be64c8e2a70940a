-- ===== src/Database.antt =====
-- One PostgreSQL session: the tables it sees, the clocks and the randomness that it draws on. An `Action`
-- is code that runs inside the caller's transaction. Locks that other sessions hold only delay a session;
-- `locks` is the order in which this one has taken account rows.
pub mod Enums
pub mod Json
pub mod Schema
pub mod Words
use money_management_pstu_ha.Prelude.{ℕ, ◌+◌, ◌*◌, ◌/◌, ◌%◌, ◌^◌, String, List, suc, leb}
use money_management_pstu_ha.Prelude.Result.{value_error}
use money_management_pstu_ha.Prelude.Exec.{Exec, gets, modify, pure, raise_if, ◌>>=◌, ◌>>◌}
use Schema.{
  Reference, AccountRecord, TransferRecord, LedgerTransactionRecord, LedgerEntryRecord,
  IdempotencyRecord, OutboxEventRecord, AuditLogRecord, MoneyRequestRecord, UserRecord,
  ScheduledTaskRecord, SafePayEscrowRecord, OverdraftPoolRecord, OverdraftGrantRecord,
  OverdraftLoanRecord, OverdraftRepaymentRecord, SessionRecord,
}

pub record Db : Type 0 where
  pub accounts : List AccountRecord
  pub transfers : List TransferRecord
  pub ledger_transactions : List LedgerTransactionRecord
  pub ledger_entries : List LedgerEntryRecord
  pub idempotency_records : List IdempotencyRecord
  pub outbox_events : List OutboxEventRecord
  pub audit_log : List AuditLogRecord
  pub money_requests : List MoneyRequestRecord
  pub users : List UserRecord
  pub scheduled_tasks : List ScheduledTaskRecord
  pub safepay_escrows : List SafePayEscrowRecord
  pub overdraft_pools : List OverdraftPoolRecord
  pub overdraft_grants : List OverdraftGrantRecord
  pub overdraft_loans : List OverdraftLoanRecord
  pub overdraft_repayments : List OverdraftRepaymentRecord
  pub sessions : List SessionRecord
  -- The application's clock, and PostgreSQL's `now()`.
  pub clock : ℕ
  pub db_clock : ℕ
  -- The numbers that `os.urandom` and `secrets` yield, and how many have been drawn.
  pub entropy : ℕ → ℕ
  pub draws : ℕ
  pub locks : List ℕ

abbrev pub Action : Type 0 → Type 0
Action = Exec Db

-- `self._clock.now()`
unfoldable pub clock_now : Action ℕ
clock_now = gets (λ db. db.clock)

-- `func.now()`
unfoldable pub database_now : Action ℕ
database_now = gets (λ db. db.db_clock)

unfoldable pub draw : Action ℕ
draw = do
  value ← gets (λ db. db.entropy db.draws)
  modify (λ db. record db { draws = suc db.draws })
  pure value

-- `new_ulid`: 48 bits of time in front of 80 random bits.
unfoldable pub new_ulid : Action ℕ
new_ulid = do
  ms ← clock_now
  raise_if (leb (2 ^ 48) ms) value_error
  randomness ← draw
  pure (ms * 2 ^ 80 + randomness % 2 ^ 80)

-- `generate_reference`: eight characters of a 32-letter alphabet.
unfoldable pub generate_reference : String → ℕ → Action Reference
generate_reference prefix now = do
  suffix ← draw
  pure (record { prefix = prefix; day = now / 86_400_000; suffix = suffix % 32 ^ 8 })
