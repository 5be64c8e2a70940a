-- ===== src/Lib.antt =====
-- The backend of a closed-loop money service (backend/): a financial core, and the use cases that move money
-- through it. A transfer reserves its idempotency key,
-- locks its two account rows in a fixed order, checks every rule again on the locked rows, writes both
-- balances, the transfer row and a balanced posting, appends an event and an audit line, and stores its
-- response; all of this is one database transaction.
--
-- Which file models which part:
-- - Prelude: tests, tables as lists, integers (Prelude.Int), results and exceptions (Prelude.Result), code
--   that reads and writes a session and may raise (Prelude.Exec), and what such code guarantees when it
--   returns (Prelude.Exec.Ensures). `atomically` is `UnitOfWork.transaction` of
--   backend/platform_/database/unit_of_work.py: an exception undoes every write.
-- - Kernel.Money and Kernel.Ids: backend/platform_/kernel/money.py and ids.py.
-- - Database: the tables (adapters/persistence/models.py of the modules, backend/modules/audit/models.py,
--   backend/platform_/messaging/models.py, backend/platform_/scheduling/models.py), the clocks, and the
--   entropy of backend/platform_/kernel/ids.py, as one record `Db`. A table is the list of its rows.
-- - FinancialCore.Account, Ledger, Policies, Idempotency: backend/modules/financial_core/domain and
--   application/idempotency.py.
-- - FinancialCore.Repositories: backend/modules/financial_core/adapters/persistence/repositories.py, a file
--   for each repository and a definition for each method.
-- - FinancialCore.Transfer: backend/modules/financial_core/application/transfer.py. `execute` is cut at the
--   comments that number its steps: `perform` from step 2, `revalidate` step 3, `apply_movement` step 4,
--   `record_movement` steps 5 and 6, `announce` step 7; the commands and results are in Transfer.Command. The
--   optional interceptor is an `Interceptor`, whose
--   laws are Books.Execution.InterceptorLaws.
-- - FinancialCore.Holding, Undo and Opening: application/holding.py, undo.py and open_account.py of the same
--   module.
-- - Identity: backend/modules/identity (Users and Sessions its repositories, Auth the service), and
--   `run_pin_protected` of backend/apps/api/dependencies.py. A registration that breaks the unique index is the
--   error that `as_conflict` makes of it.
-- - MoneyRequest: backend/modules/money_request (Requests the repository, Service the service).
-- - SafePay: backend/modules/safepay (Escrows the repository, Service with Commands and Delivery the service,
--   Settlement its `_release_locked` and `_refund_locked`). Lifecycle is the state machine that they implement.
-- - Overdraft: backend/modules/overdraft (Pools and Loans the repository, Service the pools and grants, Send the
--   send that borrows, Sweep the interceptor).
-- - Scheduling: backend/platform_/scheduling/repository.py.
-- - Reconciliation: backend/modules/reconciliation/service.py.
-- - System: the components wired as in backend/apps/api/container.py (Wiring), a batch of timers of
--   backend/apps/scheduler_worker/main.py (Worker), and any sequence of transactions and clock changes (Steps).
--   System.Invariant says what an invariant must survive, and the files beside it, one for each component,
--   prove that every operation then keeps it.
-- - FinancialCore.Books: the invariant that backend/modules/reconciliation/service.py recomputes, and the
--   proof that a transfer keeps it, statement by statement; Books.Windows is about all sequences of steps.
--
-- Conventions: an identifier is the number that its ULID encodes and a time is in milliseconds. Where a
-- response holds the text of a time (`isoformat`, read again by `fromisoformat`), the model holds the number. A Python
-- int is an unbounded ℤ. The text of an amount is the list of its code points. Fuel stands in two
-- places: the decimal printer has one more than the number printed, and so more than its digits; and the
-- overdraft interceptor, whose repayments are transfers that it intercepts too, is followed one call deep,
-- which is as good as any depth, since a repayment is intercepted to no effect.
--
-- Not modelled: other sessions (row locks and the unique indexes only delay them; `locks` records the order
-- of this session's locks), the retry loop of `UnitOfWork.run`, foreign keys but the one from entries to
-- accounts, text lengths and patterns of columns, logging, HTTP, Redis, the outbox relay and the notification
-- worker, reads that only list rows for a screen (statements, the overdraft summary, the timer backlog), and the
-- group wallets and payment links, which are tables without code. Argon2, JWT, the HMAC of a delivery code and
-- SHA-256 over JSON text are parameters (`Passwords`, `TokenService`, `code_digest`, `digest`).
pub mod Prelude
pub mod Kernel
pub mod Database
pub mod FinancialCore
pub mod Identity
pub mod MoneyRequest
pub mod Overdraft
pub mod Reconciliation
pub mod SafePay
pub mod Scheduling
pub mod System
