-- ===== src/FinancialCore/Books/Frames.antt =====
-- What `TransferUseCase.execute` (backend/modules/financial_core/application/transfer.py) leaves as it was. A
-- frame is a statement that the statements of a transfer keep, each for its own reason; so the transfer keeps it.
use money_management_pstu_ha.Prelude.{ℕ, ◌≡◌, refl, String, Option, List}
use money_management_pstu_ha.Prelude.Exec.{modify}
use money_management_pstu_ha.Prelude.Exec.Ensures.{
  Keeps, keeps_rules, Keeps-bind, Keeps-lift, Keeps-modify, Keeps-option_case,
}
use money_management_pstu_ha.Kernel.Money.{Money}
use money_management_pstu_ha.Database.{Db}
use money_management_pstu_ha.Database.Enums.{TransferKind}
use money_management_pstu_ha.Database.Json.{Fields}
use money_management_pstu_ha.Database.Schema.{LedgerEntryRecord, TransferRecord}
use money_management_pstu_ha.FinancialCore.Account.{Account}
use money_management_pstu_ha.FinancialCore.Ledger.{LedgerPosting}
use money_management_pstu_ha.FinancialCore.Repositories.Accounts.{persist_balance}
use money_management_pstu_ha.FinancialCore.Repositories.Transfers.{insert_transfer}
use money_management_pstu_ha.FinancialCore.Repositories.Postings.{insert_entries, post}
use money_management_pstu_ha.FinancialCore.Repositories.Keys.{NaturalKey, reserve, complete}
use money_management_pstu_ha.FinancialCore.Transfer.{
  Policy, Interceptor, TransferCommand, apply_movement, record_movement, move_money, revalidate,
  perform, execute,
}
use money_management_pstu_ha.FinancialCore.Books.Writes.{
  IgnoresLogs, clock_now-Keeps, new_ulid-Keeps, generate_reference-Keeps, entries_of-Keeps,
  insert_transaction-Keeps, lock_for_update-Keeps,
}
use money_management_pstu_ha.FinancialCore.Books.Execution.{announce-Keeps, check_limits-Keeps}

-- The statements of a transfer.
pub record KeptByStatements (P : Db → Type 0) : Type 0 where
  pub logs : IgnoresLogs P
  pub persists : (account : Account) → Keeps P (persist_balance account)
  pub posts : (rows : List LedgerEntryRecord) → Keeps P (insert_entries rows)
  pub inserts : (row : TransferRecord) → Keeps P (insert_transfer row)
  pub reserves :
      (key : NaturalKey) (fingerprint : String) (now : ℕ) → Keeps P (reserve key fingerprint now)
  pub completes :
      (key : NaturalKey) (resource_id http_status : ℕ) (body : Fields) (now : ℕ)
      → Keeps P (complete key resource_id http_status body now)

pub record KeptByInterceptor (P : Db → Type 0) (interceptor : Interceptor) : Type 0 where
  pub names_locks :
      (receiver : ℕ) (kind : TransferKind) → Keeps P (interceptor.additional_lock_ids receiver kind)
  pub credits :
      (incoming : ℕ) (receiver : Account) (amount : Money) (kind : TransferKind)
      (request_id : Option String)
      → Keeps P (interceptor.after_credit incoming receiver amount kind request_id)

-- A statement about the tables that no transfer writes by itself.
pub record IsAside (P : Db → Type 0) : Type 0 where
  pub carry :
      (db db' : Db)
      → db'.money_requests ≡ db.money_requests
      → db'.users ≡ db.users
      → db'.sessions ≡ db.sessions
      → db'.safepay_escrows ≡ db.safepay_escrows
      → db'.overdraft_loans ≡ db.overdraft_loans
      → db'.overdraft_repayments ≡ db.overdraft_repayments
      → P db
      → P db'

module _ {P : Db → Type 0} (aside : IsAside P) where
  -- A write to any other table.
  pub aside-Keeps :
      (f : Db → Db)
      → ((db : Db) → (f db).money_requests ≡ db.money_requests)
      → ((db : Db) → (f db).users ≡ db.users)
      → ((db : Db) → (f db).sessions ≡ db.sessions)
      → ((db : Db) → (f db).safepay_escrows ≡ db.safepay_escrows)
      → ((db : Db) → (f db).overdraft_loans ≡ db.overdraft_loans)
      → ((db : Db) → (f db).overdraft_repayments ≡ db.overdraft_repayments)
      → Keeps P (modify f)
  aside-Keeps f a b c d e g =
      Keeps-modify f λ db h. aside.carry db (f db) (a db) (b db) (c db) (d db) (e db) (g db) h

  pub aside-IgnoresLogs : IgnoresLogs P
  aside-IgnoresLogs = record {
    draws = λ db n h. aside.carry db _ refl refl refl refl refl refl h;
    locks = λ db ids h. aside.carry db _ refl refl refl refl refl refl h;
    transactions = λ db rows h. aside.carry db _ refl refl refl refl refl refl h;
    outbox = λ db rows h. aside.carry db _ refl refl refl refl refl refl h;
    audits = λ db rows h. aside.carry db _ refl refl refl refl refl refl h;
  }

  pub aside-KeptByStatements : KeptByStatements P
  unfolding insert_transfer persist_balance insert_entries reserve complete
  aside-KeptByStatements = record {
    logs = aside-IgnoresLogs;
    persists = λ account. search (keeps_rules, aside-Keeps) depth 12;
    posts = λ rows. search (keeps_rules, aside-Keeps) depth 12;
    inserts = λ row. search (keeps_rules, aside-Keeps) depth 12;
    reserves = λ key fingerprint now. search (keeps_rules, aside-Keeps) depth 12;
    completes = λ key resource_id http_status body now. search (keeps_rules, aside-Keeps) depth 8;
  }

module _ {P : Db → Type 0} (free : IgnoresLogs P)
    (persists : (account : Account) → Keeps P (persist_balance account))
    (posts : (rows : List LedgerEntryRecord) → Keeps P (insert_entries rows)) where
  pub apply_movement-Keeps :
      (sender receiver : Account) (total amount : Money)
      → Keeps P (apply_movement sender receiver total amount)
  unfolding apply_movement
  apply_movement-Keeps sender receiver total amount = search (keeps_rules, persists) depth 10

  pub post-Keeps :
      (posting : LedgerPosting) (id : ℕ) (kind : TransferKind) (text : Option String)
      (balances : List (ℕ × Money)) (now : ℕ)
      → Keeps P (post posting id kind text balances now)
  unfolding post
  post-Keeps posting id kind text balances now = Keeps-bind _ _ (new_ulid-Keeps free) λ _.
      Keeps-bind _ _ (insert_transaction-Keeps free _) λ _.
        Keeps-bind _ _ (entries_of-Keeps free _ _ _ _)
          λ rows. Keeps-bind _ _ (posts rows) λ _. Keeps-lift _

  pub revalidate-Keeps :
      (policy : Policy) (sender receiver : Account) (command : TransferCommand) (now : ℕ)
      → Keeps P (revalidate policy sender receiver command now)
  unfolding revalidate
  revalidate-Keeps policy sender receiver command now =
      search (keeps_rules, check_limits-Keeps free) depth 16

module _ {P : Db → Type 0} (frame : KeptByStatements P) where
  record_movement-Keeps :
      (sender receiver : Account) (command : TransferCommand) (now : ℕ)
      → Keeps P (record_movement sender receiver command now)
  unfolding record_movement
  record_movement-Keeps sender receiver command now =
      Keeps-bind _ _ (new_ulid-Keeps frame.logs) λ _.
        Keeps-bind _ _ (generate_reference-Keeps frame.logs _ _) λ _.
          Keeps-bind _ _ (frame.inserts _) λ _. Keeps-bind _ _ (Keeps-lift _) λ posting.
            Keeps-bind _ _ (post-Keeps frame.logs frame.persists frame.posts posting _ _ _ _ _)
              λ _. Keeps-lift _

  pub move_money-Keeps :
      (policy : Policy) (sender receiver : Account) (command : TransferCommand) (total : Money)
      (now : ℕ)
      → Keeps P (move_money policy sender receiver command total now)
  unfolding move_money
  move_money-Keeps policy sender receiver command total now =
      Keeps-bind _ _ (apply_movement-Keeps frame.logs frame.persists frame.posts _ _ _ _) λ both.
        Keeps-bind _ _ (record_movement-Keeps _ _ _ _)
          λ recorded. Keeps-bind _ _ (announce-Keeps frame.logs _ _ _ _ _ _ _) λ _. Keeps-lift _

module _ {P : Db → Type 0} (frame : KeptByStatements P) (interceptor : Interceptor)
    (intercepted : KeptByInterceptor P interceptor) where
  pub perform-Keeps :
      (policy : Policy) (command : TransferCommand) (now : ℕ)
      → Keeps P (perform policy interceptor command now)
  unfolding perform
  perform-Keeps policy command now = Keeps-bind _ _ (Keeps-lift _) λ _.
      Keeps-bind _ _ (intercepted.names_locks _ _) λ extra.
        Keeps-bind _ _ (lock_for_update-Keeps frame.logs _) λ locked.
          Keeps-bind _ _ (Keeps-lift _) λ sender. Keeps-bind _ _ (Keeps-lift _) λ receiver.
            Keeps-bind _ _ (revalidate-Keeps frame.logs frame.persists frame.posts _ _ _ _ _)
              λ total. Keeps-bind _ _ (move_money-Keeps frame _ _ _ _ _ _) λ moved.
                Keeps-bind _ _ (intercepted.credits _ _ _ _ _)
                  λ _. Keeps-bind _ _ (frame.completes _ _ _ _ _) λ _. Keeps-lift _

  pub execute-Keeps :
      (policy : Policy) (command : TransferCommand) → Keeps P (execute policy interceptor command)
  unfolding execute
  execute-Keeps policy command = Keeps-bind _ _ (clock_now-Keeps frame.logs) λ now.
      Keeps-bind _ _ (frame.reserves _ _ _) λ decision.
        Keeps-bind _ _ (Keeps-lift _)
          λ replayed. Keeps-option_case _ _ _ (perform-Keeps policy command now) λ r. Keeps-lift _
