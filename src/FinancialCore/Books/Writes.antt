-- ===== src/FinancialCore/Books/Writes.antt =====
-- The statements that touch neither a balance nor an entry: what is known of the books still holds.
use money_management_pstu_ha.Prelude.{ℕ, ◌≡◌, refl, String, Option, List, [], ◌∷◌}
use money_management_pstu_ha.Prelude.Int.{ℤ}
use money_management_pstu_ha.Prelude.Exec.{modify}
use money_management_pstu_ha.Prelude.Exec.Ensures.{
  Keeps, Keeps-modify, Keeps-bind, Keeps-lift, keeps_rules,
}
use money_management_pstu_ha.Database.{
  Db, draw, clock_now, database_now, new_ulid, generate_reference,
}
use money_management_pstu_ha.Database.Enums.{TransferStatus}
use money_management_pstu_ha.Database.Json.{Fields}
use money_management_pstu_ha.Database.Schema.{
  TransferRecord, LedgerTransactionRecord, OutboxEventRecord, AuditLogRecord,
}
use money_management_pstu_ha.FinancialCore.Account.{Account}
use money_management_pstu_ha.FinancialCore.Ledger.{PostingLine}
use money_management_pstu_ha.Kernel.Money.{Money}
use money_management_pstu_ha.FinancialCore.Repositories.Accounts.{
  lock_for_update, find_account, get_by_id, get_by_user_id, get_by_phone,
}
use money_management_pstu_ha.FinancialCore.Repositories.Transfers.{
  insert_transfer, try_transition_status, sum_sent_since, get,
}
use money_management_pstu_ha.FinancialCore.Repositories.Postings.{
  entry_of, entries_of, insert_transaction,
}
use money_management_pstu_ha.FinancialCore.Repositories.Keys.{NaturalKey, reserve, complete}
use money_management_pstu_ha.FinancialCore.Repositories.Outbox.{
  DomainEvent, append_event, record_audit,
}
use money_management_pstu_ha.FinancialCore.Books.{IsSoundUpTo, IsCurrent}

-- A statement about the balances and the entries alone.
pub record IsBookFact (P : Db → Type 0) : Type 0 where
  pub carry :
      (db db' : Db)
      → db'.accounts ≡ db.accounts
      → db'.ledger_entries ≡ db.ledger_entries
      → P db
      → P db'

pub IsSoundUpTo-IsBookFact : (pending : ℕ → ℤ) (drift : ℤ) → IsBookFact (IsSoundUpTo pending drift)
IsSoundUpTo-IsBookFact pending drift = record {
  carry = λ db db' a e h. record {
    derived = rw (a, e) h.derived;
    floored = rw a h.floored;
    total = rw a h.total;
    zero_sum = rw e h.zero_sum;
  };
}

pub IsCurrent-IsBookFact : (account : Account) → IsBookFact (IsCurrent account)
unfolding find_account
IsCurrent-IsBookFact account = record {
  carry =
      λ db db' a e h. record { row = h.row; found = rw a h.found; same_balance = h.same_balance };
}

pub both-IsBookFact :
    {P Q : Db → Type 0} → IsBookFact P → IsBookFact Q → IsBookFact (λ db. P db × Q db)
both-IsBookFact p q = record {
  carry = λ db db' a e h. (p.carry db db' a e h.0, q.carry db db' a e h.1);
}

-- The tables that nothing is concluded from: a statement that does not speak of them, nor of the clock, the
-- randomness and the order of the locks.
pub record IgnoresLogs (P : Db → Type 0) : Type 0 where
  pub draws : (db : Db) (n : ℕ) → P db → P (record db { draws = n })
  pub locks : (db : Db) (ids : List ℕ) → P db → P (record db { locks = ids })
  pub transactions :
      (db : Db) (rows : List LedgerTransactionRecord)
      → P db
      → P (record db { ledger_transactions = rows })
  pub outbox :
      (db : Db) (rows : List OutboxEventRecord) → P db → P (record db { outbox_events = rows })
  pub audits : (db : Db) (rows : List AuditLogRecord) → P db → P (record db { audit_log = rows })

pub logs : {P : Db → Type 0} → IsBookFact P → IgnoresLogs P
logs fact = record {
  draws = λ db n h. fact.carry db _ refl refl h;
  locks = λ db ids h. fact.carry db _ refl refl h;
  transactions = λ db rows h. fact.carry db _ refl refl h;
  outbox = λ db rows h. fact.carry db _ refl refl h;
  audits = λ db rows h. fact.carry db _ refl refl h;
}

module _ {P : Db → Type 0} (ignores : IgnoresLogs P) where
  draws-Keeps : (n : Db → ℕ) → Keeps P (modify (λ db. record db { draws = n db }))
  draws-Keeps n = Keeps-modify _ (λ db h. ignores.draws db (n db) h)

  locks-Keeps : (ids : Db → List ℕ) → Keeps P (modify (λ db. record db { locks = ids db }))
  locks-Keeps ids = Keeps-modify _ (λ db h. ignores.locks db (ids db) h)

  transactions-Keeps :
      (rows : Db → List LedgerTransactionRecord)
      → Keeps P (modify (λ db. record db { ledger_transactions = rows db }))
  transactions-Keeps rows = Keeps-modify _ (λ db h. ignores.transactions db (rows db) h)

  outbox-Keeps :
      (rows : Db → List OutboxEventRecord)
      → Keeps P (modify (λ db. record db { outbox_events = rows db }))
  outbox-Keeps rows = Keeps-modify _ (λ db h. ignores.outbox db (rows db) h)

  audits-Keeps :
      (rows : Db → List AuditLogRecord) → Keeps P (modify (λ db. record db { audit_log = rows db }))
  audits-Keeps rows = Keeps-modify _ (λ db h. ignores.audits db (rows db) h)

  pub draw-Keeps : Keeps P draw
  unfolding draw
  draw-Keeps = search (keeps_rules, draws-Keeps) depth 8

  pub clock_now-Keeps : Keeps P clock_now
  unfolding clock_now
  clock_now-Keeps = search keeps_rules

  pub database_now-Keeps : Keeps P database_now
  unfolding database_now
  database_now-Keeps = search keeps_rules

  pub new_ulid-Keeps : Keeps P new_ulid
  unfolding new_ulid
  new_ulid-Keeps = search (keeps_rules, draw-Keeps, clock_now-Keeps) depth 8

  pub generate_reference-Keeps :
      (prefix : String) (now : ℕ) → Keeps P (generate_reference prefix now)
  unfolding generate_reference
  generate_reference-Keeps prefix now = search (keeps_rules, draw-Keeps) depth 8

  pub sum_sent_since-Keeps : (id since : ℕ) → Keeps P (sum_sent_since id since)
  unfolding sum_sent_since
  sum_sent_since-Keeps id since = search keeps_rules

  pub get-Keeps : (id : ℕ) → Keeps P (get id)
  unfolding get
  get-Keeps id = search keeps_rules

  entry_of-Keeps :
      (id : ℕ) (balances : List (ℕ × Money)) (now : ℕ) (line : PostingLine)
      → Keeps P (entry_of id balances now line)
  unfolding entry_of
  entry_of-Keeps id balances now line = search (keeps_rules, new_ulid-Keeps) depth 8

  pub entries_of-Keeps :
      (id : ℕ) (balances : List (ℕ × Money)) (now : ℕ) (lines : List PostingLine)
      → Keeps P (entries_of id balances now lines)
  unfolding entries_of
  entries_of-Keeps id balances now [] = search keeps_rules
  entries_of-Keeps id balances now (line ∷ lines) =
      Keeps-bind _ _ (entry_of-Keeps id balances now line)
        λ entry. Keeps-bind _ _ (entries_of-Keeps id balances now lines) λ rest. Keeps-lift _

  pub insert_transaction-Keeps : (row : LedgerTransactionRecord) → Keeps P (insert_transaction row)
  unfolding insert_transaction
  insert_transaction-Keeps row = search (keeps_rules, transactions-Keeps) depth 8

  pub append_event-Keeps :
      (event : DomainEvent) (trace_id : Option String) → Keeps P (append_event event trace_id)
  unfolding append_event
  append_event-Keeps event trace_id = search (keeps_rules, outbox-Keeps, new_ulid-Keeps) depth 8

  pub record_audit-Keeps :
      (actor : Option ℕ) (action resource_type : String) (resource_id : Option ℕ)
      (request_id : Option String) (metadata : Option Fields) (now : ℕ)
      → Keeps P (record_audit actor action resource_type resource_id request_id metadata now)
  unfolding record_audit
  record_audit-Keeps actor action resource_type resource_id request_id metadata now =
      search (keeps_rules, audits-Keeps, new_ulid-Keeps) depth 8

  pub lock_for_update-Keeps : (ids : List ℕ) → Keeps P (lock_for_update ids)
  unfolding lock_for_update
  lock_for_update-Keeps ids = search (keeps_rules, locks-Keeps) depth 8

  pub get_by_id-Keeps : (id : ℕ) → Keeps P (get_by_id id)
  unfolding get_by_id
  get_by_id-Keeps id = search keeps_rules depth 8

  pub get_by_user_id-Keeps : (id : ℕ) → Keeps P (get_by_user_id id)
  unfolding get_by_user_id
  get_by_user_id-Keeps id = search keeps_rules depth 8

  pub get_by_phone-Keeps : (phone : String) → Keeps P (get_by_phone phone)
  unfolding get_by_phone
  get_by_phone-Keeps phone = search (keeps_rules, get_by_user_id-Keeps) depth 8

module _ {P : Db → Type 0} (fact : IsBookFact P) where
  pub write-Keeps :
      (f : Db → Db)
      → ((db : Db) → (f db).accounts ≡ db.accounts)
      → ((db : Db) → (f db).ledger_entries ≡ db.ledger_entries)
      → Keeps P (modify f)
  write-Keeps f a e = Keeps-modify f (λ db h. fact.carry db (f db) (a db) (e db) h)

  pub insert_transfer-Keeps : (row : TransferRecord) → Keeps P (insert_transfer row)
  unfolding insert_transfer
  insert_transfer-Keeps row = search (keeps_rules, write-Keeps) depth 12

  pub try_transition_status-Keeps :
      (id : ℕ) (from_status to_status : TransferStatus)
      → Keeps P (try_transition_status id from_status to_status)
  unfolding try_transition_status database_now
  try_transition_status-Keeps id from_status to_status = search (keeps_rules, write-Keeps) depth 12

  pub reserve-Keeps :
      (k : NaturalKey) (fingerprint : String) (now : ℕ) → Keeps P (reserve k fingerprint now)
  unfolding reserve
  reserve-Keeps k fingerprint now = search (keeps_rules, write-Keeps) depth 8

  pub complete-Keeps :
      (k : NaturalKey) (resource_id http_status : ℕ) (body : Fields) (now : ℕ)
      → Keeps P (complete k resource_id http_status body now)
  unfolding complete
  complete-Keeps k resource_id http_status body now = search (keeps_rules, write-Keeps)
