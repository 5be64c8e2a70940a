-- ===== src/System/MoneyFacts.antt =====
-- What is said of money alone is kept by every statement on money requests, escrows, users, sessions, timers and
-- overdrafts.
use money_management_pstu_ha.Prelude.{◌≡◌, refl}
use money_management_pstu_ha.Prelude.Exec.{modify}
use money_management_pstu_ha.Prelude.Exec.Ensures.{Keeps, keeps_rules, Keeps-modify}
use money_management_pstu_ha.Database.{Db}
use money_management_pstu_ha.FinancialCore.Books.Writes.{IgnoresLogs, IsBookFact}
use money_management_pstu_ha.MoneyRequest.Requests.{
  insert_request, mark_accepted, mark_terminal, sweep_expired,
}
use money_management_pstu_ha.SafePay.Escrows.{
  insert_escrow, mark_shipped, mark_delivered, mark_disputed, record_code_failure, mark_settled,
}
use money_management_pstu_ha.Overdraft.Sweep.Kept.{IgnoresLoans}
use money_management_pstu_ha.System.Invariant.{IgnoresRest, KeptByRequests, KeptByEscrows}

-- A statement about balances, entries and transfers alone.
pub record IsMoneyFact (P : Db → Type 0) : Type 0 where
  pub carry :
      (db db' : Db)
      → db'.accounts ≡ db.accounts
      → db'.ledger_entries ≡ db.ledger_entries
      → db'.transfers ≡ db.transfers
      → P db
      → P db'

pub to_money : {P : Db → Type 0} → IsBookFact P → IsMoneyFact P
to_money fact = record { carry = λ db db' a e t h. fact.carry db db' a e h }

module _ {P : Db → Type 0} (fact : IsMoneyFact P) where
  pub money_write-Keeps :
      (f : Db → Db)
      → ((db : Db) → (f db).accounts ≡ db.accounts)
      → ((db : Db) → (f db).ledger_entries ≡ db.ledger_entries)
      → ((db : Db) → (f db).transfers ≡ db.transfers)
      → Keeps P (modify f)
  money_write-Keeps f a e t = Keeps-modify f λ db h. fact.carry db (f db) (a db) (e db) (t db) h

  pub money-IgnoresLogs : IgnoresLogs P
  money-IgnoresLogs = record {
    draws = λ db n h. fact.carry db _ refl refl refl h;
    locks = λ db ids h. fact.carry db _ refl refl refl h;
    transactions = λ db rows h. fact.carry db _ refl refl refl h;
    outbox = λ db rows h. fact.carry db _ refl refl refl h;
    audits = λ db rows h. fact.carry db _ refl refl refl h;
  }

  pub money-IgnoresRest : IgnoresRest P
  money-IgnoresRest = record {
    tasks = λ db rows h. fact.carry db _ refl refl refl h;
    users = λ db rows h. fact.carry db _ refl refl refl h;
    sessions = λ db rows h. fact.carry db _ refl refl refl h;
    pools = λ db rows h. fact.carry db _ refl refl refl h;
    grants = λ db rows h. fact.carry db _ refl refl refl h;
    clocks = λ db now db_now h. fact.carry db _ refl refl refl h;
  }

  pub money-IgnoresLoans : IgnoresLoans P
  money-IgnoresLoans = record {
    loans = λ db rows h. fact.carry db _ refl refl refl h;
    repayments = λ db rows h. fact.carry db _ refl refl refl h;
  }

  pub money-KeptByRequests : KeptByRequests P
  unfolding insert_request mark_accepted mark_terminal sweep_expired
  money-KeptByRequests = record {
    inserts = λ row _ _. search (keeps_rules, money_write-Keeps) depth 12;
    accepts = λ id transfer_id now. search (keeps_rules, money_write-Keeps) depth 12;
    ends = λ id status now _. search (keeps_rules, money_write-Keeps) depth 8;
    sweeps = λ now. search (keeps_rules, money_write-Keeps) depth 8;
  }

  pub money-KeptByEscrows : KeptByEscrows P
  unfolding insert_escrow mark_shipped mark_delivered mark_disputed record_code_failure mark_settled
  money-KeptByEscrows = record {
    inserts = λ row _ _. search (keeps_rules, money_write-Keeps) depth 12;
    ships = λ id seller courier tracking now. search (keeps_rules, money_write-Keeps) depth 8;
    delivers = λ id now release_at. search (keeps_rules, money_write-Keeps) depth 8;
    disputes = λ id buyer reason now. search (keeps_rules, money_write-Keeps) depth 8;
    counts = λ id attempts until now. money_write-Keeps _ (λ db. refl) (λ db. refl) (λ db. refl);
    settles = λ id outcome transfer_id now memo. search (keeps_rules, money_write-Keeps) depth 12;
  }
