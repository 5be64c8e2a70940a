-- ===== src/System/Keys.antt =====
-- A transfer command and its idempotency key, over the whole backend
-- (backend/modules/financial_core/application/transfer.py).
use money_management_pstu_ha.Prelude.{
  ℕ, ◌≡◌, refl, Bool, true, false, some, List, [], ◌∷◌, ◌++◌, arith, find, update, String, str_eq,
  Bool-cases, inl, inr,
}
use money_management_pstu_ha.Prelude.Exec.{modify}
use money_management_pstu_ha.Prelude.Exec.Ensures.{
  Keeps, keeps_rules, Keeps-bind, Keeps-lift, Keeps-gets, Keeps-modify, Keeps-option_case,
}
use money_management_pstu_ha.Database.{Db, database_now}
use money_management_pstu_ha.Database.Json.{Fields}
use money_management_pstu_ha.Database.Enums.{IdempotencyStatus}
use money_management_pstu_ha.Database.Schema.{IdempotencyRecord}
use money_management_pstu_ha.FinancialCore.Repositories.Accounts.{
  persist_balance, create_subaccount, set_status,
}
use money_management_pstu_ha.FinancialCore.Repositories.Transfers.{
  insert_transfer, try_transition_status,
}
use money_management_pstu_ha.FinancialCore.Repositories.Postings.{insert_entries}
use money_management_pstu_ha.FinancialCore.Repositories.Keys.{
  NaturalKey, matches, find_key, reserve, complete, completed_with,
}
use money_management_pstu_ha.FinancialCore.Books.Frames.{KeptByStatements, execute-Keeps}
use money_management_pstu_ha.MoneyRequest.Requests.{
  insert_request, mark_accepted, mark_terminal, sweep_expired,
}
use money_management_pstu_ha.SafePay.Escrows.{
  insert_escrow, mark_shipped, mark_delivered, mark_disputed, record_code_failure, mark_settled,
}
use money_management_pstu_ha.Overdraft.Sweep.Kept.{IgnoresLoans, interceptor_at-Keeps}
use money_management_pstu_ha.System.Invariant.{IsInvariant, KeptByRequests, KeptByEscrows}
use money_management_pstu_ha.System.Wiring.{Wiring, interceptor_of}

-- The key is on record with this fingerprint, and completed if `done`.
pub record IsSeen (done : Bool) (k : NaturalKey) (fingerprint : String) (db : Db) : Type 0 where
  pub row : IdempotencyRecord
  pub found : find_key k db ≡ some row
  pub same : str_eq row.request_fingerprint fingerprint ≡ true
  pub completed : done ≡ true → row.status ≡ IdempotencyStatus.completed

find-front :
    (test : IdempotencyRecord → Bool) (front back : List IdempotencyRecord) (r : IdempotencyRecord)
    → find test front ≡ some r
    → find test (front ++ back) ≡ some r
unfolding find
find-front test [] back r found = ground arith
find-front test (x ∷ front) back r found = ground (arith, find-front test front back r, found)

-- What is found of one key after the completion of a key: the same row, or the row completed.
pub find-completed :
    (k : NaturalKey) (hit : IdempotencyRecord → Bool) (f : IdempotencyRecord → IdempotencyRecord)
    → ((r : IdempotencyRecord) → matches k (f r) ≡ matches k r)
    → (rows : List IdempotencyRecord) (r : IdempotencyRecord) → find (matches k) rows ≡ some r
    → (hit r ≡ true → find (matches k) (update hit f rows) ≡ some (f r))
      × (hit r ≡ false → find (matches k) (update hit f rows) ≡ some r)
unfolding find update
find-completed k hit f same [] r found = (λ _. ground arith, λ _. ground arith)
find-completed k hit f same (x ∷ rows) r found =
    let later = find-completed k hit f same rows r in
    (
      λ seen. ground (arith, same x, later, found, seen),
      λ unseen. ground (arith, same x, later, found, unseen),
    )

module _ (done : Bool) (k : NaturalKey) (fingerprint : String) where
  carry :
      (db db' : Db)
      → db'.idempotency_records ≡ db.idempotency_records
      → IsSeen done k fingerprint db
      → IsSeen done k fingerprint db'
  unfolding find_key
  carry db db' records h = record {
    row = h.row;
    found = rw records h.found;
    same = h.same;
    completed = h.completed;
  }

  elsewhere :
      (f : Db → Db)
      → ((db : Db) → (f db).idempotency_records ≡ db.idempotency_records)
      → Keeps (IsSeen done k fingerprint) (modify f)
  elsewhere f records = Keeps-modify f λ db h. carry db (f db) (records db) h

  reserve-IsSeen :
      (key : NaturalKey) (print : String) (now : ℕ)
      → Keeps (IsSeen done k fingerprint) (reserve key print now)
  unfolding reserve find_key
  reserve-IsSeen key print now = Keeps-bind _ _ (Keeps-gets _) λ existing.
      Keeps-option_case existing _ _
        (Keeps-bind _ _
          (Keeps-modify _ λ db h. record {
            row = h.row;
            found = find-front (matches k) db.idempotency_records _ h.row h.found;
            same = h.same;
            completed = h.completed;
          })
          λ _. Keeps-lift _)
        λ r. Keeps-lift _

  complete-IsSeen :
      (key : NaturalKey) (resource_id http_status : ℕ) (body : Fields) (now : ℕ)
      → Keeps (IsSeen done k fingerprint) (complete key resource_id http_status body now)
  unfolding complete find_key
  complete-IsSeen key resource_id http_status body now = Keeps-modify _ λ db h.
      let after =
        find-completed k (matches key) (completed_with resource_id http_status body now) (λ r. refl)
          db.idempotency_records h.row h.found in
      elim (Bool-cases (matches key h.row)) [
        | inl seen ↦ record {
          row = completed_with resource_id http_status body now h.row;
          found = after.0 seen;
          same = h.same;
          completed = λ _. refl;
        }
        | inr unseen ↦ record {
          row = h.row;
          found = after.1 unseen;
          same = h.same;
          completed = h.completed;
        }
      ]

  pub IsSeen-KeptByStatements : KeptByStatements (IsSeen done k fingerprint)
  unfolding persist_balance insert_entries insert_transfer
  IsSeen-KeptByStatements = record {
    logs = record {
      draws = λ db n h. carry db _ refl h;
      locks = λ db ids h. carry db _ refl h;
      transactions = λ db rows h. carry db _ refl h;
      outbox = λ db rows h. carry db _ refl h;
      audits = λ db rows h. carry db _ refl h;
    };
    persists = λ account. search (keeps_rules, elsewhere) depth 12;
    posts = λ rows. search (keeps_rules, elsewhere) depth 12;
    inserts = λ row. search (keeps_rules, elsewhere) depth 12;
    reserves = reserve-IsSeen;
    completes = complete-IsSeen;
  }

  pub IsSeen-IgnoresLoans : IgnoresLoans (IsSeen done k fingerprint)
  IsSeen-IgnoresLoans = record {
    loans = λ db rows h. carry db _ refl h;
    repayments = λ db rows h. carry db _ refl h;
  }

  requests-IsSeen : KeptByRequests (IsSeen done k fingerprint)
  unfolding insert_request mark_accepted mark_terminal sweep_expired
  requests-IsSeen = record {
    inserts = λ row pending free. search (keeps_rules, elsewhere) depth 14;
    accepts = λ request transfer_id now. search (keeps_rules, elsewhere) depth 14;
    ends = λ request status now other. search (keeps_rules, elsewhere) depth 14;
    sweeps = λ now. search (keeps_rules, elsewhere) depth 14;
  }

  escrows-IsSeen : KeptByEscrows (IsSeen done k fingerprint)
  unfolding insert_escrow mark_shipped mark_delivered mark_disputed record_code_failure mark_settled
  escrows-IsSeen = record {
    inserts = λ row here free. search (keeps_rules, elsewhere) depth 14;
    ships = λ id seller courier tracking now. search (keeps_rules, elsewhere) depth 14;
    delivers = λ id now release_at. search (keeps_rules, elsewhere) depth 14;
    disputes = λ id buyer reason now. search (keeps_rules, elsewhere) depth 14;
    counts = λ id attempts until now. search (keeps_rules, elsewhere) depth 14;
    settles = λ id outcome transfer_id now memo. search (keeps_rules, elsewhere) depth 14;
  }

  pub IsSeen-IsInvariant :
      (w : Wiring) → IsInvariant w.policy (interceptor_of w) (IsSeen done k fingerprint)
  unfolding create_subaccount set_status try_transition_status database_now
  IsSeen-IsInvariant w = record {
    logs = IsSeen-KeptByStatements.logs;
    rest = record {
      tasks = λ db rows h. carry db _ refl h;
      users = λ db rows h. carry db _ refl h;
      sessions = λ db rows h. carry db _ refl h;
      pools = λ db rows h. carry db _ refl h;
      grants = λ db rows h. carry db _ refl h;
      clocks = λ db now db_now h. carry db _ refl h;
    };
    loans = IsSeen-IgnoresLoans;
    executes = λ c.
        execute-Keeps IsSeen-KeptByStatements (interceptor_of w)
          (interceptor_at-Keeps w.digest w.policy w.lien_sweep_basis_points IsSeen-KeptByStatements
            IsSeen-IgnoresLoans 1)
          w.policy c;
    reserves = reserve-IsSeen;
    completes = complete-IsSeen;
    latches = λ id from_status to_status final. search (keeps_rules, elsewhere) depth 10;
    opens = λ account user_id type number currency now. search (keeps_rules, elsewhere) depth 14;
    closes = λ account status. search (keeps_rules, elsewhere) depth 10;
    requests = requests-IsSeen;
    escrows = escrows-IsSeen;
  }
