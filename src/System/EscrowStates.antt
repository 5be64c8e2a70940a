-- ===== src/System/EscrowStates.antt =====
-- The backend takes an escrow only along the state machine of SafePay.Lifecycle.
use money_management_pstu_ha.Prelude.{
  ℕ, ◌≡◌, refl, Bool, true, false, some, List, [], ◌∷◌, ◌++◌, arith, find, update, Bool-cases, inl,
  inr,
}
use money_management_pstu_ha.Prelude.Exec.{modify}
use money_management_pstu_ha.Prelude.Exec.Ensures.{
  Keeps, keeps_rules, Keeps-bind, Keeps-lift, Keeps-gets, Keeps-modify,
}
use money_management_pstu_ha.Database.{Db, database_now}
use money_management_pstu_ha.Database.Enums.{EscrowStatus}
use money_management_pstu_ha.Database.Schema.{SafePayEscrowRecord}
use money_management_pstu_ha.FinancialCore.Repositories.Accounts.{create_subaccount, set_status}
use money_management_pstu_ha.FinancialCore.Repositories.Transfers.{try_transition_status}
use money_management_pstu_ha.FinancialCore.Books.Frames.{
  IsAside, aside-KeptByStatements, execute-Keeps,
}
use money_management_pstu_ha.MoneyRequest.Requests.{
  insert_request, mark_accepted, mark_terminal, sweep_expired,
}
use money_management_pstu_ha.SafePay.Escrows.{
  has_id, find_escrow, insert_escrow, mark_shipped, mark_delivered, mark_disputed,
  record_code_failure, mark_settled,
}
use money_management_pstu_ha.SafePay.Lifecycle.{
  frozen, Course, unmoved, moves_on, Course-ends, is_over, ships_from, delivers_from, settles_from,
}
use money_management_pstu_ha.Overdraft.Sweep.Kept.{IgnoresLoans, interceptor_at-Keeps}
use money_management_pstu_ha.System.Invariant.{IsInvariant, KeptByRequests, KeptByEscrows}
use money_management_pstu_ha.System.Wiring.{Wiring, interceptor_of}
use money_management_pstu_ha.System.Steps.{Event, happen_all, happen_all-Keeps}

-- The escrow is there, in a status that its life can have led to.
pub record IsOnCourse (id : ℕ) (start : EscrowStatus) (db : Db) : Type 0 where
  pub row : SafePayEscrowRecord
  pub found : find (has_id id) db.safepay_escrows ≡ some row
  pub course : Course start row.status

find-front :
    (test : SafePayEscrowRecord → Bool) (front back : List SafePayEscrowRecord)
    (e : SafePayEscrowRecord)
    → find test front ≡ some e
    → find test (front ++ back) ≡ some e
unfolding find
find-front test [] back e found = ground arith
find-front test (x ∷ front) back e found = ground (arith, find-front test front back e)

-- What is found of one escrow after an update: the same row, or the row rewritten.
find-updated :
    (id : ℕ) (hit : SafePayEscrowRecord → Bool) (f : SafePayEscrowRecord → SafePayEscrowRecord)
    → ((e : SafePayEscrowRecord) → (f e).id ≡ e.id)
    → (rows : List SafePayEscrowRecord) (e : SafePayEscrowRecord) → find (has_id id) rows ≡ some e
    → (hit e ≡ true → find (has_id id) (update hit f rows) ≡ some (f e))
      × (hit e ≡ false → find (has_id id) (update hit f rows) ≡ some e)
unfolding find update
find-updated id hit f same [] e found = (λ _. ground arith, λ _. ground arith)
find-updated id hit f same (x ∷ rows) e found =
    let later = find-updated id hit f same rows e in
    (
      λ seen. ground (arith, same x, later, found, seen),
      λ unseen. ground (arith, same x, later, found, unseen),
    )

module _ (id : ℕ) (start : EscrowStatus) where
  IsOnCourse-IsAside : IsAside (IsOnCourse id start)
  IsOnCourse-IsAside = record {
    carry = λ db db' requests users sessions escrows loans repayments h. record {
      row = h.row;
      found = rw escrows h.found;
      course = h.course;
    };
  }

  -- A write to another table.
  elsewhere :
      (f : Db → Db)
      → ((db : Db) → (f db).safepay_escrows ≡ db.safepay_escrows)
      → Keeps (IsOnCourse id start) (modify f)
  elsewhere f same =
      Keeps-modify f λ db h. record { row = h.row; found = rw (same db) h.found; course = h.course }

  turns :
      (hit : SafePayEscrowRecord → Bool) (f : SafePayEscrowRecord → SafePayEscrowRecord)
      → ((e : SafePayEscrowRecord) → (f e).id ≡ e.id)
      → ((e : SafePayEscrowRecord)
          → hit e ≡ true
          → Course start e.status
          → Course start (f e).status)
      → Keeps
          (IsOnCourse id start)
          (modify (λ db. record db { safepay_escrows = update hit f db.safepay_escrows }))
  turns hit f same keeps = Keeps-modify _ λ db h.
      let after = find-updated id hit f same db.safepay_escrows h.row h.found in
      elim (Bool-cases (hit h.row)) [
        | inl seen ↦ record {
          row = f h.row;
          found = after.0 seen;
          course = keeps h.row seen h.course;
        }
        | inr unseen ↦ record { row = h.row; found = after.1 unseen; course = h.course }
      ]

  escrows-IsOnCourse : KeptByEscrows (IsOnCourse id start)
  unfolding insert_escrow mark_shipped mark_delivered mark_disputed record_code_failure mark_settled
  escrows-IsOnCourse = record {
    inserts = λ row here free. Keeps-bind _ _ (Keeps-gets _) λ _. Keeps-bind _ _ (Keeps-lift _) λ _.
        Keeps-bind _ _ (Keeps-lift _) λ _. Keeps-modify _ λ db h. record {
          row = h.row;
          found = find-front (has_id id) db.safepay_escrows (row ∷ []) h.row h.found;
          course = h.course;
        };
    ships = λ escrow seller courier tracking now. Keeps-bind _ _ (Keeps-gets _) λ _.
        Keeps-bind _ _
          (turns _ _ (λ e. refl)
            (λ e hit before. moves_on _ _ before (ships_from e.status (ground (arith, hit)))))
          λ _. Keeps-lift _;
    delivers = λ escrow now release_at. Keeps-bind _ _ (Keeps-gets _) λ _.
        Keeps-bind _ _
          (turns _ _ (λ e. refl)
            (λ e hit before. moves_on _ _ before (delivers_from e.status (ground (arith, hit)))))
          λ _. Keeps-lift _;
    disputes = λ escrow buyer reason now. Keeps-bind _ _ (Keeps-gets _) λ _.
        Keeps-bind _ _
          (turns _ _ (λ e. refl)
            (λ e hit before. moves_on _ _ before (frozen e.status (ground (arith, hit)))))
          λ _. Keeps-lift _;
    counts = λ escrow attempts until now. turns _ _ (λ e. refl) (λ e hit before. before);
    settles = λ escrow outcome transfer_id now memo. Keeps-bind _ _ (Keeps-gets _) λ _.
        Keeps-bind _ _ (Keeps-gets _) λ _. Keeps-bind _ _ (Keeps-lift _) λ _.
          Keeps-bind _ _
            (turns _ _ (λ e. refl)
              (λ e hit before.
                moves_on _ _ before (settles_from outcome e.status (ground (arith, hit)))))
            λ _. Keeps-lift _;
  }

  requests-IsOnCourse : KeptByRequests (IsOnCourse id start)
  unfolding insert_request mark_accepted mark_terminal sweep_expired
  requests-IsOnCourse = record {
    inserts = λ row pending free. search (keeps_rules, elsewhere) depth 14;
    accepts = λ request transfer_id now. search (keeps_rules, elsewhere) depth 14;
    ends = λ request status now other. search (keeps_rules, elsewhere) depth 14;
    sweeps = λ now. search (keeps_rules, elsewhere) depth 14;
  }

  IsOnCourse-IgnoresLoans : IgnoresLoans (IsOnCourse id start)
  IsOnCourse-IgnoresLoans = record {
    loans = λ db rows h. record { row = h.row; found = h.found; course = h.course };
    repayments = λ db rows h. record { row = h.row; found = h.found; course = h.course };
  }

  IsOnCourse-IsInvariant :
      (w : Wiring) → IsInvariant w.policy (interceptor_of w) (IsOnCourse id start)
  unfolding create_subaccount set_status try_transition_status database_now
  IsOnCourse-IsInvariant w =
      let statements = aside-KeptByStatements IsOnCourse-IsAside in
      record {
        logs = statements.logs;
        rest = record {
          tasks = λ db rows h. record { row = h.row; found = h.found; course = h.course };
          users = λ db rows h. record { row = h.row; found = h.found; course = h.course };
          sessions = λ db rows h. record { row = h.row; found = h.found; course = h.course };
          pools = λ db rows h. record { row = h.row; found = h.found; course = h.course };
          grants = λ db rows h. record { row = h.row; found = h.found; course = h.course };
          clocks = λ db now db_now h. record { row = h.row; found = h.found; course = h.course };
        };
        loans = IsOnCourse-IgnoresLoans;
        executes = λ c.
            execute-Keeps statements (interceptor_of w)
              (interceptor_at-Keeps w.digest w.policy w.lien_sweep_basis_points statements
                IsOnCourse-IgnoresLoans 1)
              w.policy c;
        reserves = statements.reserves;
        completes = statements.completes;
        latches =
            λ transfer_id from_status to_status final. search (keeps_rules, elsewhere) depth 10;
        opens =
            λ account user_id type number currency now. search (keeps_rules, elsewhere) depth 14;
        closes = λ account status. search (keeps_rules, elsewhere) depth 10;
        requests = requests-IsOnCourse;
        escrows = escrows-IsOnCourse;
      }

-- The backend refines the state machine of an escrow: of an escrow that is there, any sequence of events
-- makes one that is still there, in a status to which turns of the machine lead.
pub happen_all-IsOnCourse :
    (w : Wiring) (events : List Event) (db : Db) (id : ℕ) (e : SafePayEscrowRecord)
    → find_escrow id db ≡ some e
    → IsOnCourse id e.status (happen_all w events db)
unfolding find_escrow
happen_all-IsOnCourse w events db id e there =
    happen_all-Keeps w (IsOnCourse-IsInvariant id e.status w) events db
      (record { row = e; found = there; course = unmoved })

-- An escrow that is released or refunded stays so, whatever happens: after any sequence of events, it is
-- found with the same status.
pub happen_all-over :
    (w : Wiring) (events : List Event) (db : Db) (id : ℕ) (e : SafePayEscrowRecord)
    → find_escrow id db ≡ some e
    → is_over e.status ≡ true
    → (later : SafePayEscrowRecord) × (find_escrow id (happen_all w events db) ≡ some later)
      × (later.status ≡ e.status)
unfolding find_escrow
happen_all-over w events db id e there over =
    let now = happen_all-IsOnCourse w events db id e there in
    (now.row, now.found, Course-ends e.status now.row.status over now.course)
