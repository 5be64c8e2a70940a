-- ===== src/FinancialCore/Books/Windows.antt =====
-- The books under the undo window (backend/modules/financial_core/application/undo.py and holding.py) and over
-- every sequence of its transactions.
use money_management_pstu_ha.Prelude.{ℕ, ◌≡◌, refl, String, Option}
use money_management_pstu_ha.Prelude.Int.{pos}
use money_management_pstu_ha.Prelude.Exec.{atomically}
use money_management_pstu_ha.Prelude.Exec.Ensures.{
  Keeps, keeps_rules, Keeps-bind, Keeps-lift, Keeps-gets, Keeps-option_case, atomically-Keeps,
}
use money_management_pstu_ha.Database.{Db}
use money_management_pstu_ha.Database.Enums.{TaskType}
use money_management_pstu_ha.Database.Json.{Fields}
use money_management_pstu_ha.FinancialCore.Policies.{no_fee}
use money_management_pstu_ha.FinancialCore.Transfer.{Policy, Interceptor, TransferCommand, execute}
use money_management_pstu_ha.FinancialCore.Holding.{HoldOrder, SettlementOrder, hold, settle_hold}
use money_management_pstu_ha.FinancialCore.Undo.{
  SendOrder, require_hold, send, take_back, undo, finalise, settle,
}
use money_management_pstu_ha.Scheduling.{schedule, cancel}
use money_management_pstu_ha.FinancialCore.Books.{IsSound, nothing_pending}
use money_management_pstu_ha.FinancialCore.Books.Writes.{
  IsBookFact, logs, IsSoundUpTo-IsBookFact, write-Keeps, new_ulid-Keeps, database_now-Keeps,
  clock_now-Keeps, try_transition_status-Keeps, get-Keeps, get_by_id-Keeps, reserve-Keeps,
  complete-Keeps,
}
use money_management_pstu_ha.FinancialCore.Books.Execution.{InterceptorLaws, execute-IsSound}

module _ {P : Db → Type 0} (fact : IsBookFact P) where
  schedule-Keeps : (t : TaskType) (resource delay : ℕ) → Keeps P (schedule t resource delay)
  unfolding schedule
  schedule-Keeps t resource delay = Keeps-bind _ _ (new_ulid-Keeps (logs fact)) λ id.
      Keeps-bind _ _ (database_now-Keeps (logs fact))
        λ now. Keeps-bind _ _ (write-Keeps fact _ (λ db. refl) (λ db. refl)) λ _. Keeps-lift _

  cancel-Keeps : (t : TaskType) (resource : ℕ) → Keeps P (cancel t resource)
  unfolding cancel
  cancel-Keeps t resource = Keeps-bind _ _ (database_now-Keeps (logs fact)) λ now.
      Keeps-bind _ _ (Keeps-gets _)
        λ rows. Keeps-bind _ _ (write-Keeps fact _ (λ db. refl) (λ db. refl)) λ _. Keeps-lift _

  require_hold-Keeps : (id : ℕ) → Keeps P (require_hold id)
  unfolding require_hold
  require_hold-Keeps id = search (keeps_rules, get-Keeps (logs fact)) depth 10

IsSound-fact : IsBookFact IsSound
IsSound-fact = IsSoundUpTo-IsBookFact nothing_pending (pos 0)

module _ (digest : Fields → String) (policy : Policy) (free : policy.fees ≡ no_fee)
    (interceptor : Interceptor) (laws : InterceptorLaws interceptor) where
  settle_hold-IsSound :
      (o : SettlementOrder) → Keeps IsSound (settle_hold digest policy interceptor o)
  unfolding settle_hold
  settle_hold-IsSound o =
      search
        (
          keeps_rules,
          try_transition_status-Keeps IsSound-fact,
          execute-IsSound policy free interceptor laws,
        )
        depth 8

  hold-IsSound : (o : HoldOrder) → Keeps IsSound (hold digest policy interceptor o)
  unfolding hold
  hold-IsSound o = execute-IsSound policy free interceptor laws _

  send-IsSound :
      (window : ℕ) (o : SendOrder) → Keeps IsSound (send digest policy interceptor window o)
  unfolding send
  send-IsSound window o = search (keeps_rules, hold-IsSound, schedule-Keeps IsSound-fact) depth 10

  take_back-IsSound :
      (window id actor : ℕ) (key : String) (request_id : Option String) (now : ℕ)
      → Keeps IsSound (take_back digest policy interceptor window id actor key request_id now)
  unfolding take_back
  take_back-IsSound window id actor key request_id now =
      Keeps-bind _ _ (require_hold-Keeps IsSound-fact id) λ held.
        Keeps-bind _ _ (get_by_id-Keeps (logs IsSound-fact) _) λ sender.
          Keeps-bind _ _ (Keeps-lift _) λ _. Keeps-bind _ _ (settle_hold-IsSound _) λ settlement.
            Keeps-bind _ _ (search (keeps_rules, cancel-Keeps IsSound-fact) depth 4)
              λ _. Keeps-bind _ _ (complete-Keeps IsSound-fact _ _ _ _ _) λ _. Keeps-lift _

  undo-IsSound :
      (window id actor : ℕ) (key : String) (request_id : Option String)
      → Keeps IsSound (undo digest policy interceptor window id actor key request_id)
  unfolding undo
  undo-IsSound window id actor key request_id =
      Keeps-bind _ _ (clock_now-Keeps (logs IsSound-fact)) λ now.
        Keeps-bind _ _ (reserve-Keeps IsSound-fact _ _ _) λ decision.
          Keeps-bind _ _ (Keeps-lift _) λ replayed.
            Keeps-option_case _ _ _ (take_back-IsSound window id actor key request_id now)
              λ body. Keeps-lift _

  settle-IsSound : (window id : ℕ) → Keeps IsSound (settle digest policy interceptor window id)
  unfolding settle finalise
  settle-IsSound window id =
      search (keeps_rules, settle_hold-IsSound, get-Keeps (logs IsSound-fact)) depth 12

  -- One transaction, or the passing of time.
  pub data Step (window : ℕ) : Db → Db → Type 0 where
    transfers :
        (command : TransferCommand) (db : Db)
        → Step window db (atomically (execute policy interceptor command) db).1
    sends :
        (o : SendOrder) (db : Db)
        → Step window db (atomically (send digest policy interceptor window o) db).1
    takes_back :
        (id actor : ℕ) (key : String) (request_id : Option String) (db : Db)
        → Step window db
            (atomically (undo digest policy interceptor window id actor key request_id) db).1
    settles :
        (id : ℕ) (db : Db)
        → Step window db (atomically (settle digest policy interceptor window id) db).1
    waits :
        (now db_now : ℕ) (db : Db) → Step window db (record db { clock = now; db_clock = db_now })

  -- What a sequence of steps leads to.
  pub data Leads (window : ℕ) : Db → Db → Type 0 where
    stays : (db : Db) → Leads window db db
    goes_on : (a b c : Db) → Leads window a b → Step window b c → Leads window a c

  Step-IsSound : (window : ℕ) (a b : Db) → Step window a b → IsSound a → IsSound b
  Step-IsSound window a b (transfers command db) h =
      atomically-Keeps _ (execute-IsSound policy free interceptor laws command) db h
  Step-IsSound window a b (sends o db) h = atomically-Keeps _ (send-IsSound window o) db h
  Step-IsSound window a b (takes_back id actor key request_id db) h =
      atomically-Keeps _ (undo-IsSound window id actor key request_id) db h
  Step-IsSound window a b (settles id db) h = atomically-Keeps _ (settle-IsSound window id) db h
  Step-IsSound window a b (waits now db_now db) h = IsSound-fact.carry db _ refl refl h

  -- Books that balance still balance after any sequence of transfers, undoable sends, undos, settlements and
  -- waits, each in its transaction, failed ones included, if the fee strategy is `NoFee` and the interceptor
  -- books nothing that is unbalanced by itself.
  pub Leads-IsSound : (window : ℕ) (a b : Db) → Leads window a b → IsSound a → IsSound b
  Leads-IsSound window a b (stays db) h = h
  Leads-IsSound window a b (goes_on x y z before step) h =
      Step-IsSound window y z step (Leads-IsSound window x y before h)
