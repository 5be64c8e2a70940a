-- ===== src/System/Once.antt =====
-- A hold pays out once, over the whole backend (backend/modules/financial_core/application/holding.py): the latch
-- of the first settlement shuts out every later one.
use money_management_pstu_ha.Prelude.{
  ℕ, ◌≡◌, refl, sym, ap, ◌∙◌, Bool, true, false, not, List, [], ◌∷◌, ◌++◌, arith, ◌==◌, ==_iff,
  is_some, find, count, update, count-update, find-update, find-append, Bool-cases, inl, inr,
}
use money_management_pstu_ha.Prelude.Result.{Result, ok, err, is_ok, state_conflict}
use money_management_pstu_ha.Prelude.Exec.{lift, gets, modify, atomically, ◌>>=◌}
use money_management_pstu_ha.Prelude.Exec.Ensures.{
  Ensures, Keeps, keeps_rules, Keeps-bind, Keeps-lift, Keeps-gets, Keeps-modify, after-lift,
  after-gets, ends-modify, Ensures-bind, Ensures-from, OnReturn, reject_if-ok,
}
use money_management_pstu_ha.Database.{Db, database_now}
use money_management_pstu_ha.Database.Enums.{TransferStatus, same_transfer_status}
use money_management_pstu_ha.Database.Schema.{TransferRecord}
use money_management_pstu_ha.FinancialCore.Repositories.Transfers.{
  find_transfer, has_id, in_status, with_status, insert_transfer, try_transition_status,
}
use money_management_pstu_ha.FinancialCore.Repositories.Accounts.{
  persist_balance, create_subaccount, set_status,
}
use money_management_pstu_ha.FinancialCore.Repositories.Postings.{insert_entries}
use money_management_pstu_ha.FinancialCore.Repositories.Keys.{reserve, complete}
use money_management_pstu_ha.FinancialCore.Holding.{SettlementOrder, settle_hold}
use money_management_pstu_ha.FinancialCore.Undo.Latched.{atomically-settle_hold}
use money_management_pstu_ha.FinancialCore.Transfer.{TransferCommand, execute}
use money_management_pstu_ha.FinancialCore.Books.Frames.{KeptByStatements, execute-Keeps}
use money_management_pstu_ha.Overdraft.Sweep.Kept.{interceptor_at-Keeps}
use money_management_pstu_ha.System.MoneyFacts.{
  IsMoneyFact, money-IgnoresLogs, money-IgnoresRest, money-IgnoresLoans, money-KeptByRequests,
  money-KeptByEscrows,
}
use money_management_pstu_ha.System.Invariant.{IsInvariant, is_final}
use money_management_pstu_ha.System.Wiring.{Wiring, interceptor_of}
use money_management_pstu_ha.System.Steps.{Event, happen_all, happen_all-Keeps}

-- The hold exists, and is no longer in the status that a settlement latches it from.
pub record IsSettled (id : ℕ) (status : TransferStatus) (db : Db) : Type 0 where
  pub there : is_some (find (has_id id) db.transfers) ≡ true
  pub none_left : count (in_status id status) db.transfers ≡ 0

count-append :
    (test : TransferRecord → Bool) (rows : List TransferRecord) (r : TransferRecord)
    → test r ≡ false
    → count test (rows ++ (r ∷ [])) ≡ count test rows
unfolding count
count-append test [] r misses = rw misses refl
count-append test (x ∷ rows) r misses = ground (arith, count-append test rows r misses)

-- An update to another status adds no row to this one.
count-transition :
    (id k : ℕ) (status from_status to_status : TransferStatus) (now : ℕ)
    (rows : List TransferRecord)
    → same_transfer_status to_status status ≡ false
    → count (in_status id status) rows ≡ 0
    → count
        (in_status id status)
        (update (in_status k from_status) (with_status to_status now) rows)
      ≡ 0
unfolding count update
count-transition id k status from_status to_status now [] differ h = refl
count-transition id k status from_status to_status now (r ∷ rows) differ h =
    grind (arith, count-transition id k status from_status to_status now rows differ)

different_row :
    (id : ℕ) (status : TransferStatus) (row : TransferRecord) (rows : List TransferRecord)
    → is_some (find (has_id id) rows) ≡ true
    → is_some (find (has_id row.id) rows) ≡ false
    → in_status id status row ≡ false
different_row id status row rows there absent = elim (Bool-cases (id == row.id)) [
  | inl same ↦
      let contradicts : false ≡ true =
        sym absent
        ∙ ap (λ k. is_some (find (has_id k) rows)) (sym ((==_iff id row.id).0 same))
        ∙ there in
      cc
  | inr other ↦ rw other refl
]

module _ (id : ℕ) (status : TransferStatus) where
  pub insert_transfer-IsSettled :
      (row : TransferRecord) → Keeps (IsSettled id status) (insert_transfer row)
  unfolding insert_transfer find_transfer
  insert_transfer-IsSettled row = after-gets _ _ λ taken. after-lift _ _ λ _ free.
      Ensures-bind _ _ (Keeps-gets _) λ referenced. Ensures-bind _ _ (Keeps-lift _) λ _.
        Ensures-bind _ _ (Keeps-lift _) λ _. ends-modify _ λ db h. record {
          there = find-append (has_id id) db.transfers _ h.0.there;
          none_left =
              count-append _ db.transfers row (
                different_row id status row db.transfers h.0.there
                  (sym h.1 ∙ reject_if-ok taken _ free))
              ∙ h.0.none_left;
        }

  pub try_transition_status-IsSettled :
      (k : ℕ) (from_status to_status : TransferStatus)
      → same_transfer_status to_status status ≡ false
      → Keeps (IsSettled id status) (try_transition_status k from_status to_status)
  unfolding try_transition_status database_now
  try_transition_status-IsSettled k from_status to_status differ =
      Keeps-bind _ _ (Keeps-gets _) λ now. Keeps-bind _ _ (Keeps-gets _) λ rows.
        Keeps-bind _ _
          (Keeps-modify _ λ db h. record {
            there = find-update (has_id id) _ _ db.transfers (λ a. refl) ∙ h.there;
            none_left =
                count-transition id k status from_status to_status now db.transfers differ
                  h.none_left;
          })
          λ _. Keeps-lift _

some_counted :
    (id : ℕ) (status : TransferStatus) (rows : List TransferRecord)
    → (count (in_status id status) rows == 1) ≡ true
    → is_some (find (has_id id) rows) ≡ true
unfolding count find
some_counted id status [] one = ground arith
some_counted id status (r ∷ rows) one = ground (arith, some_counted id status rows)

module _ (id : ℕ) (status : TransferStatus) where
  IsSettled-IsMoneyFact : IsMoneyFact (IsSettled id status)
  IsSettled-IsMoneyFact = record {
    carry = λ db db' a e t h. record { there = rw t h.there; none_left = rw t h.none_left };
  }

  untouched :
      (f : Db → Db)
      → ((db : Db) → (f db).transfers ≡ db.transfers)
      → Keeps (IsSettled id status) (modify f)
  untouched f same =
      Keeps-modify f
        λ db h. record { there = rw (same db) h.there; none_left = rw (same db) h.none_left }

  IsSettled-KeptByStatements : KeptByStatements (IsSettled id status)
  unfolding persist_balance insert_entries reserve complete
  IsSettled-KeptByStatements = record {
    logs = money-IgnoresLogs IsSettled-IsMoneyFact;
    persists = λ account. search (keeps_rules, untouched) depth 10;
    posts = λ rows. search (keeps_rules, untouched) depth 10;
    inserts = insert_transfer-IsSettled id status;
    reserves = λ key fingerprint now. search (keeps_rules, untouched) depth 10;
    completes = λ key resource_id http_status body now. search (keeps_rules, untouched) depth 6;
  }

-- A final status is none of those that a hold is latched from.
final_differs :
    (status to_status : TransferStatus)
    → is_final status ≡ false
    → is_final to_status ≡ true
    → same_transfer_status to_status status ≡ false
final_differs status to_status held final = ground arith

module _ (w : Wiring) (id : ℕ) (status : TransferStatus) (held : is_final status ≡ false) where
  execute-IsSettled :
      (c : TransferCommand) → Keeps (IsSettled id status) (execute w.policy (interceptor_of w) c)
  execute-IsSettled c =
      execute-Keeps (IsSettled-KeptByStatements id status) (interceptor_of w)
        (interceptor_at-Keeps w.digest w.policy w.lien_sweep_basis_points
          (IsSettled-KeptByStatements id status)
          (money-IgnoresLoans (IsSettled-IsMoneyFact id status)) 1)
        w.policy c

  pub IsSettled-IsInvariant : IsInvariant w.policy (interceptor_of w) (IsSettled id status)
  unfolding create_subaccount set_status database_now
  IsSettled-IsInvariant =
      let fact = IsSettled-IsMoneyFact id status in
      let statements = IsSettled-KeptByStatements id status in
      record {
        logs = money-IgnoresLogs fact;
        rest = money-IgnoresRest fact;
        loans = money-IgnoresLoans fact;
        executes = execute-IsSettled;
        reserves = statements.reserves;
        completes = statements.completes;
        latches = λ k from_status to_status final.
            try_transition_status-IsSettled id status k from_status to_status
              (final_differs status to_status held final);
        opens = λ k user_id type number currency now.
            search (keeps_rules, untouched id status) depth 14;
        closes = λ k account_status. search (keeps_rules, untouched id status) depth 10;
        requests = money-KeptByRequests fact;
        escrows = money-KeptByEscrows fact;
      }

latched :
    (id : ℕ) (status to_status : TransferStatus)
    → same_transfer_status to_status status ≡ false
    → Ensures
        (λ _. Unit {0})
        (try_transition_status id status to_status)
        (λ rows db. (rows == 1) ≡ true → IsSettled id status db)
unfolding try_transition_status database_now gets modify lift ◌>>=◌
latched id status to_status differ = record {
  at = λ db _ one. record {
    there =
        find-update (has_id id) _ _ db.transfers (λ a. refl)
        ∙ some_counted id status db.transfers one;
    none_left =
        count-update (in_status id status) (with_status to_status db.db_clock) db.transfers
          (λ a hit. rw differ (ground arith));
  };
}

-- What a first settlement leaves.
pub settle_hold-IsSettled :
    (w : Wiring) (o : SettlementOrder)
    → is_final o.from_status ≡ false
    → is_final o.to_status ≡ true
    → Ensures
        (λ _. Unit {0})
        (settle_hold w.digest w.policy (interceptor_of w) o)
        (λ _. IsSettled o.hold_transfer_id o.from_status)
unfolding settle_hold
settle_hold-IsSettled w o held final =
    Ensures-bind _ _
      (latched o.hold_transfer_id o.from_status o.to_status
        (final_differs o.from_status o.to_status held final))
      λ rows. after-lift _ _ λ _ passed.
        Ensures-from
          (λ db settled. settled (ground (arith, reject_if-ok (not (rows == 1)) _ passed)))
          (execute-IsSettled w o.hold_transfer_id o.from_status held _)

pub when_ok :
    {A : Type 0} (P : Db → Type 0) (r : Result A) (db : Db)
    → is_ok r ≡ true
    → OnReturn (λ _. P) r db
    → P db
when_ok P (ok a) db returned h = h
when_ok P (err e) db returned h = cc

-- A hold pays out at most once. After a settlement of a hold, to a final status and from one that is not,
-- has returned, and after any sequence of events of the whole backend, a settlement of the same hold from
-- the same status is refused and leaves the database as it is, whoever it is to pay.
pub settle_hold-once :
    (w : Wiring) (first later : SettlementOrder) (db : Db) (events : List Event)
    → is_final first.from_status ≡ false
    → is_final first.to_status ≡ true
    → is_ok (settle_hold w.digest w.policy (interceptor_of w) first db).0 ≡ true
    → later.hold_transfer_id ≡ first.hold_transfer_id
    → later.from_status ≡ first.from_status
    → let now = happen_all w events (settle_hold w.digest w.policy (interceptor_of w) first db).1 in
      atomically (settle_hold w.digest w.policy (interceptor_of w) later) now
      ≡ (err state_conflict, now)
settle_hold-once w first later db events held final returned same_hold same_status =
    let run = settle_hold w.digest w.policy (interceptor_of w) first db in
    let settled =
      when_ok _ run.0 run.1 returned ((settle_hold-IsSettled w first held final).at db tt) in
    let still =
      happen_all-Keeps w (IsSettled-IsInvariant w first.hold_transfer_id first.from_status held)
        events run.1 settled in
    atomically-settle_hold w.digest w.policy (interceptor_of w) later (happen_all w events run.1)
      (rw (same_hold, same_status) still.none_left)
