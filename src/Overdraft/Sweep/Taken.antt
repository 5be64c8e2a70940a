-- ===== src/Overdraft/Sweep/Taken.antt =====
-- What one transfer may add to the money that repayments have taken
-- (backend/modules/financial_core/application/transfer.py, `execute`, as `after_credit` of
-- backend/modules/overdraft/application/service.py calls it).
use money_management_pstu_ha.Prelude.{
  ℕ, ◌≡◌, refl, ◌+◌, ◌≤◌, List, [], ◌∷◌, ◌++◌, arith, if◌then◌else◌, String,
}
use money_management_pstu_ha.Prelude.Int.{pos_part}
use money_management_pstu_ha.Prelude.Exec.{modify}
use money_management_pstu_ha.Prelude.Exec.Ensures.{
  Ensures, Keeps, keeps_rules, Keeps-lift, Keeps-gets, Keeps-modify, Ensures-bind,
  Ensures-option_case, ends-lift, ends-modify,
}
use money_management_pstu_ha.Kernel.Money.{Money}
use money_management_pstu_ha.Database.{Db}
use money_management_pstu_ha.Database.Enums.{TransferKind, same_kind}
use money_management_pstu_ha.Database.Schema.{
  TransferRecord, OverdraftRepaymentRecord, LedgerEntryRecord,
}
use money_management_pstu_ha.FinancialCore.Account.{Account}
use money_management_pstu_ha.FinancialCore.Repositories.Accounts.{persist_balance}
use money_management_pstu_ha.FinancialCore.Repositories.Transfers.{insert_transfer}
use money_management_pstu_ha.FinancialCore.Repositories.Postings.{insert_entries}
use money_management_pstu_ha.FinancialCore.Repositories.Keys.{NaturalKey, reserve, complete}
use money_management_pstu_ha.FinancialCore.Transfer.{
  Policy, TransferCommand, no_interceptor, record_movement, move_money, perform, execute,
}
use money_management_pstu_ha.FinancialCore.Books.Writes.{
  IgnoresLogs, clock_now-Keeps, new_ulid-Keeps, generate_reference-Keeps, lock_for_update-Keeps,
}
use money_management_pstu_ha.FinancialCore.Books.Execution.{announce-Keeps}
use money_management_pstu_ha.FinancialCore.Books.Frames.{
  apply_movement-Keeps, post-Keeps, revalidate-Keeps,
}

-- `SUM(amount_minor)` of the repayments, which are all positive.
abbrev pub total_repaid : List OverdraftRepaymentRecord → ℕ
total_repaid [] = 0
total_repaid (r ∷ rest) = pos_part r.amount_minor + total_repaid rest

-- `SUM(amount_minor)` of the transfers of the kind `OVERDRAFT_REPAY`.
abbrev pub total_taken : List TransferRecord → ℕ
total_taken [] = 0
total_taken (r ∷ rest) =
    (if same_kind r.kind TransferKind.overdraft_repay then pos_part r.amount_minor else 0)
    + total_taken rest

-- The repayments on record come to at most one number, the money that was transferred for them to another.
pub record IsWithin (recorded taken : ℕ) (db : Db) : Type 0 where
  pub on_record : total_repaid db.overdraft_repayments ≤ recorded
  pub transferred : total_taken db.transfers ≤ taken

pub IsWithin-mono : {a b c d : ℕ} {db : Db} → a ≤ b → c ≤ d → IsWithin a c db → IsWithin b d db
IsWithin-mono more most h = record {
  on_record = omega (arith, h.on_record);
  transferred = omega (arith, h.transferred);
}

total_taken-append :
    (rows : List TransferRecord) (r : TransferRecord)
    → total_taken (rows ++ (r ∷ [])) ≤ total_taken rows + pos_part r.amount_minor
total_taken-append [] r = ground arith
total_taken-append (x ∷ rows) r = ground (arith, total_taken-append rows r)

module _ (recorded taken : ℕ) where
  untouched :
      (f : Db → Db)
      → ((db : Db) → (f db).transfers ≡ db.transfers)
      → ((db : Db) → (f db).overdraft_repayments ≡ db.overdraft_repayments)
      → Keeps (IsWithin recorded taken) (modify f)
  untouched f transfers repayments = Keeps-modify f λ db h. record {
    on_record = rw (repayments db) h.on_record;
    transferred = rw (transfers db) h.transferred;
  }

  pub IsWithin-IgnoresLogs : IgnoresLogs (IsWithin recorded taken)
  IsWithin-IgnoresLogs = record {
    draws = λ db n h. record { on_record = h.on_record; transferred = h.transferred };
    locks = λ db ids h. record { on_record = h.on_record; transferred = h.transferred };
    transactions = λ db rows h. record { on_record = h.on_record; transferred = h.transferred };
    outbox = λ db rows h. record { on_record = h.on_record; transferred = h.transferred };
    audits = λ db rows h. record { on_record = h.on_record; transferred = h.transferred };
  }

  persist_balance-IsWithin :
      (account : Account) → Keeps (IsWithin recorded taken) (persist_balance account)
  unfolding persist_balance
  persist_balance-IsWithin account = search (keeps_rules, untouched) depth 12

  insert_entries-IsWithin :
      (rows : List LedgerEntryRecord) → Keeps (IsWithin recorded taken) (insert_entries rows)
  unfolding insert_entries
  insert_entries-IsWithin rows = search (keeps_rules, untouched) depth 12

  reserve-IsWithin :
      (key : NaturalKey) (fingerprint : String) (now : ℕ)
      → Keeps (IsWithin recorded taken) (reserve key fingerprint now)
  unfolding reserve
  reserve-IsWithin key fingerprint now = search (keeps_rules, untouched) depth 12

  insert_transfer-IsWithin :
      (row : TransferRecord)
      → Ensures
          (IsWithin recorded taken)
          (insert_transfer row)
          (λ _. IsWithin recorded (taken + pos_part row.amount_minor))
  unfolding insert_transfer
  insert_transfer-IsWithin row = Ensures-bind _ _ (Keeps-gets _) λ _.
      Ensures-bind _ _ (Keeps-lift _) λ _. Ensures-bind _ _ (Keeps-gets _) λ _.
        Ensures-bind _ _ (Keeps-lift _) λ _. Ensures-bind _ _ (Keeps-lift _) λ _.
          ends-modify _ λ db h. record {
            on_record = h.on_record;
            transferred = omega (arith, total_taken-append db.transfers row, h.transferred);
          }

module _ (recorded taken : ℕ) (command : TransferCommand) (now : ℕ) where
  abbrev more : ℕ
  more = taken + pos_part command.amount.minor

  record_movement-IsWithin :
      (sender receiver : Account)
      → Ensures
          (IsWithin recorded taken)
          (record_movement sender receiver command now)
          (λ _. IsWithin recorded more)
  unfolding record_movement
  record_movement-IsWithin sender receiver =
      let before = IsWithin-IgnoresLogs recorded taken in
      Ensures-bind _ _ (new_ulid-Keeps before) λ _.
        Ensures-bind _ _ (generate_reference-Keeps before _ _) λ _.
          Ensures-bind _ _ (insert_transfer-IsWithin recorded taken _) λ _.
            Ensures-bind _ _ (Keeps-lift _) λ posting.
              Ensures-bind _ _
                (post-Keeps (IsWithin-IgnoresLogs recorded more)
                  (persist_balance-IsWithin recorded more) (insert_entries-IsWithin recorded more)
                  posting _ _ _ _ _)
                λ _. Keeps-lift _

  move_money-IsWithin :
      (policy : Policy) (sender receiver : Account) (total : Money)
      → Ensures
          (IsWithin recorded taken)
          (move_money policy sender receiver command total now)
          (λ _. IsWithin recorded more)
  unfolding move_money
  move_money-IsWithin policy sender receiver total =
      Ensures-bind _ _
        (apply_movement-Keeps (IsWithin-IgnoresLogs recorded taken)
          (persist_balance-IsWithin recorded taken) (insert_entries-IsWithin recorded taken) _ _ _
          _)
        λ both. Ensures-bind _ _ (record_movement-IsWithin _ _) λ made.
          Ensures-bind _ _ (announce-Keeps (IsWithin-IgnoresLogs recorded more) _ _ _ _ _ _ _)
            λ _. Keeps-lift _

  perform-IsWithin-more :
      (policy : Policy)
      → Ensures
          (IsWithin recorded taken)
          (perform policy no_interceptor command now)
          (λ _. IsWithin recorded more)
  unfolding perform no_interceptor complete
  perform-IsWithin-more policy =
      let before = IsWithin-IgnoresLogs recorded taken in
      Ensures-bind _ _ (Keeps-lift _) λ _. Ensures-bind _ _ (Keeps-lift _) λ extra.
        Ensures-bind _ _ (lock_for_update-Keeps before _) λ locked.
          Ensures-bind _ _ (Keeps-lift _) λ sender. Ensures-bind _ _ (Keeps-lift _) λ receiver.
            Ensures-bind _ _
              (revalidate-Keeps before (persist_balance-IsWithin recorded taken)
                (insert_entries-IsWithin recorded taken) _ _ _ _ _)
              λ total. Ensures-bind _ _ (move_money-IsWithin policy sender receiver total) λ moved.
                Ensures-bind _ _ (Keeps-lift _) λ _.
                  Ensures-bind _ _ (untouched recorded more _ (λ db. refl) (λ db. refl))
                    λ _. Keeps-lift _

-- A transfer adds at most its amount to what was transferred, and nothing to the repayments on record.
pub execute-IsWithin :
    (recorded taken : ℕ) (policy : Policy) (command : TransferCommand)
    → Ensures
        (IsWithin recorded taken)
        (execute policy no_interceptor command)
        (λ _. IsWithin recorded (taken + pos_part command.amount.minor))
unfolding execute
execute-IsWithin recorded taken policy command =
    Ensures-bind _ _ (clock_now-Keeps (IsWithin-IgnoresLogs recorded taken)) λ now.
      Ensures-bind _ _ (reserve-IsWithin recorded taken _ _ now) λ decision.
        Ensures-bind _ _ (Keeps-lift _) λ replayed.
          Ensures-option_case replayed _ _ (perform-IsWithin-more recorded taken command now policy)
            λ r. ends-lift _ λ _ _ db h. IsWithin-mono (omega arith) (omega arith) h
