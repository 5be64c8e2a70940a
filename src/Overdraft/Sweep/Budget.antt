-- ===== src/Overdraft/Sweep/Budget.antt =====
-- The repayments that one credit triggers stay within its budget
-- (backend/modules/overdraft/application/service.py, `after_credit`).
use money_management_pstu_ha.Prelude.{
  ℕ, ◌≡◌, ◌+◌, ◌-◌, ◌*◌, ◌/◌, min, String, Option, List, [], ◌∷◌, ◌++◌, ◌==◌, arith,
}
use money_management_pstu_ha.Prelude.Int.{pos_part}
use money_management_pstu_ha.Prelude.Exec.{pure}
use money_management_pstu_ha.Prelude.Exec.Ensures.{
  Ensures, Keeps-lift, Keeps-gets, Keeps-modify, Ensures-bind, Ensures-weaken, Ensures-if,
  Ensures-option_case, ends-lift, ends-modify,
}
use money_management_pstu_ha.Kernel.Money.{Money, from_minor}
use money_management_pstu_ha.Database.Enums.{TransferKind}
use money_management_pstu_ha.Database.Json.{Fields}
use money_management_pstu_ha.Database.Schema.{OverdraftRepaymentRecord}
use money_management_pstu_ha.FinancialCore.Account.{Account}
use money_management_pstu_ha.FinancialCore.Transfer.{Policy, no_interceptor, execute}
use money_management_pstu_ha.FinancialCore.Books.Writes.{clock_now-Keeps, new_ulid-Keeps}
use money_management_pstu_ha.Overdraft.Loans.{
  LoanRow, Repayment, insert_repayment, reduce_loan, apply_repayment, outstanding_loans,
}
use money_management_pstu_ha.Overdraft.Sweep.{
  Incoming, sweep_budget, repayment_command, repay, repay_loans, sweep_credit, after_credit,
  interceptor_with, interceptor_at,
}
use money_management_pstu_ha.Overdraft.Sweep.Taken.{
  total_repaid, IsWithin, IsWithin-mono, IsWithin-IgnoresLogs, execute-IsWithin,
}

total_repaid-append :
    (rows : List OverdraftRepaymentRecord) (r : OverdraftRepaymentRecord)
    → total_repaid (rows ++ (r ∷ [])) ≡ total_repaid rows + pos_part r.amount_minor
total_repaid-append [] r = ground arith
total_repaid-append (x ∷ rows) r = ground (arith, total_repaid-append rows r)

module _ (recorded taken : ℕ) where
  insert_repayment-IsWithin :
      (r : Repayment) (now : ℕ)
      → Ensures
          (IsWithin recorded taken)
          (insert_repayment r now)
          (λ _. IsWithin (recorded + pos_part r.amount_minor) taken)
  unfolding insert_repayment
  insert_repayment-IsWithin r now =
      Ensures-bind _ _ (new_ulid-Keeps (IsWithin-IgnoresLogs recorded taken)) λ id.
        Ensures-bind _ _ (Keeps-gets _) λ used. Ensures-bind _ _ (Keeps-lift _) λ _.
          Ensures-bind _ _ (Keeps-lift _) λ _. ends-modify _ λ db h. record {
            on_record = omega (arith, total_repaid-append db.overdraft_repayments _, h.on_record);
            transferred = h.transferred;
          }

  apply_repayment-IsWithin :
      (r : Repayment) (now : ℕ)
      → Ensures
          (IsWithin recorded taken)
          (apply_repayment r now)
          (λ _. IsWithin (recorded + pos_part r.amount_minor) taken)
  unfolding apply_repayment reduce_loan
  apply_repayment-IsWithin r now = Ensures-bind _ _ (Keeps-gets _) λ row.
      Ensures-option_case _ _ _ same λ loan. Ensures-if _ _ _ same (
        Ensures-bind _ _
          (Keeps-modify _ (λ db h. record { on_record = h.on_record; transferred = h.transferred }))
          λ _. insert_repayment-IsWithin r now)
    where
      same :
          Ensures
            (IsWithin recorded taken)
            (pure tt)
            (λ _. IsWithin (recorded + pos_part r.amount_minor) taken)
      same = ends-lift _ λ _ _ db h. IsWithin-mono (omega arith) (omega arith) h

module _ (digest : Fields → String) (policy : Policy) where
  repay-IsWithin :
      (recorded taken : ℕ) (i : Incoming) (loan : LoanRow) (amount : ℕ)
      → Ensures
          (IsWithin recorded taken)
          (repay digest (execute policy no_interceptor) i loan amount)
          (λ _. IsWithin (recorded + amount) (taken + amount))
  unfolding repay repayment_command from_minor
  repay-IsWithin recorded taken i loan amount =
      Ensures-bind _ _
        (execute-IsWithin recorded taken policy (repayment_command digest i loan amount))
        λ repayment.
          Ensures-bind _ _ (clock_now-Keeps (IsWithin-IgnoresLogs recorded (taken + amount)))
            λ now. apply_repayment-IsWithin recorded (taken + amount) _ now

  repay_loans-IsWithin :
      (recorded taken : ℕ) (i : Incoming) (loans : List LoanRow) (budget : ℕ)
      → Ensures
          (IsWithin recorded taken)
          (repay_loans digest (execute policy no_interceptor) i loans budget)
          (λ _. IsWithin (recorded + budget) (taken + budget))
  unfolding repay_loans
  repay_loans-IsWithin recorded taken i [] budget =
      ends-lift _ λ _ _ db h. IsWithin-mono (omega arith) (omega arith) h
  repay_loans-IsWithin recorded taken i (loan ∷ loans) budget =
      let amount = min budget (pos_part loan.outstanding_minor) in
      Ensures-if (budget == 0) _ _
        (ends-lift _ λ _ _ db h. IsWithin-mono (omega arith) (omega arith) h)
        (Ensures-bind _ _ (repay-IsWithin recorded taken i loan amount) λ _.
          Ensures-weaken
            (repay_loans-IsWithin (recorded + amount) (taken + amount) i loans (budget - amount))
            λ _ db h. IsWithin-mono (omega arith) (omega arith) h)

  -- One credit repays no more than its share: after the interceptor of a transfer returns, the money that all
  -- the transfers of the kind `OVERDRAFT_REPAY` have moved, and the sum of the repayments on record, have each
  -- grown by at most the given basis points of the amount credited, rounded down.
  pub after_credit-IsWithin :
      (basis_points recorded taken incoming : ℕ) (receiver : Account) (amount : Money)
      (kind : TransferKind) (request_id : Option String)
      → Ensures
          (IsWithin recorded taken)
          ((interceptor_at digest policy basis_points 1).after_credit incoming receiver amount kind
            request_id)
          (λ _.
            IsWithin
              (recorded + pos_part amount.minor * basis_points / 10_000)
              (taken + pos_part amount.minor * basis_points / 10_000))
  unfolding interceptor_at interceptor_with after_credit sweep_credit sweep_budget outstanding_loans
  after_credit-IsWithin basis_points recorded taken incoming receiver amount kind request_id =
      Ensures-if _ _ _ (ends-lift _ λ _ _ db h. IsWithin-mono (omega arith) (omega arith) h) (
        Ensures-option_case _ _ _
          (ends-lift _ λ _ _ db h. IsWithin-mono (omega arith) (omega arith) h)
          λ (borrower : ℕ).
            Ensures-if _ _ _ (ends-lift _ λ _ _ db h. IsWithin-mono (omega arith) (omega arith) h) (
              Ensures-bind _ _ (Keeps-gets _)
                λ loans. repay_loans-IsWithin recorded taken _ loans _))
