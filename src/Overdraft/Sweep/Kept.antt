-- ===== src/Overdraft/Sweep/Kept.antt =====
-- What the interceptor of backend/modules/overdraft/application/service.py leaves as it was: the books balance
-- after its repayments, and whatever the statements of a transfer and of a repayment keep, it keeps.
use money_management_pstu_ha.Prelude.{ℕ, zero, suc, ◌≡◌, refl, String, Option, List, [], ◌∷◌, ◌==◌}
use money_management_pstu_ha.Prelude.Int.{ℤ}
use money_management_pstu_ha.Prelude.Exec.Ensures.{
  Keeps, Keeps-bind, Keeps-lift, Keeps-gets, Keeps-if, Keeps-modify, Keeps-option_case,
}
use money_management_pstu_ha.Kernel.Money.{Money}
use money_management_pstu_ha.Database.{Db, Action}
use money_management_pstu_ha.Database.Enums.{TransferKind}
use money_management_pstu_ha.Database.Json.{Fields}
use money_management_pstu_ha.Database.Schema.{OverdraftLoanRecord, OverdraftRepaymentRecord}
use money_management_pstu_ha.FinancialCore.Account.{Account}
use money_management_pstu_ha.FinancialCore.Policies.{no_fee}
use money_management_pstu_ha.FinancialCore.Transfer.{
  Policy, TransferCommand, TransferResult, no_interceptor,
}
use money_management_pstu_ha.FinancialCore.Books.{IsSoundUpTo}
use money_management_pstu_ha.FinancialCore.Books.Writes.{
  IgnoresLogs, logs, IsSoundUpTo-IsBookFact, clock_now-Keeps, new_ulid-Keeps, get_by_id-Keeps,
}
use money_management_pstu_ha.FinancialCore.Books.Execution.{
  InterceptorLaws, no_interceptor-laws, execute-Keeps_books,
}
use money_management_pstu_ha.FinancialCore.Books.Frames.{
  KeptByStatements, KeptByInterceptor, execute-Keeps,
}
use money_management_pstu_ha.Overdraft.Loans.{
  LoanRow, Repayment, outstanding_loans, insert_repayment, reduce_loan, apply_repayment,
}
use money_management_pstu_ha.Overdraft.Sweep.{
  Incoming, additional_lock_ids, repay, repay_loans, sweep_credit, after_credit, interceptor_with,
  interceptor_at,
}

pub record IgnoresLoans (P : Db → Type 0) : Type 0 where
  pub loans :
      (db : Db) (rows : List OverdraftLoanRecord) → P db → P (record db { overdraft_loans = rows })
  pub repayments :
      (db : Db) (rows : List OverdraftRepaymentRecord)
      → P db
      → P (record db { overdraft_repayments = rows })

module _ {P : Db → Type 0} where
  outstanding_loans-Keeps : (borrower : ℕ) → Keeps P (outstanding_loans borrower)
  unfolding outstanding_loans
  outstanding_loans-Keeps borrower = Keeps-gets _

module _ {P : Db → Type 0} (ignores : IgnoresLogs P) where
  pub additional_lock_ids-Keeps :
      (receiver : ℕ) (kind : TransferKind) → Keeps P (additional_lock_ids receiver kind)
  unfolding additional_lock_ids
  additional_lock_ids-Keeps receiver kind = Keeps-if _ _ _ (Keeps-lift _) (
      Keeps-bind _ _ (get_by_id-Keeps ignores receiver) λ found.
        Keeps-option_case _ _ _ (Keeps-lift _)
          λ borrower. Keeps-bind _ _ (outstanding_loans-Keeps borrower) λ rows. Keeps-lift _)

module _ {P : Db → Type 0} (ignores : IgnoresLogs P) (free : IgnoresLoans P) where
  insert_repayment-Keeps : (r : Repayment) (now : ℕ) → Keeps P (insert_repayment r now)
  unfolding insert_repayment
  insert_repayment-Keeps r now = Keeps-bind _ _ (new_ulid-Keeps ignores) λ id.
      Keeps-bind _ _ (Keeps-gets _) λ taken.
        Keeps-bind _ _ (Keeps-lift _)
          λ _. Keeps-bind _ _ (Keeps-lift _) λ _. Keeps-modify _ (λ db h. free.repayments db _ h)

  pub apply_repayment-Keeps : (r : Repayment) (now : ℕ) → Keeps P (apply_repayment r now)
  unfolding apply_repayment reduce_loan
  apply_repayment-Keeps r now = Keeps-bind _ _ (Keeps-gets _) λ row.
      Keeps-option_case _ _ _ (Keeps-lift _) λ loan. Keeps-if _ _ _ (Keeps-lift _) (
        Keeps-bind _ _ (Keeps-modify _ (λ db h. free.loans db _ h))
          λ _. insert_repayment-Keeps r now)

  module _ (digest : Fields → String) (transfer : TransferCommand → Action TransferResult)
      (pays : (command : TransferCommand) → Keeps P (transfer command)) where
    repay-Keeps :
        (i : Incoming) (loan : LoanRow) (amount : ℕ) → Keeps P (repay digest transfer i loan amount)
    unfolding repay
    repay-Keeps i loan amount =
        Keeps-bind _ _ (pays _)
          λ repayment. Keeps-bind _ _ (clock_now-Keeps ignores) λ now. apply_repayment-Keeps _ now

    repay_loans-Keeps :
        (i : Incoming) (loans : List LoanRow) (budget : ℕ)
        → Keeps P (repay_loans digest transfer i loans budget)
    unfolding repay_loans
    repay_loans-Keeps i [] budget = Keeps-lift _
    repay_loans-Keeps i (loan ∷ loans) budget =
        Keeps-if (budget == 0) _ _ (Keeps-lift _)
          (Keeps-bind _ _ (repay-Keeps i loan _) λ _. repay_loans-Keeps i loans _)

    pub after_credit-Keeps :
        (basis_points incoming : ℕ) (receiver : Account) (amount : Money) (kind : TransferKind)
        (request_id : Option String)
        → Keeps P
            (after_credit digest transfer basis_points incoming receiver amount kind request_id)
    unfolding after_credit sweep_credit
    after_credit-Keeps basis_points incoming receiver amount kind request_id =
        Keeps-if _ _ _ (Keeps-lift _) (
          Keeps-option_case _ _ _ (Keeps-lift _) λ borrower. Keeps-if _ _ _ (Keeps-lift _) (
            Keeps-bind _ _ (outstanding_loans-Keeps borrower) λ loans. repay_loans-Keeps _ loans _))

IsSoundUpTo-IgnoresLoans : (pending : ℕ → ℤ) (drift : ℤ) → IgnoresLoans (IsSoundUpTo pending drift)
IsSoundUpTo-IgnoresLoans pending drift =
    let fact = IsSoundUpTo-IsBookFact pending drift in
    record {
      loans = λ db rows h. fact.carry db _ refl refl h;
      repayments = λ db rows h. fact.carry db _ refl refl h;
    }

module _ (digest : Fields → String) (policy : Policy) (basis_points : ℕ) where
  -- The books balance under the interceptor at any depth.
  pub interceptor_at-laws :
      policy.fees ≡ no_fee
      → (depth : ℕ) → InterceptorLaws (interceptor_at digest policy basis_points depth)
  unfolding interceptor_at interceptor_with
  interceptor_at-laws free zero = no_interceptor-laws
  interceptor_at-laws free (suc depth) = record {
    locks_read = λ fact receiver kind. additional_lock_ids-Keeps fact receiver kind;
    hook_is_balanced = λ pending drift incoming receiver amount kind request_id.
        after_credit-Keeps (logs (IsSoundUpTo-IsBookFact pending drift))
          (IsSoundUpTo-IgnoresLoans pending drift) digest _
          (λ command.
            execute-Keeps_books policy free _ (interceptor_at-laws free depth) command pending
              drift)
          basis_points incoming receiver amount kind request_id;
  }

  module _ {P : Db → Type 0} (frame : KeptByStatements P) (free : IgnoresLoans P) where
    pub interceptor_at-Keeps :
        (depth : ℕ) → KeptByInterceptor P (interceptor_at digest policy basis_points depth)
    unfolding interceptor_at interceptor_with no_interceptor
    interceptor_at-Keeps zero = record {
      names_locks = λ receiver kind. Keeps-lift _;
      credits = λ incoming receiver amount kind request_id. Keeps-lift _;
    }
    interceptor_at-Keeps (suc depth) = record {
      names_locks = λ receiver kind. additional_lock_ids-Keeps frame.logs receiver kind;
      credits = λ incoming receiver amount kind request_id.
          after_credit-Keeps frame.logs free digest _
            (λ command. execute-Keeps frame _ (interceptor_at-Keeps depth) policy command)
            basis_points incoming receiver amount kind request_id;
    }
