-- ===== src/Overdraft/Sweep/Once.antt =====
-- A repayment triggers no repayment (backend/modules/overdraft/application/service.py): following the
-- interceptor of a transfer one call deep is following it to the end.
use money_management_pstu_ha.Prelude.{
  ℕ, zero, suc, ◌≡◌, refl, ap, ◌∙◌, sym, String, Option, List, [], ◌∷◌,
}
use mathlib.Core.Path.{fun_ext}
use money_management_pstu_ha.Kernel.Money.{Money}
use money_management_pstu_ha.Database.{Action}
use money_management_pstu_ha.Database.Enums.{TransferKind}
use money_management_pstu_ha.Database.Json.{Fields}
use money_management_pstu_ha.FinancialCore.Account.{Account}
use money_management_pstu_ha.FinancialCore.Transfer.{
  Policy, TransferCommand, TransferResult, no_interceptor, perform, execute,
}
use money_management_pstu_ha.Overdraft.Loans.{LoanRow}
use money_management_pstu_ha.Overdraft.Sweep.{
  Incoming, additional_lock_ids, repayment_command, repay, repay_loans, sweep_credit, after_credit,
  interceptor_with, interceptor_at,
}

module _ (digest : Fields → String) (one other : TransferCommand → Action TransferResult)
    (agree : (i : Incoming) (loan : LoanRow) (amount : ℕ)
      → one (repayment_command digest i loan amount)
        ≡ other (repayment_command digest i loan amount)) where
  repay_loans-agree :
      (i : Incoming) (loans : List LoanRow) (budget : ℕ)
      → repay_loans digest one i loans budget ≡ repay_loans digest other i loans budget
  unfolding repay_loans repay
  repay_loans-agree i [] budget = refl
  repay_loans-agree i (loan ∷ loans) budget = rw (agree i loan _, repay_loans-agree i loans _) refl

  same_loop : repay_loans digest one ≡ repay_loans digest other
  same_loop = fun_ext λ i. fun_ext λ loans. fun_ext λ budget. repay_loans-agree i loans budget

  after_credit-agree : after_credit digest one ≡ after_credit digest other
  unfolding after_credit
  after_credit-agree = ap sweep_credit same_loop

module _ (digest : Fields → String) (policy : Policy) (basis_points : ℕ) where
  -- A repayment runs as with no interceptor.
  repayment-undisturbed :
      (depth : ℕ) (i : Incoming) (loan : LoanRow) (amount : ℕ)
      → execute policy
          (interceptor_at digest policy basis_points depth)
          (repayment_command digest i loan amount)
        ≡ execute policy no_interceptor (repayment_command digest i loan amount)
  unfolding execute perform interceptor_at interceptor_with additional_lock_ids after_credit
      sweep_credit repayment_command no_interceptor
  repayment-undisturbed zero i loan amount = refl
  repayment-undisturbed (suc depth) i loan amount = refl

  -- The recursion of `after_credit` through the transfers that it makes ends after one call: however deep it
  -- is followed, the interceptor is the one that is followed one call deep.
  pub interceptor_at-once :
      (depth : ℕ)
      → interceptor_at digest policy basis_points (suc depth)
        ≡ interceptor_at digest policy basis_points 1
  unfolding interceptor_at interceptor_with
  interceptor_at-once depth =
      ap
        (λ (hook : ℕ → ℕ → Account → Money → TransferKind → Option String → Action (Unit {0})).
          record { additional_lock_ids = additional_lock_ids; after_credit = hook basis_points })
        (after_credit-agree digest _ _ (λ i loan amount.
          repayment-undisturbed depth i loan amount ∙ sym (repayment-undisturbed 0 i loan amount)))
