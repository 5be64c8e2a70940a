-- ===== src/Overdraft/Loans.antt =====
-- The loans and repayments of backend/modules/overdraft/adapters/persistence/repositories.py.
use money_management_pstu_ha.Prelude.{
  ℕ, Bool, not, ◌&&◌, ◌||◌, String, Option, none, some, List, [], ◌∷◌, ◌++◌, ◌==◌, leb,
  if◌then◌else◌, is_some, find, select, update, order_by,
}
use money_management_pstu_ha.Prelude.Int.{ℤ, pos, pos_part, ◌-ℤ◌, leb_ℤ, ltb_ℤ}
use money_management_pstu_ha.Prelude.Result.{integrity_error}
use money_management_pstu_ha.Prelude.Exec.{gets, modify, pure, raise_if, option_case, ◌>>=◌, ◌>>◌}
use money_management_pstu_ha.Database.{Db, Action, new_ulid}
use money_management_pstu_ha.Database.Enums.{LoanStatus, is_outstanding}
use money_management_pstu_ha.Database.Schema.{
  OverdraftPoolRecord, OverdraftLoanRecord, OverdraftRepaymentRecord,
}
use money_management_pstu_ha.Overdraft.Pools.{has_pool_id}

abbrev loan_clashes : ℕ → ℕ → OverdraftLoanRecord → Bool
loan_clashes id draw_transfer_id l = id == l.id || draw_transfer_id == l.draw_transfer_id

-- `create_loan`: returns the new loan's id.
unfoldable pub create_loan : ℕ → ℕ → ℕ → ℤ → String → ℕ → Action ℕ
create_loan pool_id borrower draw_transfer_id amount_minor currency now = do
  loan_id ← new_ulid
  taken ← gets (λ db. is_some (find (loan_clashes loan_id draw_transfer_id) db.overdraft_loans))
  raise_if taken integrity_error
  raise_if (leb_ℤ amount_minor (pos 0)) integrity_error
  modify (λ db. record db {
    overdraft_loans =
        db.overdraft_loans
        ++ (record {
          id = loan_id;
          pool_id = pool_id;
          borrower_user_id = borrower;
          draw_transfer_id = draw_transfer_id;
          principal_minor = amount_minor;
          outstanding_minor = amount_minor;
          currency = currency;
          status = LoanStatus.outstanding;
          created_at = now;
          repaid_at = none;
        }
            ∷ []);
  })
  pure loan_id

-- A row of the join of loans and pools.
pub record LoanRow : Type 0 where
  pub id : ℕ
  pub outstanding_minor : ℤ
  pub pool_account_id : ℕ

abbrev pub is_owed_by : ℕ → OverdraftLoanRecord → Bool
is_owed_by borrower l =
    borrower == l.borrower_user_id && (is_outstanding l.status && ltb_ℤ (pos 0) l.outstanding_minor)

-- `ORDER BY created_at, id`
abbrev older : OverdraftLoanRecord → OverdraftLoanRecord → Bool
older a b = if a.created_at == b.created_at then leb a.id b.id else leb a.created_at b.created_at

abbrev loan_with_pool :
    OverdraftLoanRecord → Option OverdraftPoolRecord → List LoanRow → List LoanRow
loan_with_pool l none rest = rest
loan_with_pool l (some p) rest =
    (record {
      id = l.id;
      outstanding_minor = l.outstanding_minor;
      pool_account_id = p.pool_account_id;
    })
    ∷ rest

unfoldable pub join_loans : Db → List OverdraftLoanRecord → List LoanRow
join_loans db [] = []
join_loans db (l ∷ loans) =
    loan_with_pool l (find (has_pool_id l.pool_id) db.overdraft_pools) (join_loans db loans)

-- Locked or not: other sessions' locks only delay this one.
unfoldable pub outstanding_loans : ℕ → Action (List LoanRow)
outstanding_loans borrower =
    gets (λ db. join_loans db (order_by older (select (is_owed_by borrower) db.overdraft_loans)))

abbrev pub has_loan_id : ℕ → OverdraftLoanRecord → Bool
has_loan_id id l = id == l.id

abbrev pub is_open_loan : ℕ → OverdraftLoanRecord → Bool
is_open_loan id l = id == l.id && is_outstanding l.status

-- `max(0, outstanding - amount)`
abbrev pub left_of : ℤ → ℤ → ℤ
left_of outstanding amount = pos (pos_part (outstanding -ℤ amount))

abbrev is_nothing : ℤ → Bool
is_nothing left = leb_ℤ left (pos 0)

abbrev with_outstanding : ℤ → ℕ → OverdraftLoanRecord → OverdraftLoanRecord
with_outstanding left now l = record l {
  outstanding_minor = left;
  status = if is_nothing left then LoanStatus.repaid else LoanStatus.outstanding;
  repaid_at = if is_nothing left then some now else none;
}

-- The arguments of `apply_repayment`.
pub record Repayment : Type 0 where
  pub loan_id : ℕ
  pub transfer_id : ℕ
  pub amount_minor : ℤ
  pub triggered_by_transfer_id : ℕ

abbrev repayment_clashes : ℕ → ℕ → OverdraftRepaymentRecord → Bool
repayment_clashes id transfer_id p = id == p.id || transfer_id == p.transfer_id

unfoldable pub insert_repayment : Repayment → ℕ → Action (Unit {0})
insert_repayment r now = do
  repayment_id ← new_ulid
  taken ←
      gets (λ db.
        is_some (find (repayment_clashes repayment_id r.transfer_id) db.overdraft_repayments))
  raise_if taken integrity_error
  raise_if (leb_ℤ r.amount_minor (pos 0)) integrity_error
  modify (λ db. record db {
    overdraft_repayments =
        db.overdraft_repayments
        ++ (record {
          id = repayment_id;
          loan_id = r.loan_id;
          transfer_id = r.transfer_id;
          amount_minor = r.amount_minor;
          triggered_by_transfer_id = some r.triggered_by_transfer_id;
          created_at = now;
        }
            ∷ []);
  })

-- The two statements of `apply_repayment`, on the loan that it read. The first keeps the CHECK
-- `outstanding_within_principal` where the loan did and the amount is positive, as the second demands.
unfoldable pub reduce_loan : Repayment → OverdraftLoanRecord → ℕ → Action (Unit {0})
reduce_loan r loan now = do
  modify (λ db. record db {
    overdraft_loans =
        update (is_open_loan r.loan_id)
          (with_outstanding (left_of loan.outstanding_minor r.amount_minor) now) db.overdraft_loans;
  })
  insert_repayment r now

unfoldable pub apply_repayment : Repayment → ℕ → Action (Unit {0})
apply_repayment r now = do
  row ← gets (λ db. find (has_loan_id r.loan_id) db.overdraft_loans)
  option_case row (pure tt)
      (λ loan. if not (is_outstanding loan.status) then pure tt else reduce_loan r loan now)
