-- ===== src/FinancialCore/Ledger/Balance.antt =====
-- The postings of backend/modules/financial_core/domain/ledger.py balance by construction.
use money_management_pstu_ha.Prelude.{◌≡◌, ◌≤◌, false, List, [], ◌∷◌, arith, length, select}
use money_management_pstu_ha.Prelude.Int.{pos, ◌+ℤ◌, int_laws, eq_of_parts}
use money_management_pstu_ha.Prelude.Result.{ok}
use money_management_pstu_ha.Kernel.Money.{Currency}
use money_management_pstu_ha.FinancialCore.Ledger.{
  PostingLine, LedgerPosting, ledger_posting, sum_lines, has_duplicate, has_foreign_line, is_credit,
  is_debit,
}

-- The invariant that `LedgerPosting.__post_init__` enforces.
pub record IsBalanced (p : LedgerPosting) : Type 0 where
  pub at_least_two : 2 ≤ length p.lines
  pub zero_sum : sum_lines p.lines ≡ pos 0
  pub one_currency : has_foreign_line p.currency p.lines ≡ false
  pub no_duplicate : has_duplicate p.lines ≡ false

-- Every posting that can be constructed is balanced: two lines or more, amounts that sum to zero, one
-- currency, and no account twice.
pub ledger_posting-IsBalanced :
    (lines : List PostingLine) (currency : Currency) (p : LedgerPosting)
    → ledger_posting lines currency ≡ ok p
    → IsBalanced p
unfolding ledger_posting
ledger_posting-IsBalanced lines currency p h = record {
  at_least_two = ground arith;
  zero_sum = eq_of_parts _ _ (ground arith);
  one_currency = ground arith;
  no_duplicate = ground arith;
}

-- The credits and the debits of any lines, which are signed, sum to what the lines sum to; so in a posting
-- they cancel.
pub credits-debits :
    (lines : List PostingLine)
    → sum_lines (select is_credit lines) +ℤ sum_lines (select is_debit lines) ≡ sum_lines lines
unfolding sum_lines select is_credit is_debit
credits-debits [] = omega int_laws
credits-debits (l ∷ ls) = grind (int_laws, credits-debits ls)
