-- ===== src/FinancialCore/Ledger.antt =====
-- backend/modules/financial_core/domain/ledger.py: postings that cannot be built unbalanced.
pub mod Balance
use money_management_pstu_ha.Prelude.{
  ℕ, ◌<◌, Bool, true, false, not, ◌&&◌, ◌||◌, List, [], ◌∷◌, ltb, ◌==◌, length, select,
  if◌then◌else◌,
}
use money_management_pstu_ha.Prelude.Int.{ℤ, pos, ◌+ℤ◌, ltb_ℤ, eqb_ℤ}
use money_management_pstu_ha.Prelude.Result.{
  Result, ok, err, unbalanced_posting, reject_if, guard, ◌>>=◌, ◌>>◌,
}
use money_management_pstu_ha.Kernel.Money.{
  Money, Currency, is_positive, is_zero, same_currency, negate,
}

pub record PostingLine : Type 0 where
  pub account_id : ℕ
  pub amount : Money

pub record LedgerPosting : Type 0 where
  pub lines : List PostingLine
  pub currency : Currency

-- `PostingLine(…)`, with `__post_init__`.
unfoldable pub posting_line : ℕ → Money → Result PostingLine
posting_line account_id amount = do
  reject_if (is_zero amount) unbalanced_posting
  ok (record { account_id = account_id; amount = amount })

-- `sum(line.amount.minor for line in lines)`
unfoldable pub sum_lines : List PostingLine → ℤ
sum_lines [] = pos 0
sum_lines (l ∷ ls) = l.amount.minor +ℤ sum_lines ls

unfoldable pub has_foreign_line : Currency → List PostingLine → Bool
has_foreign_line c [] = false
has_foreign_line c (l ∷ ls) = not (same_currency l.amount.currency c) || has_foreign_line c ls

unfoldable pub mentions : ℕ → List PostingLine → Bool
mentions id [] = false
mentions id (l ∷ ls) = id == l.account_id || mentions id ls

-- `len(set(account_ids)) != len(account_ids)`
unfoldable pub has_duplicate : List PostingLine → Bool
has_duplicate [] = false
has_duplicate (l ∷ ls) = mentions l.account_id ls || has_duplicate ls

-- `LedgerPosting(…)`, with `__post_init__`.
unfoldable pub ledger_posting : List PostingLine → Currency → Result LedgerPosting
ledger_posting lines currency = do
  reject_if (ltb (length lines) 2) unbalanced_posting
  guard (eqb_ℤ (sum_lines lines) (pos 0)) unbalanced_posting
  reject_if (has_foreign_line currency lines) unbalanced_posting
  reject_if (has_duplicate lines) unbalanced_posting
  ok (record { lines = lines; currency = currency })

-- `LedgerPosting.transfer`
unfoldable pub transfer_posting : ℕ → ℕ → Money → Result LedgerPosting
transfer_posting from_account_id to_account_id amount = do
  guard (is_positive amount) unbalanced_posting
  reject_if (from_account_id == to_account_id) unbalanced_posting
  debit_line ← posting_line from_account_id (negate amount)
  credit_line ← posting_line to_account_id amount
  ledger_posting (debit_line ∷ credit_line ∷ []) amount.currency

unfoldable pub is_credit : PostingLine → Bool
is_credit l = ltb_ℤ (pos 0) l.amount.minor

unfoldable pub is_debit : PostingLine → Bool
is_debit l = ltb_ℤ l.amount.minor (pos 0)

unfoldable pub credits : LedgerPosting → List PostingLine
credits p = select is_credit p.lines

unfoldable pub debits : LedgerPosting → List PostingLine
debits p = select is_debit p.lines

unfoldable pub total_moved : LedgerPosting → Money
total_moved p = record { minor = sum_lines (credits p); currency = p.currency }
