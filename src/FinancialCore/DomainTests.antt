-- ===== src/FinancialCore/DomainTests.antt =====
-- The domain rules on small inputs.
use money_management_pstu_ha.Prelude.{◌≡◌, refl, ◌↔◌, true, ◌&&◌, some, List, [], ◌∷◌, arith}
use money_management_pstu_ha.Prelude.Int.{ℤ, pos, negsuc, ◌+ℤ◌, ◌-ℤ◌, leb_ℤ, max_ℤ}
use money_management_pstu_ha.Prelude.Result.{is_ok, ok}
use money_management_pstu_ha.Kernel.Money.{Money, from_minor, bdt, same_currency}
use money_management_pstu_ha.Database.Enums.{AccountType, AccountStatus}
use money_management_pstu_ha.FinancialCore.Account.{Account, debit, credit}
use money_management_pstu_ha.FinancialCore.Account.Guards.{
  may_debit, may_credit, debit_iff, credit_iff, debit-never_overdraws,
}
use money_management_pstu_ha.FinancialCore.Ledger.{
  PostingLine, ledger_posting, sum_lines, has_foreign_line, has_duplicate, mentions,
}
use money_management_pstu_ha.FinancialCore.Ledger.Balance.{IsBalanced, ledger_posting-IsBalanced}
use money_management_pstu_ha.FinancialCore.Policies.{
  TransferLimits, percentage_fee, fee_for, ensure_within_limits,
}
use money_management_pstu_ha.FinancialCore.Policies.Bounds.{
  ensure_within_limits_iff, percentage_fee-rounds_up,
}

abbrev taka : ℤ → Money
taka minor = record { minor = minor; currency = bdt }

abbrev wallet : Account
wallet = record {
  id = 5;
  user_id = some 50;
  account_type = AccountType.user;
  balance = taka (pos 1000);
  status = AccountStatus.active;
  version = 3;
}

debit_iff_example :
    (is_ok (debit wallet (taka (pos 300))) ≡ may_debit wallet (taka (pos 300)))
    × ((debit wallet (taka (pos 300))
          ≡ ok (record wallet { balance = taka (pos 1000 -ℤ pos 300); version = 4 }))
        ↔ (may_debit wallet (taka (pos 300)) ≡ true))
debit_iff_example = debit_iff wallet (taka (pos 300))

credit_iff_example :
    (is_ok (credit wallet (taka (pos 300))) ≡ may_credit wallet (taka (pos 300)))
    × ((credit wallet (taka (pos 300))
          ≡ ok (record wallet { balance = taka (pos 1000 +ℤ pos 300); version = 4 }))
        ↔ (may_credit wallet (taka (pos 300)) ≡ true))
credit_iff_example = credit_iff wallet (taka (pos 300))

wallet-may_debit : may_debit wallet (taka (pos 300)) ≡ true
unfolding same_currency
wallet-may_debit = refl

debit-never_overdraws_example : leb_ℤ (pos 0) (pos 1000 -ℤ pos 300) ≡ true
debit-never_overdraws_example =
    debit-never_overdraws wallet
      (record wallet { balance = taka (pos 1000 -ℤ pos 300); version = 4 }) (taka (pos 300))
      ((debit_iff wallet (taka (pos 300))).1.1 wallet-may_debit) refl

abbrev two_lines : List PostingLine
two_lines =
    record { account_id = 5; amount = taka (negsuc 299) }
    ∷ record { account_id = 6; amount = taka (pos 300) }
    ∷ []

ledger_posting-IsBalanced_example : IsBalanced (record { lines = two_lines; currency = bdt })
unfolding ledger_posting sum_lines has_foreign_line has_duplicate mentions same_currency ◌+ℤ◌
ledger_posting-IsBalanced_example =
    ledger_posting-IsBalanced two_lines bdt (record { lines = two_lines; currency = bdt }) refl

abbrev default_limits : TransferLimits
default_limits = record {
  max_single_transfer_minor = pos 5_000_000;
  daily_total_minor = pos 20_000_000;
}

ensure_within_limits_iff_example :
    (ensure_within_limits default_limits (taka (pos 300)) (taka (pos 1000)) ≡ ok tt)
    ↔ ((leb_ℤ (pos 300) (pos 5_000_000) && leb_ℤ (pos 1000 +ℤ pos 300) (pos 20_000_000)) ≡ true)
ensure_within_limits_iff_example =
    ensure_within_limits_iff default_limits (taka (pos 300)) (taka (pos 1000))

percentage_fee-rounds_up_example :
    fee_for (percentage_fee (pos 150) (pos 5)) (from_minor (pos 1001) bdt)
    ≡ from_minor (max_ℤ (pos 16) (pos 5)) bdt
percentage_fee-rounds_up_example =
    percentage_fee-rounds_up 1001 150 5 bdt 16 (omega arith) (omega arith)
