-- ===== src/FinancialCore/Account/Guards.antt =====
-- `Account.debit` and `Account.credit` on every branch
-- (backend/modules/financial_core/domain/account.py).
use money_management_pstu_ha.Prelude.{◌≡◌, ◌+◌, ◌↔◌, Bool, true, false, ◌||◌, ◌&&◌, arith}
use money_management_pstu_ha.Prelude.Int.{pos, ◌+ℤ◌, ◌-ℤ◌, ltb_ℤ, leb_ℤ, -ℤ_parts}
use money_management_pstu_ha.Prelude.Result.{ok, is_ok}
use money_management_pstu_ha.Kernel.Money.{
  Money, same_currency, is_positive, less_than, add, sub, assert_same_currency,
}
use money_management_pstu_ha.FinancialCore.Account.{
  Account, is_active, is_issuance, can_transact, may_go_negative, ensure_active, ensure_can_afford,
  debit, credit,
}

-- The condition on which a debit is made.
abbrev pub may_debit : Account → Money → Bool
may_debit a amount =
    ltb_ℤ (pos 0) amount.minor
    && (is_active a.status
        && (same_currency a.balance.currency amount.currency
            && (is_issuance a.account_type || leb_ℤ amount.minor a.balance.minor)))

-- The condition on which a credit is made.
abbrev pub may_credit : Account → Money → Bool
may_credit a amount =
    ltb_ℤ (pos 0) amount.minor
    && (is_active a.status && same_currency a.balance.currency amount.currency)

-- A debit returns exactly for a positive amount, an active account, one currency, and enough balance unless
-- the account is the issuance account; and exactly then it answers the account with the amount taken and the
-- version raised by one.
pub debit_iff :
    (a : Account) (amount : Money)
    → (is_ok (debit a amount) ≡ may_debit a amount)
      × ((debit a amount
            ≡ ok (record a {
              balance = record {
                minor = a.balance.minor -ℤ amount.minor;
                currency = a.balance.currency;
              };
              version = a.version + 1;
            }))
          ↔ (may_debit a amount ≡ true))
unfolding debit ensure_active can_transact is_positive ensure_can_afford may_go_negative less_than
    sub assert_same_currency
debit_iff a amount = (ground arith, ((λ h. ground arith), (λ h. ground arith)))

-- A credit returns exactly for a positive amount, an active account and one currency; and exactly then it
-- answers the account with the amount added and the version raised by one.
pub credit_iff :
    (a : Account) (amount : Money)
    → (is_ok (credit a amount) ≡ may_credit a amount)
      × ((credit a amount
            ≡ ok (record a {
              balance = record {
                minor = a.balance.minor +ℤ amount.minor;
                currency = a.balance.currency;
              };
              version = a.version + 1;
            }))
          ↔ (may_credit a amount ≡ true))
unfolding credit ensure_active can_transact is_positive add assert_same_currency
credit_iff a amount = (ground arith, ((λ h. ground arith), (λ h. ground arith)))

-- A debit leaves no account below zero but the issuance account.
pub debit-never_overdraws :
    (a after : Account) (amount : Money)
    → debit a amount ≡ ok after
    → is_issuance a.account_type ≡ false
    → leb_ℤ (pos 0) after.balance.minor ≡ true
unfolding debit ensure_active can_transact is_positive ensure_can_afford may_go_negative less_than
    sub assert_same_currency
debit-never_overdraws a after amount h user =
    let left : after.balance.minor ≡ a.balance.minor -ℤ amount.minor = ground arith in
    let enough : leb_ℤ amount.minor a.balance.minor ≡ true = ground arith in
    rw left (grind (arith, enough, -ℤ_parts a.balance.minor amount.minor))
