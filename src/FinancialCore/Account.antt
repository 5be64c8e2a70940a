-- ===== src/FinancialCore/Account.antt =====
-- backend/modules/financial_core/domain/account.py: an account at the moment it was locked, and its guards.
pub mod Guards
use money_management_pstu_ha.Prelude.{
  ℕ, ◌+◌, Bool, true, false, not, Option, same_id, if◌then◌else◌,
}
use money_management_pstu_ha.Prelude.Result.{
  Result, ok, err, account_inactive, authorization, currency_mismatch, insufficient_funds,
  value_error, reject_if, guard, ◌>>=◌, ◌>>◌,
}
use money_management_pstu_ha.Kernel.Money.{Money, is_positive, same_currency, add, sub, less_than}
use money_management_pstu_ha.Database.Enums.{AccountType, AccountStatus}

abbrev pub system_issuance_account_id : ℕ
system_issuance_account_id = 0

abbrev pub escrow_account_id : ℕ
escrow_account_id = 1

abbrev pub pending_settlement_account_id : ℕ
pending_settlement_account_id = 2

pub record Account : Type 0 where
  pub id : ℕ
  pub user_id : Option ℕ
  pub account_type : AccountType
  pub balance : Money
  pub status : AccountStatus
  pub version : ℕ

abbrev pub is_active : AccountStatus → Bool
is_active AccountStatus.active = true
is_active AccountStatus.frozen = false
is_active AccountStatus.closed = false

abbrev pub is_issuance : AccountType → Bool
is_issuance AccountType.system_issuance = true
is_issuance AccountType.user = false
is_issuance AccountType.pending_settlement = false
is_issuance AccountType.escrow = false
is_issuance AccountType.group = false
is_issuance AccountType.overdraft_pool = false

unfoldable pub can_transact : Account → Bool
can_transact a = is_active a.status

unfoldable pub may_go_negative : Account → Bool
may_go_negative a = is_issuance a.account_type

unfoldable pub ensure_active : Account → Result (Unit {0})
ensure_active a = guard (can_transact a) account_inactive

unfoldable pub ensure_owned_by : Account → ℕ → Result (Unit {0})
ensure_owned_by a user_id = guard (same_id a.user_id (Option.some user_id)) authorization

unfoldable pub ensure_same_currency_as : Account → Account → Result (Unit {0})
ensure_same_currency_as a b =
    guard (same_currency a.balance.currency b.balance.currency) currency_mismatch

unfoldable pub ensure_can_afford : Account → Money → Result (Unit {0})
ensure_can_afford a amount =
    if may_go_negative a
    then ok tt
    else (less_than a.balance amount >>= λ short. reject_if short insufficient_funds)

unfoldable pub debit : Account → Money → Result Account
debit a amount = do
  guard (is_positive amount) value_error
  ensure_active a
  ensure_can_afford a amount
  left ← sub a.balance amount
  ok (record a { balance = left; version = a.version + 1 })

unfoldable pub credit : Account → Money → Result Account
credit a amount = do
  guard (is_positive amount) value_error
  ensure_active a
  total ← add a.balance amount
  ok (record a { balance = total; version = a.version + 1 })
