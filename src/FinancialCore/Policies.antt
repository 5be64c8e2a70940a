-- ===== src/FinancialCore/Policies.antt =====
-- backend/modules/financial_core/domain/policies.py: fees and limits.
pub mod Bounds
use money_management_pstu_ha.Prelude.{ℕ, Bool}
use money_management_pstu_ha.Prelude.Int.{ℤ, pos, ◌+ℤ◌, ◌*ℤ◌, neg, floor_div, max_ℤ, ltb_ℤ}
use money_management_pstu_ha.Prelude.Result.{
  Result, transfer_limit_exceeded, daily_limit_exceeded, reject_if, ◌>>=◌, ◌>>◌,
}
use money_management_pstu_ha.Kernel.Money.{Money, from_minor}

-- The classes that implement `FeeStrategy`.
pub data FeeStrategy : Type 0 where
  no_fee : FeeStrategy
  flat_fee : (flat_minor : ℤ) → FeeStrategy
  percentage_fee : (basis_points minimum_minor : ℤ) → FeeStrategy

unfoldable pub fee_for : FeeStrategy → Money → Money
fee_for no_fee amount = from_minor (pos 0) amount.currency
fee_for (flat_fee flat) amount = from_minor flat amount.currency
fee_for (percentage_fee basis_points minimum) amount =
    let raw = neg (floor_div (neg amount.minor *ℤ basis_points) 10_000) in
    from_minor (max_ℤ raw minimum) amount.currency

pub record TransferLimits : Type 0 where
  pub max_single_transfer_minor : ℤ
  pub daily_total_minor : ℤ

-- `DefaultLimitPolicy.ensure_within_limits`
unfoldable pub ensure_within_limits : TransferLimits → Money → Money → Result (Unit {0})
ensure_within_limits limits amount already_sent_today = do
  reject_if (ltb_ℤ limits.max_single_transfer_minor amount.minor) transfer_limit_exceeded
  let projected = already_sent_today.minor +ℤ amount.minor
  reject_if (ltb_ℤ limits.daily_total_minor projected) daily_limit_exceeded
