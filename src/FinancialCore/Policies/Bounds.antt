-- ===== src/FinancialCore/Policies/Bounds.antt =====
-- The fees and the limits of backend/modules/financial_core/domain/policies.py, against their descriptions.
use money_management_pstu_ha.Prelude.{
  ℕ, zero, suc, ◌≡◌, ◌≤◌, ◌<◌, ◌+◌, ◌*◌, refl, ◌↔◌, true, ◌&&◌, arith,
}
use money_management_pstu_ha.Prelude.Int.{pos, ◌+ℤ◌, ◌*ℤ◌, neg, floor_div, max_ℤ, leb_ℤ}
use money_management_pstu_ha.Prelude.Result.{ok}
use money_management_pstu_ha.Kernel.Money.{Money, Currency, from_minor}
use money_management_pstu_ha.FinancialCore.Policies.{
  percentage_fee, fee_for, TransferLimits, ensure_within_limits,
}

-- A debit passes the limits exactly if it is within the single limit, and with what was sent today within
-- the daily one.
pub ensure_within_limits_iff :
    (limits : TransferLimits) (amount already : Money)
    → (ensure_within_limits limits amount already ≡ ok tt) ↔ (
        (leb_ℤ amount.minor limits.max_single_transfer_minor
          && leb_ℤ (already.minor +ℤ amount.minor) limits.daily_total_minor)
        ≡ true)
unfolding ensure_within_limits
ensure_within_limits_iff limits amount already = ((λ h. ground arith), (λ h. ground arith))

scaled : (a b : ℕ) → neg (pos a) *ℤ pos b ≡ neg (pos (a * b))
unfolding neg ◌*ℤ◌
scaled zero b = ground arith
scaled (suc a) b = ground arith

rounded_up :
    (n share : ℕ)
    → n ≤ share * 10_000
    → share * 10_000 < n + 10_000
    → neg (floor_div (neg (pos n)) 10_000) ≡ pos share
unfolding neg floor_div
rounded_up zero share lower upper = ground arith
rounded_up (suc n) share lower upper = ground arith

-- The percentage fee of an amount, at a rate in basis points: the least number of minor units that is not
-- below the exact share, or the minimum where that is more, for an amount, a rate and a minimum that are
-- not negative.
pub percentage_fee-rounds_up :
    (amount : ℕ) (basis_points minimum : ℕ) (currency : Currency)
    → (share : ℕ) → amount * basis_points ≤ share * 10_000
    → share * 10_000 < amount * basis_points + 10_000
    → fee_for (percentage_fee (pos basis_points) (pos minimum)) (from_minor (pos amount) currency)
      ≡ from_minor (max_ℤ (pos share) (pos minimum)) currency
unfolding fee_for from_minor
percentage_fee-rounds_up amount basis_points minimum currency share lower upper =
    rw (scaled amount basis_points, rounded_up (amount * basis_points) share lower upper) refl
