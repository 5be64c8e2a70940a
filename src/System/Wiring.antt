-- ===== src/System/Wiring.antt =====
-- The components as backend/apps/api/container.py wires them, with the settings of backend/platform_/config.py and
-- the libraries as parameters.
use money_management_pstu_ha.Prelude.{ℕ, String}
use money_management_pstu_ha.Database.{Action}
use money_management_pstu_ha.Database.Json.{Fields}
use money_management_pstu_ha.FinancialCore.Transfer.{
  Policy, Interceptor, TransferCommand, TransferResult, execute,
}
use money_management_pstu_ha.FinancialCore.Undo.{SendOrder, send}
use money_management_pstu_ha.Identity.Auth.{Passwords, TokenService, Settings}
use money_management_pstu_ha.Overdraft.Sweep.{interceptor_at}

pub record Wiring : Type 0 where
  pub digest : Fields → String
  pub passwords : Passwords
  pub tokens : TokenService
  pub code_digest : ℕ → ℕ
  pub policy : Policy
  pub auth : Settings
  pub lien_sweep_basis_points : ℕ
  pub max_draw_minor : ℕ
  pub undo_window_seconds : ℕ
  pub request_expiry_hours : ℕ
  pub auto_release_hours : ℕ
  pub code_lock_seconds : ℕ

-- `set_post_transfer_interceptor(overdraft_service)`; a repayment is intercepted to no effect, so one level is
-- the whole of it.
abbrev pub interceptor_of : Wiring → Interceptor
interceptor_of w = interceptor_at w.digest w.policy w.lien_sweep_basis_points 1

abbrev pub transfer_of : Wiring → TransferCommand → Action TransferResult
transfer_of w = execute w.policy (interceptor_of w)

abbrev pub undoable_of : Wiring → SendOrder → Action TransferResult
undoable_of w = send w.digest w.policy (interceptor_of w) w.undo_window_seconds
