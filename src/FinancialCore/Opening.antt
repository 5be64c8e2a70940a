-- ===== src/FinancialCore/Opening.antt =====
-- backend/modules/financial_core/application/open_account.py: a new account and its welcome grant.
use money_management_pstu_ha.Prelude.{
  ℕ, false, String, Option, none, some, [], ◌∷◌, text_of, if◌then◌else◌,
}
use money_management_pstu_ha.Prelude.Int.{pos}
use money_management_pstu_ha.Prelude.Exec.{pure, ◌>>=◌, ◌>>◌}
use money_management_pstu_ha.Kernel.Money.{Money, is_positive}
use money_management_pstu_ha.Kernel.Ids.{ulid_text}
use money_management_pstu_ha.Database.{Action, new_ulid}
use money_management_pstu_ha.Database.Enums.{TransferKind, TransferStatus}
use money_management_pstu_ha.Database.Json.{num, Fields, end, field}
use money_management_pstu_ha.FinancialCore.Account.{system_issuance_account_id}
use money_management_pstu_ha.FinancialCore.Idempotency.{fingerprint_request}
use money_management_pstu_ha.FinancialCore.Repositories.Accounts.{create}
use money_management_pstu_ha.FinancialCore.Transfer.{
  Policy, Interceptor, TransferCommand, transfer_endpoint, execute,
}

module _ (digest : Fields → String) (policy : Policy) (interceptor : Interceptor) where
  unfoldable pub grant_command : ℕ → ℕ → Money → Option String → TransferCommand
  grant_command user_id account_id opening_balance request_id = record {
    actor_user_id = user_id;
    sender_account_id = system_issuance_account_id;
    receiver_account_id = account_id;
    amount = opening_balance;
    idempotency_key = text_of ("signup-grant:" ∷ ulid_text user_id ∷ []);
    request_fingerprint =
        fingerprint_request digest (
          field "userId" (num (pos user_id)) (field "amountMinor" (num opening_balance.minor) end));
    kind = TransferKind.signup_grant;
    note = some "Welcome bonus";
    request_id = request_id;
    money_request_id = none;
    enforce_limits = false;
    initial_status = TransferStatus.succeeded;
    parent_transfer_id = none;
    intended_receiver_account_id = none;
    idempotency_endpoint = transfer_endpoint;
  }

  -- `OpenAccountUseCase.execute`: returns the new account's id.
  unfoldable pub open_account : ℕ → Money → String → ℕ → Option String → Action ℕ
  open_account user_id opening_balance account_number now request_id = do
    account_id ← new_ulid
    create account_id user_id account_number opening_balance.currency.code now
    (if is_positive opening_balance
        then (execute policy interceptor
              (grant_command user_id account_id opening_balance request_id)
            >>= λ _. pure tt)
        else pure tt)
    pure account_id
