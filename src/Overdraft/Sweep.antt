-- ===== src/Overdraft/Sweep.antt =====
-- `additional_lock_ids` and `after_credit` of backend/modules/overdraft/application/service.py: the interceptor
-- of every transfer, which pays back loans from what their borrower receives, by transfers of its own. Those
-- are intercepted too; `interceptor_at n` follows that call n deep.
pub mod Kept
pub mod Once
pub mod Taken
pub mod Budget
use money_management_pstu_ha.Prelude.{
  ℕ, zero, suc, ◌-◌, ◌*◌, ◌/◌, Bool, true, false, not, ◌||◌, String, Option, none, some, List, [],
  ◌∷◌, ◌==◌, map, min, text_of, is_some, if◌then◌else◌,
}
use money_management_pstu_ha.Prelude.Int.{pos, pos_part}
use money_management_pstu_ha.Prelude.Exec.{pure, option_case, ◌>>=◌, ◌>>◌}
use money_management_pstu_ha.Kernel.Money.{Money, Currency, from_minor}
use money_management_pstu_ha.Kernel.Ids.{ulid_text}
use money_management_pstu_ha.Database.{Action, clock_now}
use money_management_pstu_ha.Database.Enums.{
  AccountType, TransferKind, TransferStatus, same_account_type, same_kind,
}
use money_management_pstu_ha.Database.Json.{num, Fields, end, field}
use money_management_pstu_ha.FinancialCore.Account.{Account}
use money_management_pstu_ha.FinancialCore.Idempotency.{fingerprint_request}
use money_management_pstu_ha.FinancialCore.Repositories.Accounts.{get_by_id}
use money_management_pstu_ha.FinancialCore.Transfer.{
  Policy, Interceptor, TransferCommand, TransferResult, no_interceptor, execute,
}
use money_management_pstu_ha.Overdraft.Loans.{LoanRow, outstanding_loans, apply_repayment}

abbrev pub is_overdraft_leg : TransferKind → Bool
is_overdraft_leg kind =
    same_kind kind TransferKind.overdraft_draw || same_kind kind TransferKind.overdraft_repay

-- The user who owns the account, if it is a `USER` account.
abbrev borrower_of : Account → Option ℕ
borrower_of a = if same_account_type a.account_type AccountType.user then a.user_id else none

abbrev optional_borrower : Option Account → Option ℕ
optional_borrower none = none
optional_borrower (some a) = borrower_of a

abbrev pool_account : LoanRow → ℕ
pool_account l = l.pool_account_id

-- `additional_lock_ids`
unfoldable pub additional_lock_ids : ℕ → TransferKind → Action (List ℕ)
additional_lock_ids receiver_account_id kind =
    if is_overdraft_leg kind
    then pure []
    else (get_by_id receiver_account_id >>= λ receiver.
        option_case (optional_borrower receiver) (pure [])
          (λ borrower. outstanding_loans borrower >>= λ loans. pure (map pool_account loans)))

-- What the loop of `after_credit` reads.
pub record Incoming : Type 0 where
  pub transfer_id : ℕ
  pub receiver_id : ℕ
  pub borrower : ℕ
  pub currency : Currency
  pub request_id : Option String

-- The share of a credit that may go to loans; 0 stands for every number below it, too.
unfoldable pub sweep_budget : Money → ℕ → ℕ
sweep_budget amount basis_points = pos_part amount.minor * basis_points / 10_000

-- `after_credit`, whose loop is `repay_all`.
unfoldable pub sweep_credit :
    (Incoming → List LoanRow → ℕ → Action (Unit {0}))
    → ℕ
    → ℕ
    → Account
    → Money
    → TransferKind
    → Option String
    → Action (Unit {0})
sweep_credit repay_all basis_points incoming receiver amount kind request_id =
    if is_overdraft_leg kind
    then pure tt
    else option_case (borrower_of receiver) (pure tt) (λ borrower.
      if sweep_budget amount basis_points == 0
      then pure tt
      else (outstanding_loans borrower >>= λ loans.
          repay_all
            (record {
              transfer_id = incoming;
              receiver_id = receiver.id;
              borrower = borrower;
              currency = amount.currency;
              request_id = request_id;
            })
            loans (sweep_budget amount basis_points)))

module _ (digest : Fields → String) where
  unfoldable pub repayment_command : Incoming → LoanRow → ℕ → TransferCommand
  repayment_command i loan amount = record {
    actor_user_id = i.borrower;
    sender_account_id = i.receiver_id;
    receiver_account_id = loan.pool_account_id;
    amount = from_minor (pos amount) i.currency;
    idempotency_key = text_of ("lien:" ∷ ulid_text i.transfer_id ∷ ":" ∷ ulid_text loan.id ∷ []);
    request_fingerprint = fingerprint_request digest (
        field "incomingTransferId" (num (pos i.transfer_id))
          (field "loanId" (num (pos loan.id)) (field "amountMinor" (num (pos amount)) end)));
    kind = TransferKind.overdraft_repay;
    note = some "Automatic Spot-Me repayment";
    request_id = i.request_id;
    money_request_id = none;
    enforce_limits = false;
    initial_status = TransferStatus.succeeded;
    parent_transfer_id = none;
    intended_receiver_account_id = none;
    idempotency_endpoint = "INTERNAL:/overdraft/lien-repayment";
  }

  module _ (transfer : TransferCommand → Action TransferResult) where
    -- One turn of the loop.
    unfoldable pub repay : Incoming → LoanRow → ℕ → Action (Unit {0})
    repay i loan amount = do
      repayment ← transfer (repayment_command i loan amount)
      now ← clock_now
      apply_repayment
          (record {
            loan_id = loan.id;
            transfer_id = repayment.transfer_id;
            amount_minor = pos amount;
            triggered_by_transfer_id = i.transfer_id;
          })
          now

    -- The loop. The query gives only amounts above zero.
    unfoldable pub repay_loans : Incoming → List LoanRow → ℕ → Action (Unit {0})
    repay_loans i [] budget = pure tt
    repay_loans i (loan ∷ loans) budget =
        let amount = min budget (pos_part loan.outstanding_minor) in
        let rest = repay_loans i loans (budget - amount) in
        if budget == 0 then pure tt else (repay i loan amount >> rest)

    -- `after_credit`
    unfoldable pub after_credit :
        ℕ → ℕ → Account → Money → TransferKind → Option String → Action (Unit {0})
    after_credit = sweep_credit repay_loans

  module _ (policy : Policy) (basis_points : ℕ) where
    unfoldable pub interceptor_with : (TransferCommand → Action TransferResult) → Interceptor
    interceptor_with transfer = record {
      additional_lock_ids = additional_lock_ids;
      after_credit = after_credit transfer basis_points;
    }

    unfoldable pub interceptor_at : ℕ → Interceptor
    interceptor_at zero = no_interceptor
    interceptor_at (suc depth) = interceptor_with (execute policy (interceptor_at depth))
