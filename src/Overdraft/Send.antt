-- ===== src/Overdraft/Send.antt =====
-- `send` of backend/modules/overdraft/application/service.py, which borrows what the sender is short of and then
-- sends as any undoable transfer. `transfer` is `TransferUseCase.execute` and `send_undoable` is
-- `UndoableTransferService.send`, with their interceptor.
use money_management_pstu_ha.Prelude.{
  ℕ, ◌+◌, ◌*◌, Bool, false, ◌&&◌, String, Option, none, some, List, [], ◌∷◌, ◌==◌, ltb, map,
  text_of, is_some, if◌then◌else◌,
}
use money_management_pstu_ha.Prelude.Int.{pos, pos_part, ◌-ℤ◌, leb_ℤ}
use money_management_pstu_ha.Prelude.Result.{not_found, insufficient_funds}
use money_management_pstu_ha.Prelude.Exec.{lift, pure, raise_if, require, option_case, ◌>>=◌, ◌>>◌}
use money_management_pstu_ha.Kernel.Money.{Money, from_minor}
use money_management_pstu_ha.Database.{Action, clock_now}
use money_management_pstu_ha.Database.Enums.{TransferKind, TransferStatus}
use money_management_pstu_ha.Database.Json.{
  Json, null, num, str, flag, obj, Fields, end, field, put,
}
use money_management_pstu_ha.Database.Words.{text_json}
use money_management_pstu_ha.FinancialCore.Account.{
  Account, ensure_owned_by, pending_settlement_account_id,
}
use money_management_pstu_ha.FinancialCore.Idempotency.{fingerprint_request}
use money_management_pstu_ha.FinancialCore.Repositories.Accounts.{lock_for_update, get_locked}
use money_management_pstu_ha.FinancialCore.Repositories.Keys.{NaturalKey}
use money_management_pstu_ha.FinancialCore.Transfer.{
  TransferCommand, TransferResult, transfer_endpoint, to_response,
}
use money_management_pstu_ha.FinancialCore.Undo.{SendOrder}
use money_management_pstu_ha.Overdraft.Pools.{GrantRow, active_grants_for_borrower}
use money_management_pstu_ha.Overdraft.Loans.{create_loan}
use money_management_pstu_ha.Overdraft.Service.{complete_command, as_replay, reserve_command}

abbrev pub shortfall_of : Money → Account → ℕ
shortfall_of amount sender = pos_part (amount.minor -ℤ sender.balance.minor)

abbrev has_funds : ℕ → Option Account → Bool
has_funds shortfall none = false
has_funds shortfall (some pool) = leb_ℤ (pos shortfall) pool.balance.minor

-- `next(…)` on the grants: the first that covers the shortfall, as its grant and as its pool. The accounts
-- of all pools are locked.
unfoldable pub select_grant : ℕ → List Account → List GrantRow → Option GrantRow
select_grant shortfall locked [] = none
select_grant shortfall locked (g ∷ grants) =
    let others = select_grant shortfall locked grants in
    if leb_ℤ (pos shortfall) g.max_draw_minor
      && has_funds shortfall (get_locked g.pool_account_id locked)
    then some g
    else others

abbrev pool_account : GrantRow → ℕ
pool_account g = g.pool_account_id

abbrev draw_json : Option Fields → Json
draw_json none = null
draw_json (some body) = obj body

module _ (digest : Fields → String) where
  -- A key that is derived from the client's.
  unfoldable pub derived_key : String → String → String
  derived_key prefix client_key =
      text_of (prefix ∷ fingerprint_request digest (field "clientKey" (str client_key) end) ∷ [])

  unfoldable pub draw_command : SendOrder → GrantRow → ℕ → TransferCommand
  draw_command o g shortfall = record {
    actor_user_id = g.sponsor_user_id;
    sender_account_id = g.pool_account_id;
    receiver_account_id = o.sender_account_id;
    amount = from_minor (pos shortfall) o.amount.currency;
    idempotency_key = derived_key "spot-draw:" o.idempotency_key;
    request_fingerprint = fingerprint_request digest (
        field "poolId" (num (pos g.pool_id)) (
          field "borrowerUserId" (num (pos o.actor_user_id))
            (field "amountMinor" (num (pos shortfall)) end)));
    kind = TransferKind.overdraft_draw;
    note = some "Automatic Spot-Me shortfall";
    request_id = o.request_id;
    money_request_id = none;
    enforce_limits = false;
    initial_status = TransferStatus.succeeded;
    parent_transfer_id = none;
    intended_receiver_account_id = none;
    idempotency_endpoint = "INTERNAL:/overdraft/draw";
  }

  module _ (transfer : TransferCommand → Action TransferResult) where
    -- The draw of `send`, on a shortfall.
    unfoldable pub borrow :
        ℕ → SendOrder → List GrantRow → List Account → ℕ → ℕ → Action (Option Fields)
    borrow service_max o grants locked shortfall now = do
      selected ← require (select_grant shortfall locked grants) insufficient_funds
      raise_if (ltb service_max shortfall) insufficient_funds
      drawn ← transfer (draw_command o selected shortfall)
      loan_id ←
          create_loan selected.pool_id o.actor_user_id drawn.transfer_id (pos shortfall)
            o.amount.currency.code now
      pure (
          some (
            field "loanId" (num (pos loan_id)) (
              field "poolId" (num (pos selected.pool_id)) (
                field "drawTransferId" (num (pos drawn.transfer_id))
                  (field "amountMinor" (num (pos shortfall)) end)))))

    module _ (send_undoable : SendOrder → Action TransferResult)
        (service_max window_seconds : ℕ) where
      abbrev send_key : SendOrder → NaturalKey
      send_key o = record {
        actor_id = o.actor_user_id;
        endpoint = transfer_endpoint;
        key = o.idempotency_key;
      }

      -- The order that `send` passes on.
      unfoldable pub undoable_order : SendOrder → SendOrder
      undoable_order o = record o {
        idempotency_key = derived_key "undo-hold:" o.idempotency_key;
        idempotency_endpoint = "INTERNAL:/transfers/undo-hold";
      }

      unfoldable pub send_body : TransferResult → Option Fields → Fields
      send_body held drawn = put "replayed" (flag false) (
          put "overdraft" (draw_json drawn) (
            put "overdraftUsed" (flag (is_some drawn)) (
              put "undoExpiresAt" (num (pos (held.completed_at + window_seconds * 1000)))
                (to_response held))))

      -- `send` for a key that is new.
      unfoldable pub send_once : SendOrder → ℕ → Action Fields
      send_once o now = do
        grants ← active_grants_for_borrower o.actor_user_id
        locked ←
            lock_for_update
              (o.sender_account_id ∷ pending_settlement_account_id ∷ map pool_account grants)
        sender ← require (get_locked o.sender_account_id locked) not_found
        lift (ensure_owned_by sender o.actor_user_id)
        drawn ←
            (if shortfall_of o.amount sender == 0
              then pure none
              else borrow service_max o grants locked (shortfall_of o.amount sender) now)
        held ← send_undoable (undoable_order o)
        complete_command (send_key o) held.transfer_id (send_body held drawn) now
        pure (send_body held drawn)

      -- `send`
      unfoldable pub send : SendOrder → Action Fields
      send o = do
        now ← clock_now
        replayed ←
            reserve_command digest (send_key o)
              (field "senderAccountId" (num (pos o.sender_account_id)) (
                field "receiverAccountId" (num (pos o.receiver_account_id)) (
                  field "amountMinor" (num o.amount.minor) (
                    field "currency" (str o.amount.currency.code)
                      (field "note" (text_json o.note) end)))))
              now
        option_case replayed (send_once o now) (λ stored. pure (as_replay stored))
