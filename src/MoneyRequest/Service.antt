-- ===== src/MoneyRequest/Service.antt =====
-- backend/modules/money_request/application/money_request_service.py: asking another user for money, and the
-- one answer that each request gets.
use money_management_pstu_ha.Prelude.{
  ℕ, ◌+◌, ◌*◌, Bool, true, false, not, String, Option, none, some, List, ◌==◌, leb, if◌then◌else◌,
  same_id,
}
use money_management_pstu_ha.Prelude.Int.{pos}
use money_management_pstu_ha.Prelude.Result.{
  not_found, self_transfer, validation, state_conflict, authorization,
}
use money_management_pstu_ha.Prelude.Exec.{lift, pure, raise, raise_if, require, ◌>>=◌, ◌>>◌}
use money_management_pstu_ha.Kernel.Money.{Money, from_minor, bdt, same_currency}
use money_management_pstu_ha.Database.{Action, clock_now, new_ulid, generate_reference}
use money_management_pstu_ha.Database.Enums.{
  RequestStatus, TransferKind, TransferStatus, is_pending,
}
use money_management_pstu_ha.Database.Schema.{Reference, MoneyRequestRecord}
use money_management_pstu_ha.Database.Json.{num, str, Fields, end, field}
use money_management_pstu_ha.Database.Words.{id_json, text_json, reference_json}
use money_management_pstu_ha.FinancialCore.Account.{Account, ensure_active}
use money_management_pstu_ha.FinancialCore.Idempotency.{fingerprint_request}
use money_management_pstu_ha.FinancialCore.Repositories.Accounts.{
  get_by_id, get_by_user_id, get_by_phone,
}
use money_management_pstu_ha.FinancialCore.Repositories.Outbox.{
  money_request_created, money_request_accepted, money_request_rejected, append_event, record_audit,
}
use money_management_pstu_ha.FinancialCore.Transfer.{
  Policy, Interceptor, TransferCommand, transfer_endpoint, execute,
}
use money_management_pstu_ha.MoneyRequest.Requests.{
  Direction, insert_request, lock_request, mark_accepted, mark_terminal, sweep_expired,
  list_for_account,
}

pub record MoneyRequestResult : Type 0 where
  pub request_id : ℕ
  pub reference : Reference
  pub status : RequestStatus
  pub transfer_reference : Option Reference

-- The arguments of `create`.
pub record RequestOrder : Type 0 where
  pub requester_user_id : ℕ
  pub payer_phone : String
  pub amount : Money
  pub note : Option String
  pub api_request_id : Option String

-- The insert, the event and the audit line of `create`.
unfoldable pub open_request : RequestOrder → ℕ → Account → Account → ℕ → Action MoneyRequestResult
open_request o expiry_hours requester payer now = do
  money_request_id ← new_ulid
  reference ← generate_reference "REQ" now
  insert_request (record {
    id = money_request_id;
    reference = reference;
    requester_account_id = requester.id;
    payer_account_id = payer.id;
    amount_minor = o.amount.minor;
    currency = o.amount.currency.code;
    note = o.note;
    status = RequestStatus.pending;
    transfer_id = none;
    expires_at = now + expiry_hours * 3_600_000;
    responded_at = none;
    created_at = now;
    updated_at = now;
  })
  append_event
      (record {
        kind = money_request_created;
        aggregate_id = money_request_id;
        occurred_at = now;
        payload = field "requestId" (num (pos money_request_id)) (
            field "reference" (reference_json reference) (
              field "requesterUserId" (num (pos o.requester_user_id)) (
                field "payerUserId" (id_json payer.user_id) (
                  field "amountMinor" (num o.amount.minor) (
                    field "currency" (str o.amount.currency.code)
                      (field "note" (text_json o.note) end))))));
      })
      o.api_request_id
  record_audit (some o.requester_user_id) "MONEY_REQUEST_CREATED" "money_request"
      (some money_request_id) o.api_request_id
      (some (
        field "amountMinor" (num o.amount.minor)
          (field "reference" (reference_json reference) end)))
      now
  pure (record {
    request_id = money_request_id;
    reference = reference;
    status = RequestStatus.pending;
    transfer_reference = none;
  })

-- `create`
unfoldable pub create : ℕ → RequestOrder → Action MoneyRequestResult
create expiry_hours o = do
  now ← clock_now
  asking ← get_by_user_id o.requester_user_id
  requester ← require asking not_found
  asked ← get_by_phone o.payer_phone
  payer ← require asked not_found
  raise_if (payer.id == requester.id) self_transfer
  lift (ensure_active requester)
  lift (ensure_active payer)
  raise_if (not (same_currency requester.balance.currency payer.balance.currency)) validation
  open_request o expiry_hours requester payer now

abbrev pub is_owned_by : ℕ → Option Account → Bool
is_owned_by user_id none = false
is_owned_by user_id (some a) = same_id a.user_id (some user_id)

-- The arguments of `accept`.
pub record Acceptance : Type 0 where
  pub request_id : ℕ
  pub payer_user_id : ℕ
  pub idempotency_key : String
  pub api_request_id : Option String

-- `actor_role`, which goes with the new status of `_terminate`.
pub data Role : Type 0 where
  payer requester : Role

abbrev pub role_status : Role → RequestStatus
role_status Role.payer = RequestStatus.rejected
role_status Role.requester = RequestStatus.cancelled

abbrev pub role_account : Role → MoneyRequestRecord → ℕ
role_account Role.payer r = r.payer_account_id
role_account Role.requester r = r.requester_account_id

abbrev role_action : Role → String
role_action Role.payer = "MONEY_REQUEST_REJECTED"
role_action Role.requester = "MONEY_REQUEST_CANCELLED"

abbrev pub announce_rejection : Role → ℕ → ℕ → Option String → ℕ → Action (Unit {0})
announce_rejection Role.payer request_id actor api_request_id now =
    append_event
      (record {
        kind = money_request_rejected;
        aggregate_id = request_id;
        occurred_at = now;
        payload =
            field "requestId" (num (pos request_id)) (field "payerUserId" (num (pos actor)) end);
      })
      api_request_id
announce_rejection Role.requester request_id actor api_request_id now = pure tt

-- `_terminate`: `reject` for the payer, `cancel` for the requester.
unfoldable pub terminate : Role → ℕ → ℕ → Option String → Action MoneyRequestResult
terminate role request_id actor api_request_id = do
  now ← clock_now
  row ← lock_request request_id
  found ← require row not_found
  account ← get_by_id (role_account role found)
  raise_if (not (is_owned_by actor account)) authorization
  rows ← mark_terminal request_id (role_status role) now
  raise_if (not (rows == 1)) state_conflict
  announce_rejection role request_id actor api_request_id now
  record_audit (some actor) (role_action role) "money_request" (some request_id) api_request_id none
      now
  pure (record {
    request_id = request_id;
    reference = found.reference;
    status = role_status role;
    transfer_reference = none;
  })

unfoldable pub reject : ℕ → ℕ → Option String → Action MoneyRequestResult
reject = terminate Role.payer

unfoldable pub cancel : ℕ → ℕ → Option String → Action MoneyRequestResult
cancel = terminate Role.requester

unfoldable pub list_for_user :
    ℕ → Direction → Option RequestStatus → ℕ → Option ℕ → Action (List MoneyRequestRecord)
list_for_user user_id direction status page cursor = do
  owned ← get_by_user_id user_id
  account ← require owned not_found
  list_for_account account.id direction status page cursor

unfoldable pub expire_due : Action ℕ
expire_due = clock_now >>= λ now. sweep_expired now

module _ (digest : Fields → String) (policy : Policy) (interceptor : Interceptor) where
  -- The command that `accept` executes.
  unfoldable pub acceptance_command : Acceptance → MoneyRequestRecord → TransferCommand
  acceptance_command a found = record {
    actor_user_id = a.payer_user_id;
    sender_account_id = found.payer_account_id;
    receiver_account_id = found.requester_account_id;
    amount = from_minor found.amount_minor bdt;
    idempotency_key = a.idempotency_key;
    request_fingerprint = fingerprint_request digest (
        field "moneyRequestId" (num (pos a.request_id))
          (field "amountMinor" (num found.amount_minor) end));
    kind = TransferKind.request_settlement;
    note = found.note;
    request_id = a.api_request_id;
    money_request_id = some a.request_id;
    enforce_limits = true;
    initial_status = TransferStatus.succeeded;
    parent_transfer_id = none;
    intended_receiver_account_id = none;
    idempotency_endpoint = transfer_endpoint;
  }

  -- The transfer of `accept` and what follows it.
  unfoldable pub pay_request : Acceptance → MoneyRequestRecord → ℕ → Action MoneyRequestResult
  pay_request a found now = do
    transfer ← execute policy interceptor (acceptance_command a found)
    rows ← mark_accepted a.request_id transfer.transfer_id now
    raise_if (not (rows == 1)) state_conflict
    append_event
        (record {
          kind = money_request_accepted;
          aggregate_id = a.request_id;
          occurred_at = now;
          payload = field "requestId" (num (pos a.request_id)) (
              field "transferId" (num (pos transfer.transfer_id)) (
                field "transferReference" (reference_json transfer.reference) (
                  field "payerUserId" (num (pos a.payer_user_id))
                    (field "amountMinor" (num found.amount_minor) end))));
        })
        a.api_request_id
    record_audit (some a.payer_user_id) "MONEY_REQUEST_ACCEPTED" "money_request" (some a.request_id)
        a.api_request_id (some (field "transferId" (num (pos transfer.transfer_id)) end)) now
    pure (record {
      request_id = a.request_id;
      reference = found.reference;
      status = RequestStatus.accepted;
      transfer_reference = some transfer.reference;
    })

  -- `accept`
  unfoldable pub accept : Acceptance → Action MoneyRequestResult
  accept a = do
    now ← clock_now
    row ← lock_request a.request_id
    found ← require row not_found
    account ← get_by_id found.payer_account_id
    raise_if (not (is_owned_by a.payer_user_id account)) not_found
    raise_if (not (is_pending found.status)) state_conflict
    (if leb found.expires_at now
        then (mark_terminal a.request_id RequestStatus.expired now >> raise state_conflict)
        else pure tt)
    pay_request a found now
