-- ===== src/Overdraft/Service.antt =====
-- The sponsor's commands of backend/modules/overdraft/application/service.py. `transfer` is
-- `TransferUseCase.execute` with its interceptor.
use money_management_pstu_ha.Prelude.{
  ℕ, true, String, Option, none, some, [], ◌∷◌, ◌==◌, text_of, is_some, if◌then◌else◌,
}
use money_management_pstu_ha.Prelude.Int.{ℤ, pos, ltb_ℤ}
use money_management_pstu_ha.Prelude.Result.{not_found, conflict, self_transfer}
use money_management_pstu_ha.Prelude.Exec.{lift, pure, raise_if, require, option_case, ◌>>=◌, ◌>>◌}
use money_management_pstu_ha.Kernel.Money.{Money}
use money_management_pstu_ha.Kernel.Ids.{ulid_text, ulid_suffix}
use money_management_pstu_ha.Database.{Action, clock_now, new_ulid}
use money_management_pstu_ha.Database.Enums.{
  AccountType, TransferKind, TransferStatus, is_open, is_active_user,
}
use money_management_pstu_ha.Database.Schema.{OverdraftPoolRecord, UserRecord}
use money_management_pstu_ha.Database.Json.{Json, num, str, flag, Fields, end, field, put, without}
use money_management_pstu_ha.FinancialCore.Account.{Account}
use money_management_pstu_ha.FinancialCore.Idempotency.{fingerprint_request, replay_body_or_raise}
use money_management_pstu_ha.FinancialCore.Repositories.Accounts.{
  get_by_id, get_by_user_id, create_subaccount,
}
use money_management_pstu_ha.FinancialCore.Repositories.Keys.{NaturalKey, reserve, complete}
use money_management_pstu_ha.FinancialCore.Repositories.Outbox.{record_audit}
use money_management_pstu_ha.FinancialCore.Transfer.{TransferCommand, TransferResult}
use money_management_pstu_ha.Identity.Users.{get_user_by_phone}
use money_management_pstu_ha.Overdraft.Pools.{
  get_pool_for_sponsor, insert_pool, insert_grant, get_grant,
}

-- `_audit_event`
unfoldable pub audit_event : ℕ → String → ℕ → Option String → Fields → Action (Unit {0})
audit_event actor action resource_id request_id metadata = do
  now ← clock_now
  record_audit (some actor) action "overdraft" (some resource_id) request_id (some metadata) now

-- `_complete`
unfoldable pub complete_command : NaturalKey → ℕ → Fields → ℕ → Action (Unit {0})
complete_command key resource_id body now =
    complete key resource_id 201 (without "replayed" body) now

abbrev pub as_replay : Fields → Fields
as_replay body = put "replayed" (flag true) body

abbrev active_pool : Option OverdraftPoolRecord → Option OverdraftPoolRecord
active_pool none = none
active_pool (some p) = if is_open p.status then some p else none

abbrev active_user : Option UserRecord → Option UserRecord
active_user none = none
active_user (some u) = if is_active_user u.status then some u else none

-- The arguments of `create_pool` and of `fund_pool`.
pub record Funding : Type 0 where
  pub sponsor_user_id : ℕ
  pub amount : Money
  pub idempotency_key : String
  pub request_id : Option String

-- The arguments of `grant_access`.
pub record GrantOrder : Type 0 where
  pub sponsor_user_id : ℕ
  pub beneficiary_phone : String
  pub max_draw_minor : ℤ
  pub idempotency_key : String
  pub request_id : Option String

abbrev balance_json : Option Account → Json
balance_json none = num (pos 0)
balance_json (some a) = num a.balance.minor

module _ (digest : Fields → String) where
  -- `_reserve`
  unfoldable pub reserve_command : NaturalKey → Fields → ℕ → Action (Option Fields)
  reserve_command key payload now = do
    decision ← reserve key (fingerprint_request digest payload) now
    lift (replay_body_or_raise decision)

  unfoldable pub funding_command : Funding → ℕ → ℕ → ℕ → String → String → String → TransferCommand
  funding_command f sender pool_id pool_account_id key text endpoint = record {
    actor_user_id = f.sponsor_user_id;
    sender_account_id = sender;
    receiver_account_id = pool_account_id;
    amount = f.amount;
    idempotency_key = key;
    request_fingerprint =
        fingerprint_request digest
          (field "poolId" (num (pos pool_id)) (field "amountMinor" (num f.amount.minor) end));
    kind = TransferKind.overdraft_fund;
    note = some text;
    request_id = f.request_id;
    money_request_id = none;
    enforce_limits = true;
    initial_status = TransferStatus.succeeded;
    parent_transfer_id = none;
    intended_receiver_account_id = none;
    idempotency_endpoint = endpoint;
  }

  abbrev grant_key : GrantOrder → NaturalKey
  grant_key o = record {
    actor_id = o.sponsor_user_id;
    endpoint = "POST:/api/v1/overdraft/grants";
    key = o.idempotency_key;
  }

  -- `grant_access` for a key that is new.
  unfoldable pub grant_once : ℕ → GrantOrder → ℕ → Action Fields
  grant_once service_max o now = do
    found ← get_pool_for_sponsor o.sponsor_user_id
    person ← get_user_by_phone o.beneficiary_phone
    pool ← require (active_pool found) not_found
    beneficiary ← require (active_user person) not_found
    raise_if (beneficiary.id == o.sponsor_user_id) self_transfer
    raise_if (ltb_ℤ (pos service_max) o.max_draw_minor) conflict
    granted ← get_grant pool.id beneficiary.id
    raise_if (is_some granted) conflict
    grant_id ← new_ulid
    insert_grant grant_id pool.id beneficiary.id o.max_draw_minor now
    let body = field "grantId" (num (pos grant_id)) (
        field "poolId" (num (pos pool.id)) (
          field "beneficiaryName" (str beneficiary.display_name) (
            field "beneficiaryPhone" (str beneficiary.phone)
              (field "maxDrawMinor" (num o.max_draw_minor) (field "status" (str "ACTIVE") end)))))
    complete_command (grant_key o) grant_id body now
    audit_event o.sponsor_user_id "OVERDRAFT_ACCESS_GRANTED" grant_id o.request_id (
        field "beneficiaryUserId" (num (pos beneficiary.id))
          (field "maxDrawMinor" (num o.max_draw_minor) end))
    pure body

  -- `grant_access`
  unfoldable pub grant_access : ℕ → GrantOrder → Action Fields
  grant_access service_max o = do
    now ← clock_now
    replayed ←
        reserve_command (grant_key o)
          (field "beneficiaryPhone" (str o.beneficiary_phone)
            (field "maxDrawMinor" (num o.max_draw_minor) end))
          now
    option_case replayed (grant_once service_max o now) (λ stored. pure (as_replay stored))

  module _ (transfer : TransferCommand → Action TransferResult) where
    abbrev pool_key : Funding → NaturalKey
    pool_key f = record {
      actor_id = f.sponsor_user_id;
      endpoint = "POST:/api/v1/overdraft/pools";
      key = f.idempotency_key;
    }

    -- `create_pool` for a key that is new.
    unfoldable pub create_pool_once : Funding → ℕ → Action Fields
    create_pool_once f now = do
      existing ← get_pool_for_sponsor f.sponsor_user_id
      raise_if (is_some existing) conflict
      owned ← get_by_user_id f.sponsor_user_id
      sponsor ← require owned not_found
      pool_id ← new_ulid
      pool_account_id ← new_ulid
      create_subaccount pool_account_id (some f.sponsor_user_id) AccountType.overdraft_pool
          (text_of ("POOL-" ∷ ulid_suffix 12 pool_id ∷ [])) f.amount.currency.code now
      insert_pool pool_id f.sponsor_user_id pool_account_id f.amount.currency.code now
      funding ← transfer (
          funding_command f sponsor.id pool_id pool_account_id
            (text_of ("pool-fund:" ∷ ulid_text pool_id ∷ [])) "Fund Spot-Me pool"
            "INTERNAL:/overdraft/fund")
      let body = field "poolId" (num (pos pool_id)) (
          field "poolAccountId" (num (pos pool_account_id)) (
            field "status" (str "ACTIVE") (
              field "balanceMinor" (num f.amount.minor) (
                field "currency" (str f.amount.currency.code)
                  (field "fundingTransferId" (num (pos funding.transfer_id)) end)))))
      complete_command (pool_key f) pool_id body now
      audit_event f.sponsor_user_id "OVERDRAFT_POOL_CREATED" pool_id f.request_id
          (field "amountMinor" (num f.amount.minor) end)
      pure body

    -- `create_pool`
    unfoldable pub create_pool : Funding → Action Fields
    create_pool f = do
      now ← clock_now
      replayed ←
          reserve_command (pool_key f)
            (field "amountMinor" (num f.amount.minor)
              (field "currency" (str f.amount.currency.code) end))
            now
      option_case replayed (create_pool_once f now) (λ stored. pure (as_replay stored))

    -- `fund_pool`
    unfoldable pub fund_pool : Funding → Action Fields
    fund_pool f = do
      found ← get_pool_for_sponsor f.sponsor_user_id
      pool ← require (active_pool found) not_found
      owned ← get_by_user_id f.sponsor_user_id
      sponsor ← require owned not_found
      funding ← transfer (
          funding_command f sponsor.id pool.id pool.pool_account_id f.idempotency_key
            "Top up Spot-Me pool"
            (text_of ("POST:/api/v1/overdraft/pools/" ∷ ulid_text pool.id ∷ "/fund" ∷ [])))
      account ← get_by_id pool.pool_account_id
      pure (
          field "poolId" (num (pos pool.id)) (
            field "status" (str "ACTIVE") (
              field "balanceMinor" (balance_json account) (
                field "currency" (str f.amount.currency.code) (
                  field "fundingTransferId" (num (pos funding.transfer_id))
                    (field "replayed" (flag funding.replayed) end))))))
