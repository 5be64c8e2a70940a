-- ===== src/SafePay/Service.antt =====
-- backend/modules/safepay/application/service.py: the commands on an escrow. Each reserves its idempotency key,
-- runs once, and stores its answer under the key. The first eight bytes of the HMAC are the parameter
-- `code_digest`. Messages in answers are left out.
pub mod Commands
pub mod Delivery
use money_management_pstu_ha.Prelude.{
  ℕ, ◌/◌, ◌%◌, Bool, true, false, not, ◌&&◌, ◌||◌, String, Option, none, some, List, [], ◌∷◌, ◌==◌,
  str_eq, text_of, if◌then◌else◌,
}
use money_management_pstu_ha.Prelude.Int.{ℤ, pos, pos_part}
use money_management_pstu_ha.Prelude.Result.{Result, ok, err, key_error, not_found, state_conflict}
use money_management_pstu_ha.Prelude.Exec.{
  lift, gets, pure, raise, raise_if, require, option_case, ◌>>=◌, ◌>>◌,
}
use money_management_pstu_ha.Kernel.Money.{Money}
use money_management_pstu_ha.Kernel.Ids.{ulid_text}
use money_management_pstu_ha.Database.{Action, clock_now, draw, new_ulid, generate_reference}
use money_management_pstu_ha.Database.Enums.{
  TransferKind, TransferStatus, TaskType, EscrowStatus, AccountStatus, UserStatus,
  same_escrow_status,
}
use money_management_pstu_ha.Database.Schema.{SafePayEscrowRecord}
use money_management_pstu_ha.Database.Json.{
  Json, null, num, str, flag, Fields, end, field, get, put, without, int_or,
}
use money_management_pstu_ha.Database.Words.{reference_json, text_json, escrow_status_text}
use money_management_pstu_ha.FinancialCore.Account.{escrow_account_id}
use money_management_pstu_ha.FinancialCore.Idempotency.{fingerprint_request, replay_body_or_raise}
use money_management_pstu_ha.FinancialCore.Repositories.Accounts.{get_by_user_id, set_status}
use money_management_pstu_ha.FinancialCore.Repositories.Keys.{NaturalKey, reserve, complete}
use money_management_pstu_ha.FinancialCore.Transfer.{Policy, Interceptor, TransferResult}
use money_management_pstu_ha.FinancialCore.Holding.{HoldOrder, hold}
use money_management_pstu_ha.Identity.Auth.{Passwords}
use money_management_pstu_ha.Identity.Users.{set_user_status}
use money_management_pstu_ha.Identity.Sessions.{revoke_all_for_user}
use money_management_pstu_ha.SafePay.Escrows.{
  find_escrow, insert_escrow, lock_escrow, is_under_way, mark_shipped, mark_disputed,
}
use money_management_pstu_ha.SafePay.Settlement.{audit_event, release_locked, refund_locked}
use money_management_pstu_ha.Scheduling.{cancel}

-- The arguments of `create`.
pub record EscrowOrder : Type 0 where
  pub buyer_user_id : ℕ
  pub buyer_account_id : ℕ
  pub seller_user_id : ℕ
  pub seller_account_id : ℕ
  pub amount : Money
  pub description : Option String
  pub idempotency_key : String
  pub request_id : Option String

-- The key of a command: `f"POST:/api/v1/safepay/{escrow_id}/…"`.
abbrev pub command_key : ℕ → String → ℕ → String → String → NaturalKey
command_key actor prefix escrow_id suffix key = record {
  actor_id = actor;
  endpoint = text_of (prefix ∷ ulid_text escrow_id ∷ suffix ∷ []);
  key = key;
}

abbrev pub safepay_path : String
safepay_path = "POST:/api/v1/safepay/"

abbrev digit_text : ℕ → String
digit_text d =
    if d == 0
    then "0"
    else (if d == 1
        then "1"
        else (if d == 2
            then "2"
            else (if d == 3
                then "3"
                else (if d == 4
                    then "4"
                    else (if d == 5
                        then "5"
                        else (if d == 6
                            then "6"
                            else (if d == 7 then "7" else (if d == 8 then "8" else "9"))))))))

-- `f"{n:06d}"`
unfoldable pub six_digits : ℕ → String
six_digits n = text_of (
    digit_text (n / 100_000 % 10)
    ∷ digit_text (n / 10_000 % 10)
    ∷ digit_text (n / 1000 % 10)
    ∷ digit_text (n / 100 % 10)
    ∷ digit_text (n / 10 % 10)
    ∷ digit_text (n % 10)
    ∷ [])

-- `_complete`
unfoldable pub complete_command : NaturalKey → ℕ → ℕ → Fields → ℕ → Action (Unit {0})
complete_command key resource_id http_status body now =
    complete key resource_id http_status (without "deliveryCode" (without "replayed" body)) now

-- `replay["replayed"] = True`
abbrev pub as_replay : Fields → Fields
as_replay body = put "replayed" (flag true) body

-- `body["escrowId"]`
unfoldable pub escrow_id_of : Fields → Result ℕ
escrow_id_of body = elim (get "escrowId" body) [
  | none ↦ err key_error
  | some j ↦ ok (pos_part (int_or (pos 0) (some j)))
]

module _ (digest : Fields → String) where
  -- `_reserve`
  unfoldable pub reserve_command : NaturalKey → Fields → ℕ → Action (Option Fields)
  reserve_command key payload now = do
    decision ← reserve key (fingerprint_request digest payload) now
    lift (replay_body_or_raise decision)

  -- `_state_command`
  unfoldable pub state_command : NaturalKey → Fields → (ℕ → Action Fields) → Action Fields
  state_command key payload run = do
    now ← clock_now
    replayed ← reserve_command key payload now
    option_case replayed
        (do
          body ← run now
          escrow_id ← lift (escrow_id_of body)
          complete_command key escrow_id 200 body now
          pure body)
        (λ stored. pure (as_replay stored))

-- `_mark_shipped_once`
unfoldable pub mark_shipped_once : ℕ → ℕ → String → String → Option String → ℕ → Action Fields
mark_shipped_once escrow_id seller courier tracking request_id now = do
  rows ← mark_shipped escrow_id seller courier tracking now
  raise_if (not (rows == 1)) state_conflict
  audit_event (some seller) "SAFEPAY_SHIPPED" escrow_id request_id
      (field "courier" (str courier) (field "trackingNumber" (str tracking) end))
  pure (
      field "escrowId" (num (pos escrow_id)) (
        field "status" (str "SHIPPED")
          (field "courier" (str courier) (field "trackingNumber" (str tracking) end))))

-- `_dispute_once`
unfoldable pub dispute_once : ℕ → ℕ → String → Option String → ℕ → Action Fields
dispute_once escrow_id buyer reason request_id now = do
  rows ← mark_disputed escrow_id buyer reason now
  raise_if (not (rows == 1)) state_conflict
  cancel TaskType.escrow_auto_release escrow_id >>= λ _. pure tt
  audit_event (some buyer) "SAFEPAY_DISPUTED" escrow_id request_id (field "reason" (str reason) end)
  pure (field "escrowId" (num (pos escrow_id)) (field "status" (str "DISPUTED") end))

-- `ban_buyer`
unfoldable pub close_buyer : ℕ → Action (Unit {0})
close_buyer buyer = do
  set_user_status buyer UserStatus.closed >>= λ _. pure tt
  owned ← get_by_user_id buyer
  option_case owned (pure tt)
      (λ account. set_status account.id AccountStatus.closed >>= λ _. pure tt)
  now ← clock_now
  revoke_all_for_user buyer now

-- The arguments of `resolve_dispute`.
pub record Resolution : Type 0 where
  pub escrow_id : ℕ
  pub decision : String
  pub note : String
  pub ban_buyer : Bool
  pub idempotency_key : String
  pub request_id : Option String

-- `_require_visible`
unfoldable pub require_visible : ℕ → ℕ → Action SafePayEscrowRecord
require_visible escrow_id user_id = do
  row ← gets (find_escrow escrow_id)
  escrow ← require row not_found
  raise_if (not (user_id == escrow.buyer_user_id || user_id == escrow.seller_user_id)) not_found
  pure escrow
