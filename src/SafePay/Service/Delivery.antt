-- ===== src/SafePay/Service/Delivery.antt =====
-- `release_with_code` and `courier_delivered` of backend/modules/safepay/application/service.py: the two proofs
-- that a parcel has arrived. A wrong code is an answer, so that the attempt it counts is committed.
use money_management_pstu_ha.Prelude.{
  ℕ, ◌+◌, ◌-◌, ◌*◌, Bool, false, not, ◌||◌, String, Option, none, some, [], ◌∷◌, ◌==◌, leb, ltb,
  text_of, if◌then◌else◌,
}
use money_management_pstu_ha.Prelude.Int.{pos}
use money_management_pstu_ha.Prelude.Result.{not_found, state_conflict, runtime_error}
use money_management_pstu_ha.Prelude.Exec.{pure, raise, raise_if, require, option_case, ◌>>=◌, ◌>>◌}
use money_management_pstu_ha.Database.{Action, clock_now}
use money_management_pstu_ha.Database.Enums.{TaskType, EscrowStatus, same_escrow_status}
use money_management_pstu_ha.Database.Schema.{SafePayEscrowRecord}
use money_management_pstu_ha.Database.Json.{num, str, flag, Fields, end, field}
use money_management_pstu_ha.Database.Words.{escrow_status_text}
use money_management_pstu_ha.FinancialCore.Repositories.Keys.{NaturalKey}
use money_management_pstu_ha.FinancialCore.Transfer.{Policy, Interceptor}
use money_management_pstu_ha.Identity.Auth.{Passwords}
use money_management_pstu_ha.SafePay.Escrows.{
  lock_escrow, find_by_tracking, is_under_way, mark_delivered, record_code_failure,
}
use money_management_pstu_ha.SafePay.Settlement.{release_locked}
use money_management_pstu_ha.SafePay.Service.{
  command_key, safepay_path, complete_command, as_replay, reserve_command,
}
use money_management_pstu_ha.Scheduling.{schedule}

abbrev pub code_max_attempts : ℕ
code_max_attempts = 5

abbrev pub is_locked_at : ℕ → Option ℕ → Bool
is_locked_at now none = false
is_locked_at now (some until) = ltb now until

-- The lock after one more wrong code.
unfoldable pub code_lock : ℕ → ℕ → ℕ → Option ℕ
code_lock lock_seconds attempts now =
    if leb code_max_attempts attempts then some (now + lock_seconds * 1000) else none

abbrev code_error : Option ℕ → String
code_error none = "INVALID_DELIVERY_CODE"
code_error (some until) = "DELIVERY_CODE_LOCKED"

abbrev code_http_status : Option ℕ → ℕ
code_http_status none = 400
code_http_status (some until) = 423

unfoldable pub locked_body : SafePayEscrowRecord → Fields
locked_body escrow = field "escrowId" (num (pos escrow.id)) (
    field "status" (str (escrow_status_text escrow.status))
      (field "errorCode" (str "DELIVERY_CODE_LOCKED") end))

unfoldable pub wrong_code_body : SafePayEscrowRecord → ℕ → Option ℕ → Fields
wrong_code_body escrow attempts locked_until = field "escrowId" (num (pos escrow.id)) (
    field "status" (str (escrow_status_text escrow.status)) (
      field "errorCode" (str (code_error locked_until))
        (field "attemptsRemaining" (num (pos (code_max_attempts - attempts))) end)))

-- The arguments of `release_with_code`.
pub record CodeEntry : Type 0 where
  pub escrow_id : ℕ
  pub seller_user_id : ℕ
  pub code : String
  pub idempotency_key : String
  pub request_id : Option String

abbrev pub code_key : CodeEntry → NaturalKey
code_key c = command_key c.seller_user_id safepay_path c.escrow_id "/release-code" c.idempotency_key

-- The arguments of `courier_delivered`.
pub record DeliveryEvent : Type 0 where
  pub courier : String
  pub tracking : String
  pub event_id : String
  pub release_immediately : Bool

abbrev courier_key : DeliveryEvent → ℕ → NaturalKey
courier_key e seller = record {
  actor_id = seller;
  endpoint = text_of ("POST:/courier/" ∷ e.courier ∷ "/delivered" ∷ []);
  key = e.event_id;
}

module _ (digest : Fields → String) (policy : Policy) (interceptor : Interceptor)
    (passwords : Passwords) (code_lock_seconds auto_release_hours : ℕ) where
  -- A code that does not verify.
  unfoldable pub refuse_code : CodeEntry → SafePayEscrowRecord → ℕ → Action Fields
  refuse_code c escrow now = do
    let attempts = escrow.delivery_code_attempts + 1
    let locked_until = code_lock code_lock_seconds attempts now
    record_code_failure escrow.id attempts locked_until now
    complete_command (code_key c) escrow.id (code_http_status locked_until)
        (wrong_code_body escrow attempts locked_until) now
    pure (wrong_code_body escrow attempts locked_until)

  -- A code that verifies.
  unfoldable pub accept_code : CodeEntry → SafePayEscrowRecord → ℕ → Action Fields
  accept_code c escrow now = do
    body ←
        release_locked digest policy interceptor escrow c.seller_user_id
          "Buyer delivery code verified" c.request_id none
    complete_command (code_key c) escrow.id 200 body now
    pure body

  -- `release_with_code` for a key that is new.
  unfoldable pub try_code : CodeEntry → ℕ → Action Fields
  try_code c now = do
    row ← lock_escrow c.escrow_id
    escrow ← require row not_found
    raise_if (not (escrow.seller_user_id == c.seller_user_id)) not_found
    raise_if (not (is_under_way escrow.status)) state_conflict
    (if is_locked_at now escrow.delivery_code_locked_until
        then (complete_command (code_key c) escrow.id 423 (locked_body escrow) now >>= λ _.
            pure (locked_body escrow))
        else (if passwords.verify escrow.delivery_code_hash c.code
            then accept_code c escrow now
            else refuse_code c escrow now))

  -- `release_with_code`
  unfoldable pub release_with_code : CodeEntry → Action Fields
  release_with_code c = do
    now ← clock_now
    replayed ← reserve_command digest (code_key c) (field "deliveryCode" (str c.code) end) now
    option_case replayed (try_code c now) (λ stored. pure (as_replay stored))

  -- The first delivery event of a parcel. The row that `refresh` reads again is there, since one was changed.
  unfoldable pub deliver : DeliveryEvent → SafePayEscrowRecord → ℕ → Action Fields
  deliver e escrow now = do
    rows ← mark_delivered escrow.id now (now + auto_release_hours * 3_600_000)
    raise_if (not (rows == 1)) state_conflict
    row ← lock_escrow escrow.id
    refreshed ← require row runtime_error
    (if e.release_immediately
        then release_locked digest policy interceptor refreshed refreshed.seller_user_id
            (text_of ("Verified " ∷ e.courier ∷ " delivery event" ∷ [])) none none
        else (schedule TaskType.escrow_auto_release escrow.id (auto_release_hours * 3600) >>= λ _.
            pure (
              field "escrowId" (num (pos escrow.id)) (
                field "status" (str "DELIVERED")
                  (field "autoReleaseAt" (num (pos (now + auto_release_hours * 3_600_000))) end)))))

  abbrev is_decided : EscrowStatus → Bool
  is_decided status =
      same_escrow_status status EscrowStatus.released
      || (same_escrow_status status EscrowStatus.refunded
          || same_escrow_status status EscrowStatus.disputed)

  -- What `courier_delivered` does on an escrow, by its status.
  unfoldable pub apply_delivery : DeliveryEvent → SafePayEscrowRecord → ℕ → Action Fields
  apply_delivery e escrow now =
      if same_escrow_status escrow.status EscrowStatus.shipped
      then deliver e escrow now
      else (if is_decided escrow.status
          then pure (
              field "escrowId" (num (pos escrow.id))
                (field "status" (str (escrow_status_text escrow.status)) end))
          else raise state_conflict)

  -- `courier_delivered`
  unfoldable pub courier_delivered : DeliveryEvent → Action Fields
  courier_delivered e = do
    row ← find_by_tracking e.courier e.tracking
    escrow ← require row not_found
    now ← clock_now
    replayed ←
        reserve_command digest (courier_key e escrow.seller_user_id)
          (field "trackingNumber" (str e.tracking)
            (field "releaseImmediately" (flag e.release_immediately) end))
          now
    option_case replayed
        (do
          body ← apply_delivery e escrow now
          complete_command (courier_key e escrow.seller_user_id) escrow.id 200 body now
          pure body)
        (λ stored. pure (as_replay stored))
