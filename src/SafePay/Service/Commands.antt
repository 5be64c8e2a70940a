-- ===== src/SafePay/Service/Commands.antt =====
-- `create`, `mark_shipped`, `confirm_received`, `dispute`, `resolve_dispute`, `auto_release` and `detail` of
-- backend/modules/safepay/application/service.py.
use money_management_pstu_ha.Prelude.{
  ℕ, ◌%◌, true, false, not, ◌&&◌, ◌||◌, String, Option, none, some, [], ◌∷◌, ◌==◌, str_eq, text_of,
  if◌then◌else◌,
}
use money_management_pstu_ha.Prelude.Int.{pos}
use money_management_pstu_ha.Prelude.Result.{not_found, state_conflict}
use money_management_pstu_ha.Prelude.Exec.{lift, pure, raise_if, require, option_case, ◌>>=◌, ◌>>◌}
use money_management_pstu_ha.Kernel.Ids.{ulid_text}
use money_management_pstu_ha.Database.{Action, clock_now, draw, new_ulid, generate_reference}
use money_management_pstu_ha.Database.Enums.{
  TransferKind, TransferStatus, EscrowStatus, same_escrow_status,
}
use money_management_pstu_ha.Database.Schema.{SafePayEscrowRecord}
use money_management_pstu_ha.Database.Json.{num, str, flag, Fields, end, field, put}
use money_management_pstu_ha.Database.Words.{reference_json, text_json}
use money_management_pstu_ha.FinancialCore.Account.{escrow_account_id}
use money_management_pstu_ha.FinancialCore.Repositories.Keys.{NaturalKey}
use money_management_pstu_ha.FinancialCore.Transfer.{Policy, Interceptor, TransferResult}
use money_management_pstu_ha.FinancialCore.Holding.{hold}
use money_management_pstu_ha.Identity.Auth.{Passwords}
use money_management_pstu_ha.SafePay.Escrows.{insert_escrow, lock_escrow}
use money_management_pstu_ha.SafePay.Settlement.{audit_event, release_locked, refund_locked}
use money_management_pstu_ha.SafePay.Service.{
  EscrowOrder, Resolution, command_key, safepay_path, six_digits, complete_command, as_replay,
  escrow_id_of, reserve_command, state_command, mark_shipped_once, dispute_once, close_buyer,
  require_visible,
}

module _ (digest : Fields → String) (policy : Policy) (interceptor : Interceptor)
    (passwords : Passwords) (code_digest : ℕ → ℕ) where
  -- `_delivery_code`
  unfoldable pub delivery_code : ℕ → String
  delivery_code escrow_id = six_digits (code_digest escrow_id % 1_000_000)

  abbrev create_key : EscrowOrder → NaturalKey
  create_key o = record {
    actor_id = o.buyer_user_id;
    endpoint = "POST:/api/v1/safepay";
    key = o.idempotency_key;
  }

  -- The row that `create` inserts.
  unfoldable pub new_escrow : EscrowOrder → ℕ → TransferResult → String → ℕ → Action Fields
  new_escrow o escrow_id held code_hash now = do
    reference ← generate_reference "SAFE" now
    insert_escrow (record {
      id = escrow_id;
      reference = reference;
      hold_transfer_id = held.transfer_id;
      settlement_transfer_id = none;
      buyer_user_id = o.buyer_user_id;
      seller_user_id = o.seller_user_id;
      amount_minor = o.amount.minor;
      currency = o.amount.currency.code;
      description = o.description;
      status = EscrowStatus.awaiting_shipment;
      delivery_code_hash = code_hash;
      delivery_code_attempts = 0;
      delivery_code_locked_until = none;
      tracking_number = none;
      courier_slug = none;
      shipped_at = none;
      delivered_at = none;
      auto_release_at = none;
      settled_at = none;
      dispute_reason = none;
      disputed_at = none;
      resolution_note = none;
      created_at = now;
      updated_at = now;
    })
    pure (
        field "escrowId" (num (pos escrow_id)) (
          field "reference" (reference_json reference) (
            field "holdTransferId" (num (pos held.transfer_id)) (
              field "status" (str "AWAITING_SHIPMENT") (
                field "amountMinor" (num o.amount.minor)
                  (field "currency" (str o.amount.currency.code) end))))))

  -- `create` for a key that is new.
  unfoldable pub open_escrow : EscrowOrder → ℕ → Action Fields
  open_escrow o now = do
    escrow_id ← new_ulid
    held ← hold digest policy interceptor (record {
      actor_user_id = o.buyer_user_id;
      payer_account_id = o.buyer_account_id;
      holding_account_id = escrow_account_id;
      amount = o.amount;
      kind = TransferKind.escrow_hold;
      pending_status = TransferStatus.held;
      idempotency_key = text_of ("safepay-hold:" ∷ ulid_text escrow_id ∷ []);
      note = o.description;
      request_id = o.request_id;
      enforce_limits = true;
      intended_receiver_account_id = some o.seller_account_id;
      idempotency_endpoint = "INTERNAL:/safepay/hold";
    })
    salt ← draw
    body ← new_escrow o escrow_id held (passwords.hash salt (delivery_code escrow_id)) now
    complete_command (create_key o) escrow_id 201 body now
    audit_event (some o.buyer_user_id) "SAFEPAY_CREATED" escrow_id o.request_id (
        field "amountMinor" (num o.amount.minor)
          (field "sellerUserId" (num (pos o.seller_user_id)) end))
    pure (put "replayed" (flag false) (put "deliveryCode" (str (delivery_code escrow_id)) body))

  -- `create`
  unfoldable pub create : EscrowOrder → Action Fields
  create o = do
    now ← clock_now
    replayed ←
        reserve_command digest (create_key o)
          (field "sellerUserId" (num (pos o.seller_user_id)) (
            field "amountMinor" (num o.amount.minor) (
              field "currency" (str o.amount.currency.code)
                (field "description" (text_json o.description) end))))
          now
    option_case replayed (open_escrow o now) (λ stored. do
      escrow_id ← lift (escrow_id_of stored)
      pure (as_replay (put "deliveryCode" (str (delivery_code escrow_id)) stored)))

  -- `mark_shipped`
  unfoldable pub ship : ℕ → ℕ → String → String → String → Option String → Action Fields
  ship escrow_id seller courier tracking key request_id =
      state_command digest (command_key seller safepay_path escrow_id "/ship" key)
        (field "courier" (str courier) (field "trackingNumber" (str tracking) end))
        (mark_shipped_once escrow_id seller courier tracking request_id)

  -- `_buyer_release_once`
  unfoldable pub buyer_release_once : ℕ → ℕ → Option String → Action Fields
  buyer_release_once escrow_id buyer request_id = do
    row ← lock_escrow escrow_id
    escrow ← require row not_found
    raise_if (not (escrow.buyer_user_id == buyer)) not_found
    raise_if
        (not (
          same_escrow_status escrow.status EscrowStatus.shipped
          || same_escrow_status escrow.status EscrowStatus.delivered))
        state_conflict
    release_locked digest policy interceptor escrow buyer "Buyer confirmed receipt" request_id none

  -- `confirm_received`
  unfoldable pub confirm_received : ℕ → ℕ → String → Option String → Action Fields
  confirm_received escrow_id buyer key request_id =
      state_command digest (command_key buyer safepay_path escrow_id "/confirm-received" key)
        (field "escrowId" (num (pos escrow_id)) end)
        (λ now. buyer_release_once escrow_id buyer request_id)

  -- `dispute`
  unfoldable pub dispute : ℕ → ℕ → String → String → Option String → Action Fields
  dispute escrow_id buyer reason key request_id =
      state_command digest (command_key buyer safepay_path escrow_id "/dispute" key)
        (field "reason" (str reason) end) (dispute_once escrow_id buyer reason request_id)

  -- `_resolve_once`
  unfoldable pub resolve_once : Resolution → Action Fields
  resolve_once r = do
    row ← lock_escrow r.escrow_id
    escrow ← require row not_found
    raise_if (not (same_escrow_status escrow.status EscrowStatus.disputed)) state_conflict
    (if str_eq r.decision "RELEASE"
        then (do
          body ←
              release_locked digest policy interceptor escrow escrow.seller_user_id r.note
                r.request_id (some r.note)
          (if r.ban_buyer
              then (close_buyer escrow.buyer_user_id >>= λ _.
                  pure (put "buyerBanned" (flag true) body))
              else pure body))
        else refund_locked digest policy interceptor escrow r.note r.request_id r.note)

  -- `resolve_dispute`: the actor of the key is the escrow itself.
  unfoldable pub resolve_dispute : Resolution → Action Fields
  resolve_dispute r =
      state_command digest
        (command_key r.escrow_id "POST:/api/v1/admin/safepay/" r.escrow_id "/resolve"
          r.idempotency_key)
        (field "decision" (str r.decision)
          (field "note" (str r.note) (field "banBuyer" (flag r.ban_buyer) end)))
        (λ now. resolve_once r)

  -- `auto_release`
  unfoldable pub auto_release : ℕ → Action (Option Fields)
  auto_release escrow_id = do
    row ← lock_escrow escrow_id
    option_case row (pure none) (λ escrow.
        if not (same_escrow_status escrow.status EscrowStatus.delivered)
        then pure none
        else (release_locked digest policy interceptor escrow escrow.seller_user_id
              "SafePay dispute window elapsed" none none
            >>= λ body. pure (some body)))

  -- `detail`, as the row and the code that its buyer may still see.
  unfoldable pub detail : ℕ → ℕ → Action (SafePayEscrowRecord × Option String)
  detail escrow_id user_id = do
    escrow ← require_visible escrow_id user_id
    let ended =
        same_escrow_status escrow.status EscrowStatus.released
        || same_escrow_status escrow.status EscrowStatus.refunded
    pure (
      escrow,
      if escrow.buyer_user_id == user_id && not ended then some (delivery_code escrow.id) else none,
    )
