-- ===== src/FinancialCore/Idempotency.antt =====
-- backend/modules/financial_core/application/idempotency.py: what the store decided about a key, and the
-- fingerprint of a request. `json.dumps` and SHA-256 are the parameter `digest`.
use Prim.Native.Nat.{Ordering}
use Prim.Native.String.{compare}
use money_management_pstu_ha.Prelude.{ℕ, String, Option, none, some}
use money_management_pstu_ha.Prelude.Result.{
  Result, ok, err, idempotency_key_reuse, request_in_progress,
}
use money_management_pstu_ha.Database.Json.{Json, Fields, end, field}

pub data IdempotencyOutcome : Type 0 where
  proceed replay in_progress payload_mismatch : IdempotencyOutcome

pub record IdempotencyDecision : Type 0 where
  pub outcome : IdempotencyOutcome
  pub stored_status : Option ℕ
  pub stored_body : Option Fields
  pub resource_id : Option ℕ

-- `IdempotencyDecision(outcome=…)`
abbrev pub decide_as : IdempotencyOutcome → IdempotencyDecision
decide_as outcome = record {
  outcome = outcome;
  stored_status = none;
  stored_body = none;
  resource_id = none;
}

-- `sort_keys=True`: the fields of an object in the order of their keys.
unfoldable pub insert_field : String → Json → Fields → Fields
insert_field k v end = field k v end
insert_field k v (field j w rest) =
    let later = insert_field k v rest in
    elim (compare j k) [ Ordering.gt ↦ field k v (field j w rest) | _ ↦ field j w later ]

unfoldable pub sort_keys : Fields → Fields
sort_keys end = end
sort_keys (field k v rest) = insert_field k v (sort_keys rest)

-- The payloads of this program hold no nested objects.
unfoldable pub fingerprint_request : (Fields → String) → Fields → String
fingerprint_request digest payload = digest (sort_keys payload)

abbrev pub stored_or_empty : Option Fields → Fields
stored_or_empty none = end
stored_or_empty (some body) = body

unfoldable pub replay_body_or_raise : IdempotencyDecision → Result (Option Fields)
replay_body_or_raise decision = elim decision.outcome [
  | proceed ↦ ok none
  | payload_mismatch ↦ err idempotency_key_reuse
  | in_progress ↦ err request_in_progress
  | replay ↦ ok (some (stored_or_empty decision.stored_body))
]
