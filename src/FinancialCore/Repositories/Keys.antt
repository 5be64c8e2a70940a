-- ===== src/FinancialCore/Repositories/Keys.antt =====
-- `SqlIdempotencyRepository`. A competing transaction blocks the insert until it ends, so the session sees
-- no half-made decision; a key that it finds was committed, or reserved by itself.
use money_management_pstu_ha.Prelude.{
  ℕ, String, Bool, not, ◌&&◌, Option, none, some, [], ◌∷◌, ◌++◌, ◌==◌, str_eq, find, update,
  if◌then◌else◌,
}
use money_management_pstu_ha.Prelude.Exec.{gets, modify, pure, option_case, ◌>>=◌, ◌>>◌}
use money_management_pstu_ha.Database.{Db, Action}
use money_management_pstu_ha.Database.Enums.{IdempotencyStatus}
use money_management_pstu_ha.Database.Json.{Fields}
use money_management_pstu_ha.Database.Schema.{IdempotencyRecord}
use money_management_pstu_ha.FinancialCore.Idempotency.{
  IdempotencyDecision, proceed, replay, in_progress, payload_mismatch, decide_as,
}

-- The primary key of the table.
pub record NaturalKey : Type 0 where
  pub actor_id : ℕ
  pub endpoint : String
  pub key : String

abbrev pub matches : NaturalKey → IdempotencyRecord → Bool
matches k r =
    k.actor_id == r.actor_id && (str_eq k.endpoint r.endpoint && str_eq k.key r.idempotency_key)

unfoldable pub find_key : NaturalKey → Db → Option IdempotencyRecord
find_key k db = find (matches k) db.idempotency_records

-- What is decided on a key that exists.
unfoldable pub decide_existing : String → IdempotencyRecord → IdempotencyDecision
decide_existing fingerprint r =
    if not (str_eq r.request_fingerprint fingerprint)
    then decide_as payload_mismatch
    else elim r.status [
      | IdempotencyStatus.completed ↦ record {
        outcome = replay;
        stored_status = r.http_status;
        stored_body = r.response_body;
        resource_id = r.resource_id;
      }
      | IdempotencyStatus.processing ↦ decide_as in_progress
    ]

-- `INSERT … ON CONFLICT DO NOTHING`, then the row that was in the way.
unfoldable pub reserve : NaturalKey → String → ℕ → Action IdempotencyDecision
reserve k fingerprint now = do
  existing ← gets (find_key k)
  option_case existing
      (modify (λ db. record db {
        idempotency_records =
            db.idempotency_records
            ++ (record {
              actor_id = k.actor_id;
              endpoint = k.endpoint;
              idempotency_key = k.key;
              request_fingerprint = fingerprint;
              status = IdempotencyStatus.processing;
              resource_id = none;
              http_status = none;
              response_body = none;
              created_at = now;
              completed_at = none;
            }
                ∷ []);
      })
        >> pure (decide_as proceed))
      (λ r. pure (decide_existing fingerprint r))

abbrev pub completed_with : ℕ → ℕ → Fields → ℕ → IdempotencyRecord → IdempotencyRecord
completed_with resource_id http_status body now r = record r {
  status = IdempotencyStatus.completed;
  resource_id = some resource_id;
  http_status = some http_status;
  response_body = some body;
  completed_at = some now;
}

unfoldable pub complete : NaturalKey → ℕ → ℕ → Fields → ℕ → Action (Unit {0})
complete k resource_id http_status body now = modify (λ db. record db {
  idempotency_records =
      update (matches k) (completed_with resource_id http_status body now) db.idempotency_records;
})
