-- ===== src/FinancialCore/Repositories/Outbox.antt =====
-- `SqlOutboxPublisher` and `SqlAuditRepository`, with the events of
-- backend/modules/financial_core/domain/events.py.
use money_management_pstu_ha.Prelude.{ℕ, String, Option, none, [], ◌∷◌, ◌++◌}
use money_management_pstu_ha.Prelude.Exec.{modify, ◌>>=◌}
use money_management_pstu_ha.Database.{Action, new_ulid}
use money_management_pstu_ha.Database.Json.{Fields}

-- The subclasses of `DomainEvent`.
pub data EventKind : Type 0 where
  transfer_succeeded money_request_created money_request_accepted money_request_rejected : EventKind

unfoldable pub event_type : EventKind → String
event_type transfer_succeeded = "financial.transfer.succeeded.v1"
event_type money_request_created = "money_request.created.v1"
event_type money_request_accepted = "money_request.accepted.v1"
event_type money_request_rejected = "money_request.rejected.v1"

unfoldable pub aggregate_type : EventKind → String
aggregate_type transfer_succeeded = "transfer"
aggregate_type money_request_created = "money_request"
aggregate_type money_request_accepted = "money_request"
aggregate_type money_request_rejected = "money_request"

pub record DomainEvent : Type 0 where
  pub kind : EventKind
  pub aggregate_id : ℕ
  pub occurred_at : ℕ
  pub payload : Fields

unfoldable pub append_event : DomainEvent → Option String → Action (Unit {0})
append_event event trace_id = do
  event_id ← new_ulid
  modify (λ db. record db {
    outbox_events =
        db.outbox_events
        ++ (record {
          id = event_id;
          aggregate_type = aggregate_type event.kind;
          aggregate_id = event.aggregate_id;
          event_type = event_type event.kind;
          payload = event.payload;
          trace_id = trace_id;
          occurred_at = event.occurred_at;
          published_at = none;
          attempt_count = 0;
          next_attempt_at = none;
          dead_lettered_at = none;
        }
            ∷ []);
  })

unfoldable pub record_audit :
    Option ℕ → String → String → Option ℕ → Option String → Option Fields → ℕ → Action (Unit {0})
record_audit actor action resource_type resource_id request_id metadata now = do
  audit_id ← new_ulid
  modify (λ db. record db {
    audit_log =
        db.audit_log
        ++ (record {
          id = audit_id;
          actor_user_id = actor;
          action = action;
          resource_type = resource_type;
          resource_id = resource_id;
          request_id = request_id;
          event_metadata = metadata;
          created_at = now;
        }
            ∷ []);
  })
