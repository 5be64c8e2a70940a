-- ===== src/Scheduling.antt =====
-- backend/platform_/scheduling/repository.py: durable timers. `FOR UPDATE SKIP LOCKED` only leaves out rows that
-- other workers hold; here the session sees no such rows. The text of the last error is left out. Delays are
-- in seconds, times in milliseconds of the database's clock.
pub mod Lifecycle
pub mod Once
pub mod Cancelled
use money_management_pstu_ha.Prelude.{
  ℕ, zero, suc, ◌+◌, ◌*◌, ◌^◌, Bool, true, false, ◌&&◌, Option, none, some, List, [], ◌∷◌, ◌++◌,
  ltb, leb, ◌==◌, if◌then◌else◌, is_some, find, select, count, update,
}
use money_management_pstu_ha.Prelude.Exec.{gets, modify, pure, ◌>>=◌, ◌>>◌}
use money_management_pstu_ha.Database.{Db, Action, database_now, new_ulid}
use money_management_pstu_ha.Database.Enums.{TaskType, TaskStatus, is_pending_task, same_task_type}
use money_management_pstu_ha.Database.Schema.{ScheduledTaskRecord}

abbrev pub is_task_of : TaskType → ℕ → ScheduledTaskRecord → Bool
is_task_of task_type resource_id r =
    same_task_type r.task_type task_type && r.resource_id == resource_id

-- `INSERT … ON CONFLICT (task_type, resource_id) DO NOTHING`
unfoldable pub schedule : TaskType → ℕ → ℕ → Action ℕ
schedule task_type resource_id delay_seconds = do
  task_id ← new_ulid
  now ← database_now
  modify (λ db. record db {
    scheduled_tasks =
        if is_some (find (is_task_of task_type resource_id) db.scheduled_tasks)
        then db.scheduled_tasks
        else db.scheduled_tasks
          ++ (record {
            id = task_id;
            task_type = task_type;
            resource_id = resource_id;
            due_at = now + delay_seconds * 1000;
            status = TaskStatus.pending;
            attempt_count = 0;
            completed_at = none;
          }
              ∷ []);
  })
  pure task_id

abbrev pub is_due : ℕ → ScheduledTaskRecord → Bool
is_due now r = is_pending_task r.status && leb r.due_at now

-- `ORDER BY due_at`
unfoldable pub insert_by_due :
    ScheduledTaskRecord → List ScheduledTaskRecord → List ScheduledTaskRecord
insert_by_due a [] = a ∷ []
insert_by_due a (b ∷ bs) =
    let later = insert_by_due a bs in if leb a.due_at b.due_at then a ∷ b ∷ bs else b ∷ later

unfoldable pub order_by_due : List ScheduledTaskRecord → List ScheduledTaskRecord
order_by_due [] = []
order_by_due (a ∷ rest) = insert_by_due a (order_by_due rest)

-- `LIMIT`
unfoldable pub limit_to : ℕ → List ScheduledTaskRecord → List ScheduledTaskRecord
limit_to zero rows = []
limit_to (suc n) [] = []
limit_to (suc n) (r ∷ rows) = r ∷ limit_to n rows

unfoldable pub claim_due : ℕ → Action (List ScheduledTaskRecord)
claim_due batch_size = do
  now ← database_now
  gets (λ db. limit_to batch_size (order_by_due (select (is_due now) db.scheduled_tasks)))

abbrev pub has_task_id : ℕ → ScheduledTaskRecord → Bool
has_task_id id r = id == r.id

abbrev pub ended : TaskStatus → ℕ → ScheduledTaskRecord → ScheduledTaskRecord
ended status now r = record r { status = status; completed_at = some now }

unfoldable pub complete_task : ℕ → Action (Unit {0})
complete_task task_id = do
  now ← database_now
  modify (λ db. record db {
    scheduled_tasks = update (has_task_id task_id) (ended TaskStatus.done now) db.scheduled_tasks;
  })

abbrev pub is_pending_of : TaskType → ℕ → ScheduledTaskRecord → Bool
is_pending_of task_type resource_id r =
    is_task_of task_type resource_id r && is_pending_task r.status

-- `cancel`: returns the number of rows changed.
unfoldable pub cancel : TaskType → ℕ → Action ℕ
cancel task_type resource_id = do
  now ← database_now
  rows ← gets (λ db. count (is_pending_of task_type resource_id) db.scheduled_tasks)
  modify (λ db. record db {
    scheduled_tasks =
        update (is_pending_of task_type resource_id) (ended TaskStatus.cancelled now)
          db.scheduled_tasks;
  })
  pure rows

abbrev pub backoff_seconds : ℕ → ℕ
backoff_seconds attempt = if ltb 300 (2 ^ attempt) then 300 else 2 ^ attempt

abbrev pub failed_once_more : ℕ → ℕ → ℕ → ScheduledTaskRecord → ScheduledTaskRecord
failed_once_more attempt max_attempts now r =
    if leb max_attempts attempt
    then record r { attempt_count = attempt; status = TaskStatus.failed }
    else record r {
      attempt_count = attempt;
      status = TaskStatus.pending;
      due_at = now + backoff_seconds attempt * 1000;
    }

unfoldable pub record_failure : ℕ → ℕ → ℕ → Action (Unit {0})
record_failure task_id attempt max_attempts = do
  now ← database_now
  modify (λ db. record db {
    scheduled_tasks =
        update (has_task_id task_id) (failed_once_more attempt max_attempts now) db.scheduled_tasks;
  })
