-- ===== src/System/Worker.antt =====
-- `run_due_tasks` of backend/apps/scheduler_worker/main.py: one batch of timers, each in a savepoint.
use money_management_pstu_ha.Prelude.{ℕ, suc, ◌+◌, List, [], ◌∷◌}
use money_management_pstu_ha.Prelude.Result.{Result, ok, err}
use money_management_pstu_ha.Prelude.Exec.{pure, savepoint, ◌>>=◌, ◌>>◌}
use money_management_pstu_ha.Prelude.Exec.Ensures.{
  Keeps, Keeps-bind, Keeps-lift, Keeps-gets, Keeps-modify, savepoint-Keeps,
}
use money_management_pstu_ha.Database.{Db, Action}
use money_management_pstu_ha.Database.Enums.{TaskType}
use money_management_pstu_ha.Database.Schema.{ScheduledTaskRecord}
use money_management_pstu_ha.FinancialCore.Books.Writes.{database_now-Keeps}
use money_management_pstu_ha.FinancialCore.Undo.{settle}
use money_management_pstu_ha.MoneyRequest.Service.{expire_due}
use money_management_pstu_ha.SafePay.Service.Commands.{auto_release}
use money_management_pstu_ha.Scheduling.{claim_due, complete_task, record_failure}
use money_management_pstu_ha.System.Wiring.{Wiring, interceptor_of}
use money_management_pstu_ha.System.Invariant.{IsInvariant}
use money_management_pstu_ha.System.Windows.{settle-Keeps}
use money_management_pstu_ha.System.Escrows.{auto_release-Keeps}
use money_management_pstu_ha.System.Requests.{expire_due-Keeps}

abbrev batch_size : ℕ
batch_size = 50

abbrev max_attempts : ℕ
max_attempts = 8

module _ (w : Wiring) where
  -- What a timer does, by its type; a link has no code to expire it.
  unfoldable pub run_timer : TaskType → ℕ → Action (Unit {0})
  run_timer TaskType.undo_settle id =
      settle w.digest w.policy (interceptor_of w) w.undo_window_seconds id >>= λ _. pure tt
  run_timer TaskType.escrow_auto_release id =
      auto_release w.digest w.policy (interceptor_of w) w.passwords w.code_digest id >>= λ _.
      pure tt
  run_timer TaskType.money_request_expiry id = expire_due >>= λ _. pure tt
  run_timer TaskType.link_expiry id = pure tt

  abbrev settle_task : ScheduledTaskRecord → Result (Unit {0}) → ℕ → Action ℕ
  settle_task t (ok done) completed = pure (suc completed)
  settle_task t (err e) completed =
      record_failure t.id (t.attempt_count + 1) max_attempts >> pure completed

  unfoldable pub run_tasks : List ScheduledTaskRecord → ℕ → Action ℕ
  run_tasks [] completed = pure completed
  run_tasks (t ∷ tasks) completed = do
    outcome ← savepoint (run_timer t.task_type t.resource_id >> complete_task t.id)
    counted ← settle_task t outcome completed
    run_tasks tasks counted

  -- `run_due_tasks`: the number of timers that completed.
  unfoldable pub run_due_tasks : Action ℕ
  run_due_tasks = claim_due batch_size >>= λ tasks. run_tasks tasks 0

  module _ {P : Db → Type 0} (kept : IsInvariant w.policy (interceptor_of w) P) where
    run_timer-Keeps : (t : TaskType) (id : ℕ) → Keeps P (run_timer t id)
    unfolding run_timer
    run_timer-Keeps TaskType.undo_settle id =
        Keeps-bind _ _ (settle-Keeps w.digest kept _ id) λ _. Keeps-lift _
    run_timer-Keeps TaskType.escrow_auto_release id =
        Keeps-bind _ _ (auto_release-Keeps kept w.digest w.passwords w.code_digest id)
          λ _. Keeps-lift _
    run_timer-Keeps TaskType.money_request_expiry id =
        Keeps-bind _ _ (expire_due-Keeps kept) λ _. Keeps-lift _
    run_timer-Keeps TaskType.link_expiry id = Keeps-lift _

    complete_task-Keeps : (id : ℕ) → Keeps P (complete_task id)
    unfolding complete_task
    complete_task-Keeps id =
        Keeps-bind _ _ (database_now-Keeps kept.logs)
          λ now. Keeps-modify _ (λ db h. kept.rest.tasks db _ h)

    settle_task-Keeps :
        (t : ScheduledTaskRecord) (outcome : Result (Unit {0})) (completed : ℕ)
        → Keeps P (settle_task t outcome completed)
    unfolding record_failure
    settle_task-Keeps t (ok done) completed = Keeps-lift _
    settle_task-Keeps t (err e) completed =
        Keeps-bind _ _
          (Keeps-bind _ _ (database_now-Keeps kept.logs)
            λ now. Keeps-modify _ (λ db h. kept.rest.tasks db _ h))
          λ _. Keeps-lift _

    run_tasks-Keeps :
        (tasks : List ScheduledTaskRecord) (completed : ℕ) → Keeps P (run_tasks tasks completed)
    unfolding run_tasks
    run_tasks-Keeps [] completed = Keeps-lift _
    run_tasks-Keeps (t ∷ tasks) completed =
        Keeps-bind _ _
          (savepoint-Keeps _ (
            Keeps-bind _ _ (run_timer-Keeps t.task_type t.resource_id)
              λ _. complete_task-Keeps t.id))
          λ outcome.
            Keeps-bind _ _ (settle_task-Keeps t outcome completed)
              λ counted. run_tasks-Keeps tasks counted

    pub run_due_tasks-Keeps : Keeps P run_due_tasks
    unfolding run_due_tasks claim_due
    run_due_tasks-Keeps =
        Keeps-bind _ _ (Keeps-bind _ _ (database_now-Keeps kept.logs) λ now. Keeps-gets _)
          λ tasks. run_tasks-Keeps tasks 0
