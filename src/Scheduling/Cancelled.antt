-- ===== src/Scheduling/Cancelled.antt =====
-- A timer that is cancelled stays so (backend/platform_/scheduling/repository.py).
use money_management_pstu_ha.Prelude.{
  ℕ, ◌≡◌, refl, sym, ap, ◌∙◌, Bool, true, false, not, ◌&&◌, none, ◌+◌, ◌*◌, ◌||◌, List, [], ◌∷◌,
  arith, ◌==◌, is_some, find, update, All, All-append, All-both, All-map, All-update, find-update,
  find-append, Bool-cases, inl, inr,
}
use money_management_pstu_ha.Prelude.Result.{ok}
use money_management_pstu_ha.Prelude.Exec.{lift, gets, modify, atomically, pure, ◌>>=◌}
use money_management_pstu_ha.Prelude.Exec.Ensures.{
  Keeps, Keeps-bind, Keeps-lift, Keeps-gets, Keeps-modify, atomically-Keeps,
}
use money_management_pstu_ha.Database.{Db, Action, database_now}
use money_management_pstu_ha.Database.Enums.{TaskType, TaskStatus, same_task_type}
use money_management_pstu_ha.Database.Schema.{ScheduledTaskRecord}
use money_management_pstu_ha.Scheduling.{
  is_task_of, has_task_id, is_pending_of, ended, failed_once_more, schedule, cancel, complete_task,
  record_failure, claim_due,
}
use money_management_pstu_ha.Scheduling.Lifecycle.{after_cancel, claim_due-none_of}
use money_management_pstu_ha.Scheduling.Once.{same_type, same_number, new_ulid-Keeps_tasks}

-- What is done to timers, each a transaction, and the time of the database.
pub data TimerEvent : Type 0 where
  schedules : TaskType → ℕ → ℕ → TimerEvent
  cancels : TaskType → ℕ → TimerEvent
  completes : ℕ → TimerEvent
  fails : ℕ → ℕ → ℕ → TimerEvent
  waits_until : ℕ → TimerEvent

abbrev timer_action : TimerEvent → Action (Unit {0})
timer_action (schedules t resource delay) = schedule t resource delay >>= λ _. pure tt
timer_action (cancels t resource) = cancel t resource >>= λ _. pure tt
timer_action (completes id) = complete_task id
timer_action (fails id attempt max_attempts) = record_failure id attempt max_attempts
timer_action (waits_until now) = modify (λ db. record db { db_clock = now })

abbrev pub after_events : List TimerEvent → Db → Db
after_events [] db = db
after_events (e ∷ events) db = after_events events (atomically (timer_action e) db).1

-- Whether an event is something else than a failure of the timer.
abbrev pub is_no_failure_of : ℕ → TimerEvent → Bool
is_no_failure_of id (schedules t resource delay) = true
is_no_failure_of id (cancels t resource) = true
is_no_failure_of id (completes other) = true
is_no_failure_of id (fails other attempt max_attempts) = not (id == other)
is_no_failure_of id (waits_until now) = true

-- Whether a task is of the type and for the resource.
abbrev pub is_for : TaskType → ℕ → ScheduledTaskRecord → Bool
is_for t resource r = same_task_type r.task_type t && r.resource_id == resource

-- Whether a task, if it is of the type and for the resource, has the id.
abbrev pub is_named : TaskType → ℕ → ℕ → ScheduledTaskRecord → Bool
is_named t resource id r = not (is_for t resource r) || id == r.id

abbrev IsEnded : TaskType → ℕ → ℕ → ScheduledTaskRecord → Type 0
IsEnded t resource id r = (is_named t resource id r ≡ true) × (is_pending_of t resource r ≡ false)

-- There is a task of the type for the resource, every such task has the id, and none is pending.
record IsCancelled (t : TaskType) (resource id : ℕ) (tasks : List ScheduledTaskRecord)
    : Type 0 where
  pub there : is_some (find (is_task_of t resource) tasks) ≡ true
  pub each : All (IsEnded t resource id) tasks

find-same :
    (p q : ScheduledTaskRecord → Bool) (rows : List ScheduledTaskRecord)
    → ((r : ScheduledTaskRecord) → p r ≡ q r)
    → find p rows ≡ find q rows
unfolding find
find-same p q [] same = refl
find-same p q (r ∷ rows) same = ground (arith, same r, find-same p q rows same)

-- Two types and resources that one task is of are the same.
same_task :
    (t u : TaskType) (resource other : ℕ) (r : ScheduledTaskRecord)
    → is_task_of t resource r ≡ true
    → is_task_of u other r ≡ true
    → (x : ScheduledTaskRecord) → is_task_of t resource x ≡ is_task_of u other x
same_task t u resource other r h k x = ground (arith, h, k)

-- A row that is scheduled for another type or resource.
not_this :
    (t u : TaskType) (resource other : ℕ) (row : ScheduledTaskRecord)
    (tasks : List ScheduledTaskRecord)
    → is_task_of u other row ≡ true
    → is_some (find (is_task_of t resource) tasks) ≡ true
    → is_some (find (is_task_of u other) tasks) ≡ false
    → is_task_of t resource row ≡ false
not_this t u resource other row tasks its there absent =
    elim (Bool-cases (is_task_of t resource row)) [
      | inl same ↦
          let contradicts : false ≡ true =
            sym absent
            ∙ ap is_some (
                find-same (is_task_of u other) (is_task_of t resource) tasks
                  (λ x. sym (same_task t u resource other row same its x)))
            ∙ there in
          cc
      | inr differs ↦ differs
    ]

-- The row that `schedule` inserts.
abbrev queued : ℕ → TaskType → ℕ → ℕ → ScheduledTaskRecord
queued id t resource due_at = record {
  id = id;
  task_type = t;
  resource_id = resource;
  due_at = due_at;
  status = TaskStatus.pending;
  attempt_count = 0;
  completed_at = none;
}

module _ (t : TaskType) (resource id : ℕ) where
  abbrev StaysCancelled : Db → Type 0
  StaysCancelled db = IsCancelled t resource id db.scheduled_tasks

  schedule-StaysCancelled :
      (u : TaskType) (other delay : ℕ) → Keeps StaysCancelled (schedule u other delay)
  unfolding schedule database_now
  schedule-StaysCancelled u other delay =
      Keeps-bind _ _ (new_ulid-Keeps_tasks (IsCancelled t resource id)) λ task_id.
        Keeps-bind _ _ (Keeps-gets _) λ now.
          Keeps-bind _ _
            (Keeps-modify _ λ db h.
              elim (Bool-cases (is_some (find (is_task_of u other) db.scheduled_tasks))) [
                | inl known ↦ rw known h
                | inr absent ↦
                    let differs =
                      not_this t u resource other (queued task_id u other (now + delay * 1000))
                        db.scheduled_tasks (rw (same_type u, same_number other) refl) h.there
                        absent in
                    rw absent (record {
                      there = find-append (is_task_of t resource) db.scheduled_tasks _ h.there;
                      each =
                          All-append (IsEnded t resource id) db.scheduled_tasks _ h.each
                            ((ground (arith, differs), ground (arith, differs)), tt);
                    })
              ])
            λ _. Keeps-lift _

  update-StaysCancelled :
      (hit : ScheduledTaskRecord → Bool) (f : ScheduledTaskRecord → ScheduledTaskRecord)
      → ((r : ScheduledTaskRecord) → is_task_of t resource (f r) ≡ is_task_of t resource r)
      → ((r : ScheduledTaskRecord)
          → hit r ≡ true
          → IsEnded t resource id r
          → IsEnded t resource id (f r))
      → Keeps StaysCancelled
          (modify (λ db. record db { scheduled_tasks = update hit f db.scheduled_tasks }))
  update-StaysCancelled hit f same keeps = Keeps-modify _ λ db h. record {
    there = find-update (is_task_of t resource) hit f db.scheduled_tasks same ∙ h.there;
    each = All-update (IsEnded t resource id) hit f keeps db.scheduled_tasks h.each;
  }

  event-StaysCancelled :
      (e : TimerEvent) → is_no_failure_of id e ≡ true → Keeps StaysCancelled (timer_action e)
  unfolding cancel complete_task record_failure database_now
  event-StaysCancelled (schedules u other delay) spared =
      Keeps-bind _ _ (schedule-StaysCancelled u other delay) λ _. Keeps-lift _
  event-StaysCancelled (cancels u other) spared =
      Keeps-bind _ _
        (Keeps-bind _ _ (Keeps-gets _) λ now. Keeps-bind _ _ (Keeps-gets _) λ rows.
          Keeps-bind _ _
            (update-StaysCancelled (is_pending_of u other) (ended TaskStatus.cancelled now)
              (λ r. refl) (λ r hit h. (h.0, ground arith)))
            λ _. Keeps-lift _)
        λ _. Keeps-lift _
  event-StaysCancelled (completes other) spared = Keeps-bind _ _ (Keeps-gets _) λ now.
      update-StaysCancelled (has_task_id other) (ended TaskStatus.done now) (λ r. refl)
        (λ r hit h. (h.0, ground arith))
  event-StaysCancelled (fails other attempt max_attempts) spared =
      Keeps-bind _ _ (Keeps-gets _) λ now.
        update-StaysCancelled (has_task_id other) (failed_once_more attempt max_attempts now)
          (λ r. ground arith) (λ r hit h. (ground (arith, h.0), ground (arith, hit, h.0, spared)))
  event-StaysCancelled (waits_until now) spared = Keeps-modify _ λ db h. h

  events-StaysCancelled :
      (events : List TimerEvent) (db : Db)
      → All (λ e. is_no_failure_of id e ≡ true) events
      → StaysCancelled db
      → StaysCancelled (after_events events db)
  events-StaysCancelled [] db spared h = h
  events-StaysCancelled (e ∷ events) db spared h =
      events-StaysCancelled events (atomically (timer_action e) db).1 spared.1
        (atomically-Keeps (timer_action e) (event-StaysCancelled e spared.0) db h)

  cancel-IsCancelled :
      (db : Db)
      → is_some (find (is_task_of t resource) db.scheduled_tasks) ≡ true
      → All (λ r. is_named t resource id r ≡ true) db.scheduled_tasks
      → StaysCancelled (cancel t resource db).1
  unfolding cancel database_now ◌>>=◌ gets modify lift
  cancel-IsCancelled db there named =
      let f = ended TaskStatus.cancelled db.db_clock in
      record {
        there =
            find-update (is_task_of t resource) (is_pending_of t resource) f db.scheduled_tasks
              (λ r. refl)
            ∙ there;
        each =
            All-both _ _ _
              (All-update _ (is_pending_of t resource) f (λ r hit h. h) db.scheduled_tasks named)
              (after_cancel t resource db.db_clock db.scheduled_tasks);
      }

  -- A timer that is there, the only one of its type for its resource, and is cancelled, is never claimed
  -- again: after any transactions that schedule, cancel, complete or fail timers, but for a failure of this
  -- one, and at whatever time, what a worker claims holds no task of that type for that resource.
  pub claim_due-cancel :
      (batch_size : ℕ) (db : Db) (events : List TimerEvent)
      → is_some (find (is_for t resource) db.scheduled_tasks) ≡ true
      → All (λ r. is_named t resource id r ≡ true) db.scheduled_tasks
      → All (λ e. is_no_failure_of id e ≡ true) events
      → let later = after_events events (cancel t resource db).1 in
        (rows : List ScheduledTaskRecord) × (claim_due batch_size later ≡ (ok rows, later))
        × All (λ r. is_for t resource r ≡ false) rows
  claim_due-cancel batch_size db events there named spared =
      let still = events-StaysCancelled events _ spared (cancel-IsCancelled db there named) in
      claim_due-none_of t resource batch_size (after_events events (cancel t resource db).1)
        (All-map _ _ (λ r h. h.1) _ still.each)
