-- ===== src/Scheduling/Once.antt =====
-- Scheduling is idempotent (backend/platform_/scheduling/repository.py).
use money_management_pstu_ha.Prelude.{
  ℕ, ◌≡◌, refl, Bool, true, List, [], ◌∷◌, ◌++◌, arith, ◌==◌, is_some, find, Bool-cases, inl, inr,
}
use money_management_pstu_ha.Prelude.Exec.Ensures.{
  Ensures, Keeps, Keeps-bind, Keeps-gets, Keeps-lift, Keeps-modify, Ensures-any, Ensures-bind,
  after-modify, ends-lift,
}
use money_management_pstu_ha.Database.{Db, new_ulid, clock_now, draw, database_now}
use money_management_pstu_ha.Database.Enums.{TaskType, same_task_type}
use money_management_pstu_ha.Database.Schema.{ScheduledTaskRecord}
use money_management_pstu_ha.Scheduling.{is_task_of, schedule}

found-append :
    (test : ScheduledTaskRecord → Bool) (rows : List ScheduledTaskRecord) (r : ScheduledTaskRecord)
    → test r ≡ true
    → is_some (find test (rows ++ (r ∷ []))) ≡ true
unfolding find
found-append test [] r h = rw h refl
found-append test (x ∷ rows) r h = elim (Bool-cases (test x)) [
  | inl hit ↦ rw hit refl
  | inr miss ↦ rw miss (found-append test rows r h)
]

pub same_type : (t : TaskType) → same_task_type t t ≡ true
same_type TaskType.undo_settle = refl
same_type TaskType.escrow_auto_release = refl
same_type TaskType.link_expiry = refl
same_type TaskType.money_request_expiry = refl

pub same_number : (n : ℕ) → (n == n) ≡ true
same_number n = ground arith

abbrev pub IsScheduled : TaskType → ℕ → Db → Type 0
IsScheduled t resource db = is_some (find (is_task_of t resource) db.scheduled_tasks) ≡ true

-- When `schedule` returns, there is a task of that type for that resource, from any database.
pub schedule-IsScheduled :
    (t : TaskType) (resource delay : ℕ)
    → Ensures (λ _. Unit {0}) (schedule t resource delay) (λ _ db. IsScheduled t resource db)
unfolding schedule
schedule-IsScheduled t resource delay = Ensures-bind _ _ Ensures-any λ id.
    Ensures-bind _ _ Ensures-any λ now.
      after-modify (IsScheduled t resource) _ _
        (λ db _. elim (Bool-cases (is_some (find (is_task_of t resource) db.scheduled_tasks))) [
          | inl there ↦ rw there there
          | inr absent ↦
              rw absent
                (found-append _ db.scheduled_tasks _ (rw (same_type t, same_number resource) refl))
        ])
        (ends-lift _ λ _ _ db h. h)

-- Drawing an identifier leaves the timers as they are.
pub new_ulid-Keeps_tasks :
    (P : List ScheduledTaskRecord → Type 0) → Keeps (λ db. P db.scheduled_tasks) new_ulid
unfolding new_ulid clock_now draw
new_ulid-Keeps_tasks P = Keeps-bind _ _ (Keeps-gets _) λ ms. Keeps-bind _ _ (Keeps-lift _) λ _.
    Keeps-bind _ _
      (Keeps-bind _ _ (Keeps-gets _)
        λ value. Keeps-bind _ _ (Keeps-modify _ (λ db h. h)) λ _. Keeps-lift _)
      λ randomness. Keeps-lift _

-- A retried request queues no second timer: where a task of that type for that resource is there, whatever
-- its status, `schedule` leaves all timers as they are.
pub schedule-again :
    (t : TaskType) (resource delay : ℕ) (tasks : List ScheduledTaskRecord)
    → is_some (find (is_task_of t resource) tasks) ≡ true
    → Keeps (λ db. db.scheduled_tasks ≡ tasks) (schedule t resource delay)
unfolding schedule database_now
schedule-again t resource delay tasks there =
    Keeps-bind _ _ (new_ulid-Keeps_tasks (λ rows. rows ≡ tasks)) λ id.
      Keeps-bind _ _ (Keeps-gets _)
        λ now. Keeps-bind _ _ (Keeps-modify _ (λ db same. rw (same, there) refl)) λ _. Keeps-lift _
