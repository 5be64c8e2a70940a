-- ===== src/Scheduling/Lifecycle.antt =====
-- The life of a timer (backend/platform_/scheduling/repository.py).
use money_management_pstu_ha.Prelude.{
  ℕ, zero, suc, ◌≡◌, ◌≤◌, refl, ap, ◌∙◌, min, ◌++◌, ◌&&◌, count, Bool, true, false, List, [], ◌∷◌,
  arith, leb, select, update, length, All, All-map, Bool-cases, inl, inr,
}
use money_management_pstu_ha.Prelude.Result.{ok}
use money_management_pstu_ha.Prelude.Exec.{gets, ◌>>=◌}
use money_management_pstu_ha.Database.{Db, database_now}
use money_management_pstu_ha.Database.Enums.{TaskType, TaskStatus, is_pending_task}
use money_management_pstu_ha.Database.Schema.{ScheduledTaskRecord}
use money_management_pstu_ha.Scheduling.{
  is_task_of, is_due, insert_by_due, order_by_due, limit_to, claim_due, is_pending_of, ended,
}

-- Each task is due no later than all that follow it.
abbrev pub IsByDue : List ScheduledTaskRecord → Type 0
IsByDue [] = Unit
IsByDue (a ∷ rest) = All (λ b. a.due_at ≤ b.due_at) rest × IsByDue rest

insert_by_due-All :
    (P : ScheduledTaskRecord → Type 0) (a : ScheduledTaskRecord) (rows : List ScheduledTaskRecord)
    → P a
    → All P rows
    → All P (insert_by_due a rows)
unfolding insert_by_due
insert_by_due-All P a [] pa h = (pa, tt)
insert_by_due-All P a (b ∷ bs) pa h = elim (Bool-cases (leb a.due_at b.due_at)) [
  | inl sooner ↦ rw sooner (pa, h)
  | inr later ↦ rw later (h.0, insert_by_due-All P a bs pa h.1)
]

order_by_due-All :
    (P : ScheduledTaskRecord → Type 0) (rows : List ScheduledTaskRecord)
    → All P rows
    → All P (order_by_due rows)
unfolding order_by_due
order_by_due-All P [] h = tt
order_by_due-All P (a ∷ rest) h =
    insert_by_due-All P a (order_by_due rest) h.0 (order_by_due-All P rest h.1)

limit_to-All :
    (P : ScheduledTaskRecord → Type 0) (n : ℕ) (rows : List ScheduledTaskRecord)
    → All P rows
    → All P (limit_to n rows)
unfolding limit_to
limit_to-All P zero rows h = tt
limit_to-All P (suc n) [] h = tt
limit_to-All P (suc n) (r ∷ rows) h = (h.0, limit_to-All P n rows h.1)

select-All :
    (test : ScheduledTaskRecord → Bool) (rows : List ScheduledTaskRecord)
    → All (λ r. test r ≡ true) (select test rows)
unfolding select
select-All test [] = tt
select-All test (r ∷ rows) = elim (Bool-cases (test r)) [
  | inl taken ↦ rw (taken) (taken, select-All test rows)
  | inr left ↦ rw left (select-All test rows)
]

pub after_cancel :
    (task_type : TaskType) (resource_id now : ℕ) (rows : List ScheduledTaskRecord)
    → All
        (λ r. is_pending_of task_type resource_id r ≡ false)
        (update (is_pending_of task_type resource_id) (ended TaskStatus.cancelled now) rows)
unfolding update
after_cancel task_type resource_id now [] = tt
after_cancel task_type resource_id now (r ∷ rows) =
    (ground arith, after_cancel task_type resource_id now rows)

before-All :
    (a b : ScheduledTaskRecord) (rows : List ScheduledTaskRecord)
    → a.due_at ≤ b.due_at
    → All (λ c. b.due_at ≤ c.due_at) rows
    → All (λ c. a.due_at ≤ c.due_at) rows
before-All a b rows h all = All-map _ _ (λ c le. omega arith) rows all

insert_by_due-IsByDue :
    (a : ScheduledTaskRecord) (rows : List ScheduledTaskRecord)
    → IsByDue rows
    → IsByDue (insert_by_due a rows)
unfolding insert_by_due
insert_by_due-IsByDue a [] h = (tt, tt)
insert_by_due-IsByDue a (b ∷ bs) h = elim (Bool-cases (leb a.due_at b.due_at)) [
  | inl sooner ↦
      let first : a.due_at ≤ b.due_at = ground (arith, sooner) in
      rw sooner ((first, before-All a b bs first h.0), h)
  | inr later ↦
      let last : b.due_at ≤ a.due_at = ground (arith, later) in
      rw later
        (insert_by_due-All (λ c. b.due_at ≤ c.due_at) a bs last h.0, insert_by_due-IsByDue a bs h.1)
]

order_by_due-IsByDue : (rows : List ScheduledTaskRecord) → IsByDue (order_by_due rows)
unfolding order_by_due
order_by_due-IsByDue [] = tt
order_by_due-IsByDue (a ∷ rest) =
    insert_by_due-IsByDue a (order_by_due rest) (order_by_due-IsByDue rest)

length-limit_to :
    (n : ℕ) (rows : List ScheduledTaskRecord) → length (limit_to n rows) ≡ min n (length rows)
unfolding limit_to
length-limit_to zero rows = omega arith
length-limit_to (suc n) [] = omega arith
length-limit_to (suc n) (r ∷ rows) = omega (arith, length-limit_to n rows)

-- What `LIMIT` cuts off.
abbrev beyond : ℕ → List ScheduledTaskRecord → List ScheduledTaskRecord
beyond zero rows = rows
beyond (suc n) [] = []
beyond (suc n) (r ∷ rows) = beyond n rows

limit_to-beyond :
    (n : ℕ) (rows : List ScheduledTaskRecord) → limit_to n rows ++ beyond n rows ≡ rows
unfolding limit_to
limit_to-beyond zero rows = refl
limit_to-beyond (suc n) [] = refl
limit_to-beyond (suc n) (r ∷ rows) = ap (λ rest. r ∷ rest) (limit_to-beyond n rows)

count-insert_by_due :
    (test : ScheduledTaskRecord → Bool) (a : ScheduledTaskRecord) (rows : List ScheduledTaskRecord)
    → count test (insert_by_due a rows) ≡ count test (a ∷ rows)
unfolding insert_by_due count
count-insert_by_due test a [] = refl
count-insert_by_due test a (b ∷ bs) = grind (arith, count-insert_by_due test a bs)

count-order_by_due :
    (test : ScheduledTaskRecord → Bool) (rows : List ScheduledTaskRecord)
    → count test (order_by_due rows) ≡ count test rows
unfolding order_by_due count
count-order_by_due test [] = refl
count-order_by_due test (a ∷ rest) =
    grind (arith, count-insert_by_due test a (order_by_due rest), count-order_by_due test rest)

length-insert_by_due :
    (a : ScheduledTaskRecord) (rows : List ScheduledTaskRecord)
    → length (insert_by_due a rows) ≡ suc (length rows)
unfolding insert_by_due
length-insert_by_due a [] = refl
length-insert_by_due a (b ∷ bs) = ground (arith, length-insert_by_due a bs)

length-order_by_due : (rows : List ScheduledTaskRecord) → length (order_by_due rows) ≡ length rows
unfolding order_by_due
length-order_by_due [] = refl
length-order_by_due (a ∷ rest) =
    length-insert_by_due a (order_by_due rest) ∙ ap suc (length-order_by_due rest)

length-select :
    (test : ScheduledTaskRecord → Bool) (rows : List ScheduledTaskRecord)
    → length (select test rows) ≡ count test rows
unfolding select count
length-select test [] = refl
length-select test (r ∷ rows) = ground (arith, length-select test rows)

-- Whether a task is pending and its time has come.
abbrev pub is_waiting : ℕ → ScheduledTaskRecord → Bool
is_waiting now r = is_pending_task r.status && leb r.due_at now

-- What a worker takes of the tasks, and what it leaves: with it, all the due tasks, as often as they are
-- there, in the order of their times; as many as the batch holds.
pub record IsClaim (batch_size now : ℕ) (tasks rows : List ScheduledTaskRecord) : Type 0 where
  pub left : List ScheduledTaskRecord
  pub due : All (λ r. is_waiting now r ≡ true) rows
  pub all_due :
      (test : ScheduledTaskRecord → Bool)
      → count test (rows ++ left) ≡ count test (select (is_waiting now) tasks)
  pub soonest_first : IsByDue (rows ++ left)
  pub full : length rows ≡ min batch_size (count (is_waiting now) tasks)

-- `claim_due` changes nothing and returns the soonest of the tasks that are pending and due by the database's
-- clock, in the order of their times: a whole batch, or all of them where they are fewer; none that it leaves
-- was due before one that it returns.
pub claim_due-IsClaim :
    (batch_size : ℕ) (db : Db)
    → (rows : List ScheduledTaskRecord) × (claim_due batch_size db ≡ (ok rows, db))
      × IsClaim batch_size db.db_clock db.scheduled_tasks rows
unfolding claim_due ◌>>=◌ gets database_now
claim_due-IsClaim batch_size db =
    let chosen = select (is_due db.db_clock) db.scheduled_tasks in
    let whole = limit_to-beyond batch_size (order_by_due chosen) in
    (
      limit_to batch_size (order_by_due chosen),
      refl,
      record {
        left = beyond batch_size (order_by_due chosen);
        due =
            limit_to-All _ batch_size _
              (order_by_due-All _ chosen (select-All (is_due db.db_clock) db.scheduled_tasks));
        all_due = λ test. ap (λ rows. count test rows) whole ∙ count-order_by_due test chosen;
        soonest_first = rw whole (order_by_due-IsByDue chosen);
        full =
            length-limit_to batch_size (order_by_due chosen)
            ∙ ap (λ n. min batch_size n)
                (length-order_by_due chosen
                  ∙ length-select (is_due db.db_clock) db.scheduled_tasks);
      },
    )

select-of :
    (P : ScheduledTaskRecord → Type 0) (test : ScheduledTaskRecord → Bool)
    (rows : List ScheduledTaskRecord)
    → All P rows
    → All P (select test rows)
unfolding select
select-of P test [] h = tt
select-of P test (r ∷ rows) h = elim (Bool-cases (test r)) [
  | inl taken ↦ rw taken (h.0, select-of P test rows h.1)
  | inr left ↦ rw left (select-of P test rows h.1)
]

not_of :
    (task_type : TaskType) (resource_id now : ℕ) (rows : List ScheduledTaskRecord)
    → All (λ r. is_due now r ≡ true) rows
    → All (λ r. is_pending_of task_type resource_id r ≡ false) rows
    → All (λ r. is_task_of task_type resource_id r ≡ false) rows
not_of task_type resource_id now [] due none_left = tt
not_of task_type resource_id now (r ∷ rows) due none_left =
    (ground (arith, due.0, none_left.0), not_of task_type resource_id now rows due.1 none_left.1)

-- Of tasks with none of a type and resource pending, none of these is claimed.
pub claim_due-none_of :
    (task_type : TaskType) (resource_id batch_size : ℕ) (db : Db)
    → All (λ r. is_pending_of task_type resource_id r ≡ false) db.scheduled_tasks
    → (rows : List ScheduledTaskRecord) × (claim_due batch_size db ≡ (ok rows, db))
      × All (λ r. is_task_of task_type resource_id r ≡ false) rows
unfolding claim_due ◌>>=◌ gets database_now
claim_due-none_of task_type resource_id batch_size db none_pending =
    let chosen = select (is_due db.db_clock) db.scheduled_tasks in
    (
      limit_to batch_size (order_by_due chosen),
      refl,
      limit_to-All _ batch_size _ (
          order_by_due-All _ chosen (
            not_of task_type resource_id db.db_clock chosen
              (select-All (is_due db.db_clock) db.scheduled_tasks)
              (select-of _ _ db.scheduled_tasks none_pending))),
    )
