-- ===== src/System/Repeats.antt =====
-- A transfer command that is sent again (backend/modules/financial_core/application/transfer.py, `execute`).
use text.Mathlib.TextPositions.{eq_refl}
use money_management_pstu_ha.Prelude.{
  ℕ, ◌⊎◌, ◌≡◌, refl, Bool, true, false, Option, none, some, List, [], ◌∷◌, ◌++◌, arith, find,
  String, str_eq, Bool-cases, Option-cases, inl, inr, find-test,
}
use money_management_pstu_ha.Prelude.Result.{
  ok, err, is_ok, idempotency_key_reuse, request_in_progress,
}
use money_management_pstu_ha.Prelude.Exec.{option_case, pure, lift, gets, modify, ◌>>=◌}
use money_management_pstu_ha.Prelude.Exec.Ensures.{
  Ensures, Keeps-lift, Keeps-gets, Ensures-bind, Ensures-from, after-lift, ends-modify,
}
use money_management_pstu_ha.Database.{Db, clock_now}
use money_management_pstu_ha.Database.Enums.{IdempotencyStatus}
use money_management_pstu_ha.Database.Json.{Fields}
use money_management_pstu_ha.Database.Schema.{IdempotencyRecord}
use money_management_pstu_ha.FinancialCore.Idempotency.{IdempotencyDecision, decide_as, proceed}
use money_management_pstu_ha.FinancialCore.Repositories.Keys.{
  NaturalKey, matches, find_key, decide_existing, reserve, complete, completed_with,
}
use money_management_pstu_ha.FinancialCore.Transfer.{
  TransferCommand, TransferResult, key_of, handle_idempotency_decision, perform, execute,
}
use money_management_pstu_ha.FinancialCore.Books.Writes.{lock_for_update-Keeps}
use money_management_pstu_ha.FinancialCore.Books.Frames.{revalidate-Keeps, move_money-Keeps}
use money_management_pstu_ha.Overdraft.Sweep.Kept.{interceptor_at-Keeps}
use money_management_pstu_ha.FinancialCore.Transfer.Replay.{execute-completed}
use money_management_pstu_ha.System.Wiring.{Wiring, interceptor_of}
use money_management_pstu_ha.System.Steps.{Event, happen_all, happen_all-Keeps}
use money_management_pstu_ha.System.Once.{when_ok}
use money_management_pstu_ha.System.Keys.{
  IsSeen, find-completed, IsSeen-KeptByStatements, IsSeen-IgnoresLoans, IsSeen-IsInvariant,
}

-- What a reservation finds or makes.
data Reserved (k : NaturalKey) (fingerprint : String) : IdempotencyDecision → Db → Type 0 where
  is_new : (db : Db) → IsSeen false k fingerprint db → Reserved k fingerprint (decide_as proceed) db
  was_there :
      (db : Db) (r : IdempotencyRecord)
      → find_key k db ≡ some r
      → Reserved k fingerprint (decide_existing fingerprint r) db

find-last :
    (test : IdempotencyRecord → Bool) (rows : List IdempotencyRecord) (r : IdempotencyRecord)
    → find test rows ≡ none
    → test r ≡ true
    → find test (rows ++ (r ∷ [])) ≡ some r
unfolding find
find-last test [] r missing hit = rw hit refl
find-last test (x ∷ rows) r missing hit = ground (arith, find-last test rows r, missing, hit)

-- The row that a first reservation inserts.
abbrev fresh : NaturalKey → String → ℕ → IdempotencyRecord
fresh k fingerprint now = record {
  actor_id = k.actor_id;
  endpoint = k.endpoint;
  idempotency_key = k.key;
  request_fingerprint = fingerprint;
  status = IdempotencyStatus.processing;
  resource_id = none;
  http_status = none;
  response_body = none;
  created_at = now;
  completed_at = none;
}

reserve-Reserved :
    (k : NaturalKey) (fingerprint : String) (now : ℕ)
    → Ensures (λ _. Unit {0}) (reserve k fingerprint now) (Reserved k fingerprint)
unfolding reserve find_key gets modify lift ◌>>=◌ option_case
reserve-Reserved k fingerprint now = record {
  at = λ db _. elim (Option-cases (find_key k db)) [
    | inl missing ↦ rw missing (
        is_new _ (record {
          row = fresh k fingerprint now;
          found =
              find-last (matches k) db.idempotency_records (fresh k fingerprint now) missing
                (ground (arith, eq_refl k.endpoint, eq_refl k.key));
          same = eq_refl fingerprint;
          completed = λ impossible. cc;
        }))
    | inr (r, there) ↦ rw there (was_there db r there)
  ];
}

complete-IsSeen_done :
    (k : NaturalKey) (fingerprint : String) (resource_id http_status : ℕ) (body : Fields) (now : ℕ)
    → Ensures
        (IsSeen false k fingerprint)
        (complete k resource_id http_status body now)
        (λ _. IsSeen true k fingerprint)
unfolding complete find_key
complete-IsSeen_done k fingerprint resource_id http_status body now = ends-modify _ λ db h. record {
  row = completed_with resource_id http_status body now h.row;
  found =
      (find-completed k (matches k) (completed_with resource_id http_status body now) (λ r. refl)
          db.idempotency_records h.row h.found).0
        (find-test (matches k) db.idempotency_records h.found);
  same = h.same;
  completed = λ _. refl;
}

-- By what `handle_idempotency_decision` answers.
abbrev After : NaturalKey → String → Option TransferResult → Db → Type 0
After k fingerprint none = IsSeen false k fingerprint
After k fingerprint (some r) = IsSeen true k fingerprint

mismatch_refused :
    (fingerprint : String) (r : IdempotencyRecord) (now : ℕ)
    → str_eq r.request_fingerprint fingerprint ≡ false
    → handle_idempotency_decision (decide_existing fingerprint r) now ≡ err idempotency_key_reuse
unfolding handle_idempotency_decision decide_existing
mismatch_refused fingerprint r now differs = rw differs refl

running_refused :
    (fingerprint : String) (r : IdempotencyRecord) (now : ℕ)
    → str_eq r.request_fingerprint fingerprint ≡ true
    → r.status ≡ IdempotencyStatus.processing
    → handle_idempotency_decision (decide_existing fingerprint r) now ≡ err request_in_progress
unfolding handle_idempotency_decision decide_existing
running_refused fingerprint r now same running = rw (same, running) refl

IdempotencyStatus-cases :
    (s : IdempotencyStatus) → (s ≡ IdempotencyStatus.completed) ⊎ (s ≡ IdempotencyStatus.processing)
IdempotencyStatus-cases IdempotencyStatus.completed = inl refl
IdempotencyStatus-cases IdempotencyStatus.processing = inr refl

passed-same :
    (fingerprint : String) (r : IdempotencyRecord) (now : ℕ) {replayed : Option TransferResult}
    → handle_idempotency_decision (decide_existing fingerprint r) now ≡ ok replayed
    → str_eq r.request_fingerprint fingerprint ≡ true
passed-same fingerprint r now passed =
    elim (Bool-cases (str_eq r.request_fingerprint fingerprint)) [
      | inl same ↦ same
      | inr differs ↦ let refused = mismatch_refused fingerprint r now differs in cc
    ]

passed-completed :
    (fingerprint : String) (r : IdempotencyRecord) (now : ℕ) {replayed : Option TransferResult}
    → handle_idempotency_decision (decide_existing fingerprint r) now ≡ ok replayed
    → r.status ≡ IdempotencyStatus.completed
passed-completed fingerprint r now passed = elim (IdempotencyStatus-cases r.status) [
  | inl done ↦ done
  | inr running ↦
      let refused =
        running_refused fingerprint r now (passed-same fingerprint r now passed) running in
      cc
]

-- What is known of a key whose reservation was let pass.
decision_known :
    (k : NaturalKey) (fingerprint : String) (decision : IdempotencyDecision)
    (replayed : Option TransferResult) (now : ℕ) (db : Db)
    → Reserved k fingerprint decision db
    → handle_idempotency_decision decision now ≡ ok replayed
    → After k fingerprint replayed db
unfolding handle_idempotency_decision
decision_known k fingerprint decision none now db (is_new _ seen) passed = seen
decision_known k fingerprint decision (some r) now db (is_new _ seen) passed = cc
decision_known k fingerprint decision none now db (was_there _ r there) passed = record {
  row = r;
  found = there;
  same = passed-same fingerprint r now passed;
  completed = λ _. passed-completed fingerprint r now passed;
}
decision_known k fingerprint decision (some a) now db (was_there _ r there) passed = record {
  row = r;
  found = there;
  same = passed-same fingerprint r now passed;
  completed = λ _. passed-completed fingerprint r now passed;
}

module _ (w : Wiring) (c : TransferCommand) where
  perform-IsSeen :
      (now : ℕ)
      → Ensures
          (IsSeen false (key_of c) c.request_fingerprint)
          (perform w.policy (interceptor_of w) c now)
          (λ _. IsSeen true (key_of c) c.request_fingerprint)
  unfolding perform
  perform-IsSeen now =
      let frame = IsSeen-KeptByStatements false (key_of c) c.request_fingerprint in
      let intercepted =
        interceptor_at-Keeps w.digest w.policy w.lien_sweep_basis_points frame
          (IsSeen-IgnoresLoans false (key_of c) c.request_fingerprint) 1 in
      Ensures-bind _ _ (Keeps-lift _) λ _. Ensures-bind _ _ (intercepted.names_locks _ _) λ extra.
        Ensures-bind _ _ (lock_for_update-Keeps frame.logs _) λ locked.
          Ensures-bind _ _ (Keeps-lift _) λ sender. Ensures-bind _ _ (Keeps-lift _) λ receiver.
            Ensures-bind _ _ (revalidate-Keeps frame.logs frame.persists frame.posts _ _ _ _ _)
              λ total. Ensures-bind _ _ (move_money-Keeps frame _ _ _ _ _ _) λ moved.
                Ensures-bind _ _ (intercepted.credits _ _ _ _ _) λ _.
                  Ensures-bind _ _ (complete-IsSeen_done (key_of c) c.request_fingerprint _ _ _ _)
                    λ _. Keeps-lift _

  answer-IsSeen :
      (replayed : Option TransferResult) (now : ℕ)
      → Ensures
          (After (key_of c) c.request_fingerprint replayed)
          (option_case replayed (perform w.policy (interceptor_of w) c now) (λ r. pure r))
          (λ _. IsSeen true (key_of c) c.request_fingerprint)
  unfolding option_case
  answer-IsSeen none now = perform-IsSeen now
  answer-IsSeen (some r) now = Keeps-lift _

  execute-IsSeen :
      Ensures
        (λ _. Unit {0})
        (execute w.policy (interceptor_of w) c)
        (λ _. IsSeen true (key_of c) c.request_fingerprint)
  unfolding execute clock_now
  execute-IsSeen = Ensures-bind _ _ (Keeps-gets _) λ now.
      Ensures-bind _ _ (reserve-Reserved (key_of c) c.request_fingerprint now) λ decision.
        after-lift _ _ λ replayed passed.
          Ensures-from
            (λ db reserved.
              decision_known (key_of c) c.request_fingerprint decision replayed now db reserved
                passed)
            (answer-IsSeen replayed now)

-- A transfer command moves money at most once: once it has returned, and after any sequence of events of the
-- whole backend, the same command, with its idempotency key and fingerprint, writes nothing.
pub execute-once :
    (w : Wiring) (c : TransferCommand) (db : Db) (events : List Event)
    → is_ok (execute w.policy (interceptor_of w) c db).0 ≡ true
    → let now = happen_all w events (execute w.policy (interceptor_of w) c db).1 in
      (execute w.policy (interceptor_of w) c now).1 ≡ now
execute-once w c db events returned =
    let run = execute w.policy (interceptor_of w) c db in
    let seen = when_ok _ run.0 run.1 returned ((execute-IsSeen w c).at db tt) in
    let still =
      happen_all-Keeps w (IsSeen-IsInvariant true (key_of c) c.request_fingerprint w) events run.1
        seen in
    execute-completed w.policy (interceptor_of w) c (happen_all w events run.1) still.row
      still.found still.same (still.completed refl)
