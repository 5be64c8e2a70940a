-- ===== src/FinancialCore/Tests/Windows.antt =====
-- The undo window, timers, reports and identifiers on the small bank.
use money_management_pstu_ha.Prelude.{◌≡◌, refl, true, false, none, some, List, [], ◌∷◌}
use money_management_pstu_ha.Prelude.Int.{pos}
use money_management_pstu_ha.Prelude.Result.{ok, err}
use money_management_pstu_ha.Scheduling.{schedule}
use money_management_pstu_ha.Scheduling.Once.{IsScheduled, schedule-again, schedule-IsScheduled}
use money_management_pstu_ha.Prelude.Exec.Ensures.{Ensures, Keeps}
use money_management_pstu_ha.Database.Enums.{TaskStatus}
use money_management_pstu_ha.FinancialCore.Transfer.Day.{
  sent_on, is_within, check_limits-is_within, perform-IsWithin,
}
use money_management_pstu_ha.Prelude.Exec.{atomically}
use money_management_pstu_ha.Kernel.Money.{from_minor, bdt}
use money_management_pstu_ha.Database.{Db}
use money_management_pstu_ha.Database.Enums.{TransferKind, TransferStatus}
use money_management_pstu_ha.Database.Json.{Fields}
use money_management_pstu_ha.Kernel.Ids.{ulid_digits}
use money_management_pstu_ha.Kernel.Ids.RoundTrip.{decode, decode-ulid_digits}
use money_management_pstu_ha.Prelude.{All, count, arith}
use money_management_pstu_ha.Prelude.Result.{state_conflict}
use money_management_pstu_ha.Database.Enums.{TaskType}
use money_management_pstu_ha.Database.Schema.{TransferRecord, ScheduledTaskRecord}
use money_management_pstu_ha.Scheduling.{cancel, claim_due}
use money_management_pstu_ha.Scheduling.Lifecycle.{IsClaim, claim_due-IsClaim}
use money_management_pstu_ha.Reconciliation.{run}
use money_management_pstu_ha.Reconciliation.Balanced.{HasNoDrift, run-HasNoDrift}
use money_management_pstu_ha.FinancialCore.Holding.{SettlementOrder, settle_hold}
use money_management_pstu_ha.FinancialCore.Undo.Latched.{atomically-settle_hold}
use money_management_pstu_ha.FinancialCore.Books.Windows.{Leads-IsSound, goes_on, stays, transfers}
use money_management_pstu_ha.Prelude.{find, String}
use money_management_pstu_ha.FinancialCore.Policies.{no_fee}
use money_management_pstu_ha.FinancialCore.Transfer.{no_interceptor, execute}
use money_management_pstu_ha.FinancialCore.Books.{IsSound}
use money_management_pstu_ha.FinancialCore.Books.Execution.{no_interceptor-laws}
use money_management_pstu_ha.FinancialCore.Tests.{bank, send_300, policy_of, bank-IsSound}
use money_management_pstu_ha.Scheduling.Cancelled.{
  is_for, TimerEvent, schedules, fails, waits_until, after_events, claim_due-cancel,
}
use money_management_pstu_ha.Prelude.Int.{◌+ℤ◌}
use money_management_pstu_ha.Prelude.Result.{is_ok}
use money_management_pstu_ha.Prelude.Exec.Ensures.{Keeps-lift}
use money_management_pstu_ha.Database.Enums.{AccountType, AccountStatus}
use money_management_pstu_ha.FinancialCore.Account.{Account}
use money_management_pstu_ha.FinancialCore.Transfer.{check_limits, perform}
use money_management_pstu_ha.FinancialCore.Books.Execution.{fee_of}

abbrev pub digest : Fields → String
digest fields = "print"

Leads-IsSound_example :
    IsSound (atomically (execute (policy_of no_fee) no_interceptor send_300) bank).1
Leads-IsSound_example =
    Leads-IsSound digest (policy_of no_fee) refl no_interceptor no_interceptor-laws 10 bank
      ((atomically (execute (policy_of no_fee) no_interceptor send_300) bank).1)
      (goes_on bank bank _ (stays bank) (transfers send_300 bank)) bank-IsSound

run-HasNoDrift_example : HasNoDrift (run bank true)
run-HasNoDrift_example = run-HasNoDrift bank true bank-IsSound

abbrev pub held_300 : TransferRecord
held_300 = record {
  id = 77;
  reference = record { prefix = "TRX"; day = 20_717; suffix = 5 };
  sender_account_id = 5;
  receiver_account_id = 2;
  amount_minor = pos 300;
  currency = "BDT";
  kind = TransferKind.undo_hold;
  status = TransferStatus.refunded;
  note = none;
  initiated_by_user_id = some 50;
  request_id = none;
  parent_transfer_id = none;
  intended_receiver_account_id = some 6;
  created_at = 0;
  completed_at = none;
}

abbrev undone : Db
undone = record bank { transfers = held_300 ∷ [] }

abbrev pub pay_out : SettlementOrder
pay_out = record {
  hold_transfer_id = 77;
  from_status = TransferStatus.pending_undo;
  to_status = TransferStatus.succeeded;
  beneficiary_account_id = 6;
  holding_account_id = 2;
  amount = from_minor (pos 300) bdt;
  kind = TransferKind.undo_settle;
  actor_user_id = 50;
  note = none;
  request_id = none;
}

atomically-settle_hold_example :
    atomically (settle_hold digest (policy_of no_fee) no_interceptor pay_out) undone
    ≡ (err state_conflict, undone)
unfolding count
atomically-settle_hold_example =
    atomically-settle_hold digest (policy_of no_fee) no_interceptor pay_out undone refl

abbrev timer : ScheduledTaskRecord
timer = record {
  id = 9;
  task_type = TaskType.undo_settle;
  resource_id = 77;
  due_at = 5;
  status = TaskStatus.pending;
  attempt_count = 0;
  completed_at = none;
}

abbrev waiting : Db
waiting = record undone { scheduled_tasks = timer ∷ [] }

claim_due-IsClaim_example :
    (rows : List ScheduledTaskRecord) × (claim_due 50 waiting ≡ (ok rows, waiting))
    × IsClaim 50 1_790_000_000_000 (timer ∷ []) rows
claim_due-IsClaim_example = claim_due-IsClaim 50 waiting

-- The timer is scheduled again, another one fails, and time passes.
abbrev next_day : List TimerEvent
next_day = schedules TaskType.undo_settle 77 10 ∷ fails 8 1 8 ∷ waits_until 1_790_086_400_000 ∷ []

claim_due-cancel_example :
    let later = after_events next_day (cancel TaskType.undo_settle 77 waiting).1 in
    (rows : List ScheduledTaskRecord) × (claim_due 50 later ≡ (ok rows, later))
    × All (λ r. is_for TaskType.undo_settle 77 r ≡ false) rows
unfolding find
claim_due-cancel_example =
    claim_due-cancel TaskType.undo_settle 77 9 50 waiting next_day refl (refl, tt)
      (refl, (refl, (refl, tt)))

decode-ulid_digits_example : decode 0 (ulid_digits 12_345) ≡ 12_345
decode-ulid_digits_example = decode-ulid_digits 12_345 (omega arith)

schedule-again_example :
    Keeps (λ db. db.scheduled_tasks ≡ timer ∷ []) (schedule TaskType.undo_settle 77 10)
unfolding find
schedule-again_example = schedule-again TaskType.undo_settle 77 10 (timer ∷ []) refl

schedule-IsScheduled_example :
    Ensures
      (λ _. Unit {0})
      (schedule TaskType.undo_settle 77 10)
      (λ _ db. IsScheduled TaskType.undo_settle 77 db)
schedule-IsScheduled_example = schedule-IsScheduled TaskType.undo_settle 77 10

abbrev payer : Account
payer = record {
  id = 5;
  user_id = some 50;
  account_type = AccountType.user;
  balance = from_minor (pos 1000) bdt;
  status = AccountStatus.active;
  version = 0;
}

check_limits-is_within_example :
    is_ok
      (check_limits (policy_of no_fee) payer (from_minor (pos 300) bdt) 1_790_000_000_000 undone).0
    ≡ is_within (policy_of no_fee).limits (sent_on 5 20_717 undone.transfers) (pos 300)
unfolding from_minor
check_limits-is_within_example =
    check_limits-is_within (policy_of no_fee) payer (from_minor (pos 300) bdt) 1_790_000_000_000
      undone

perform-IsWithin_example :
    Ensures
      (λ db. db.transfers ≡ held_300 ∷ [])
      (perform (policy_of no_fee) no_interceptor send_300 1_790_000_000_000)
      (λ _ _.
        is_within
          (policy_of no_fee).limits
          (sent_on 5 20_717 (held_300 ∷ []))
          (pos 300 +ℤ fee_of (policy_of no_fee) send_300)
        ≡ true)
unfolding no_interceptor from_minor
perform-IsWithin_example =
    perform-IsWithin (policy_of no_fee) send_300 1_790_000_000_000 refl (held_300 ∷ [])
      no_interceptor λ receiver kind. Keeps-lift _
