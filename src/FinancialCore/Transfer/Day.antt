-- ===== src/FinancialCore/Transfer/Day.antt =====
-- The limits of a transfer (backend/modules/financial_core/application/transfer.py, step 3, and `_start_of_day`): what
-- was sent on the same day of the calendar counts, and not what was sent in the last 24 hours.
use money_management_pstu_ha.Prelude.{
  ℕ, ◌≡◌, refl, sym, ◌/◌, ◌||◌, ◌==◌, leb, [], ◌∷◌, Bool, true, ◌&&◌, if◌then◌else◌, List, arith,
}
use money_management_pstu_ha.Prelude.Int.{ℤ, pos, ◌+ℤ◌, leb_ℤ}
use money_management_pstu_ha.Prelude.Result.{Result, ok, err, is_ok}
use money_management_pstu_ha.Prelude.Exec.{lift, gets, pure, ◌>>=◌}
use money_management_pstu_ha.Prelude.Exec.Ensures.{
  OnReturn, Ensures, Keeps, Ensures-any, Ensures-bind, given, after-lift, ends-lift, to_result-ok,
}
use money_management_pstu_ha.Kernel.Money.{Money, from_minor}
use money_management_pstu_ha.Database.{Db}
use money_management_pstu_ha.Database.Enums.{TransferKind, TransferStatus, same_transfer_status}
use money_management_pstu_ha.Database.Schema.{TransferRecord}
use money_management_pstu_ha.FinancialCore.Account.{Account}
use money_management_pstu_ha.FinancialCore.Policies.{TransferLimits, ensure_within_limits}
use money_management_pstu_ha.FinancialCore.Repositories.Accounts.{get_locked}
use money_management_pstu_ha.FinancialCore.Repositories.Transfers.{
  counts_as_sent, sum_sent, sum_sent_since,
}
use money_management_pstu_ha.FinancialCore.Transfer.{
  Policy, Interceptor, TransferCommand, start_of_day, check_limits, revalidate, perform,
}
use money_management_pstu_ha.FinancialCore.Books.Writes.{IgnoresLogs, lock_for_update-Keeps}
use money_management_pstu_ha.FinancialCore.Books.Locked.{get_locked-same_id}
use money_management_pstu_ha.FinancialCore.Books.Execution.{fee_of, add-total}

abbrev pub day_of : ℕ → ℕ
day_of time = time / 86_400_000

-- Whether a transfer takes part in what its sender has sent on a day, or since.
abbrev pub is_sent_on : ℕ → ℕ → TransferRecord → Bool
is_sent_on account day r =
    r.sender_account_id == account
    && ((same_transfer_status r.status TransferStatus.succeeded
          || (same_transfer_status r.status TransferStatus.pending_undo
              || same_transfer_status r.status TransferStatus.held))
        && leb day (day_of r.created_at))

unfoldable pub sent_on : ℕ → ℕ → List TransferRecord → ℤ
sent_on account day [] = pos 0
sent_on account day (r ∷ rest) =
    let others = sent_on account day rest in
    if is_sent_on account day r then r.amount_minor +ℤ others else others

counts_same :
    (s : TransferStatus)
    → counts_as_sent s ≡ (
        same_transfer_status s TransferStatus.succeeded
        || (same_transfer_status s TransferStatus.pending_undo
            || same_transfer_status s TransferStatus.held))
counts_same TransferStatus.succeeded = refl
counts_same TransferStatus.pending_undo = refl
counts_same TransferStatus.held = refl
counts_same TransferStatus.failed = refl
counts_same TransferStatus.reversed = refl
counts_same TransferStatus.disputed = refl
counts_same TransferStatus.refunded = refl

since_midnight :
    (now created : ℕ) → leb (start_of_day now) created ≡ leb (day_of now) (day_of created)
unfolding start_of_day
since_midnight now created = ground arith

sum_sent_on :
    (account now : ℕ) (rows : List TransferRecord)
    → sum_sent account (start_of_day now) rows ≡ sent_on account (day_of now) rows
unfolding sum_sent sent_on
sum_sent_on account now [] = refl
sum_sent_on account now (r ∷ rest) =
    rw (counts_same r.status, since_midnight now r.created_at, sum_sent_on account now rest) refl

-- Whether an amount is within the limit of one transfer, and with what was sent before within the daily one.
abbrev pub is_within : TransferLimits → ℤ → ℤ → Bool
is_within limits sent total =
    leb_ℤ total limits.max_single_transfer_minor && leb_ℤ (sent +ℤ total) limits.daily_total_minor

within_limits :
    (limits : TransferLimits) (total sent : Money)
    → is_ok (ensure_within_limits limits total sent) ≡ is_within limits sent.minor total.minor
unfolding ensure_within_limits
within_limits limits total sent = ground arith

-- The check of the limits passes exactly if the total debit is within the limit of one transfer, and with all
-- that the account has sent on the day of `now` or later, in transfers that succeeded, can be undone or are
-- held, within the daily limit. Days are those of UTC.
pub check_limits-is_within :
    (policy : Policy) (sender : Account) (total : Money) (now : ℕ) (db : Db)
    → is_ok (check_limits policy sender total now db).0
      ≡ is_within policy.limits (sent_on sender.id (day_of now) db.transfers) total.minor
unfolding check_limits sum_sent_since ◌>>=◌ gets lift from_minor
check_limits-is_within policy sender total now db =
    rw (sym (sum_sent_on sender.id now db.transfers)) (within_limits policy.limits total _)

returned :
    {A : Type 0} (passes : Bool) (r : Result A) (db : Db)
    → is_ok r ≡ passes
    → OnReturn (λ _ _. passes ≡ true) r db
returned passes (ok a) db h = sym h
returned passes (err e) db h = tt

HasTransfers-IgnoresLogs : (rows : List TransferRecord) → IgnoresLogs (λ db. db.transfers ≡ rows)
HasTransfers-IgnoresLogs rows = record {
  draws = λ db n h. h;
  locks = λ db ids h. h;
  transactions = λ db others h. h;
  outbox = λ db others h. h;
  audits = λ db others h. h;
}

module _ (policy : Policy) (command : TransferCommand) (now : ℕ)
    (enforced : command.enforce_limits ≡ true) (rows : List TransferRecord) where
  -- The total debit of the command is within the limits, on what an account has sent.
  abbrev IsWithin : ℕ → Type 0
  IsWithin account =
      is_within policy.limits (sent_on account (day_of now) rows)
        (command.amount.minor +ℤ fee_of policy command)
      ≡ true

  check_limits-IsWithin :
      (sender : Account) (total : Money)
      → total.minor ≡ command.amount.minor +ℤ fee_of policy command
      → Ensures
          (λ db. db.transfers ≡ rows)
          (if command.enforce_limits then check_limits policy sender total now else pure tt)
          (λ _ _. IsWithin sender.id)
  check_limits-IsWithin sender total same = rw enforced (record {
    at = λ db there.
        rw (sym there, sym same)
          (returned _ _ _ (check_limits-is_within policy sender total now db));
  })

  revalidate-IsWithin :
      (sender receiver : Account)
      → Ensures
          (λ db. db.transfers ≡ rows)
          (revalidate policy sender receiver command now)
          (λ _ _. IsWithin sender.id)
  unfolding revalidate
  revalidate-IsWithin sender receiver = after-lift _ _ λ _ _. after-lift _ _ λ _ _.
      after-lift _ _ λ _ _. after-lift _ _ λ _ _. after-lift _ _ λ total added.
        Ensures-bind _ _ (check_limits-IsWithin sender total (add-total _ _ total added))
          λ _. after-lift _ _ λ _ _. ends-lift _ λ _ _ db within. within

  -- A transfer keeps its sender within the limits of the day: a new transfer whose command enforces the
  -- limits returns only if its amount with its fee is within the limit of one transfer, and with all that the
  -- sender had sent on the day of `now` or later, in transfers that succeeded, can be undone or are held,
  -- within the daily limit. The interceptor leaves the transfers as they are when it names its locks.
  pub perform-IsWithin :
      (interceptor : Interceptor)
      → ((receiver : ℕ) (kind : TransferKind)
          → Keeps (λ db. db.transfers ≡ rows) (interceptor.additional_lock_ids receiver kind))
      → Ensures
          (λ db. db.transfers ≡ rows)
          (perform policy interceptor command now)
          (λ _ _. IsWithin command.sender_account_id)
  unfolding perform
  perform-IsWithin interceptor names_locks = after-lift _ _ λ _ _.
      Ensures-bind _ _ (names_locks _ _) λ extra.
        Ensures-bind _ _ (lock_for_update-Keeps (HasTransfers-IgnoresLogs rows) _) λ locked.
          after-lift _ _ λ sender got_s. after-lift _ _ λ receiver got_r.
            let same_s =
              get_locked-same_id _ locked sender
                (to_result-ok (get_locked command.sender_account_id locked) _ got_s) in
            Ensures-bind _ _ (revalidate-IsWithin sender receiver) λ total. given λ within.
              Ensures-bind _ _ Ensures-any λ moved.
                Ensures-bind _ _ Ensures-any
                  λ _. Ensures-bind _ _ Ensures-any λ _. ends-lift _ λ _ _ db h. rw same_s at within
