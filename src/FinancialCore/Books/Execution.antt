-- ===== src/FinancialCore/Books/Execution.antt =====
-- The books under the whole of `TransferUseCase.execute`
-- (backend/modules/financial_core/application/transfer.py).
use money_management_pstu_ha.Prelude.{ℕ, ◌≡◌, ◌≢◌, refl, sym, String, Option, arith}
use money_management_pstu_ha.Prelude.Int.{ℤ, pos, ◌+ℤ◌, ◌-ℤ◌, int_laws}
use money_management_pstu_ha.Prelude.Result.{ok, ok_inj}
use money_management_pstu_ha.Prelude.Exec.{atomically}
use money_management_pstu_ha.Prelude.Exec.Ensures.{
  Ensures, Keeps, keeps_rules, after-lift, ends-lift, reject_if-ok, to_result-ok, Ensures-bind,
  Ensures-weaken, Ensures-from, knowing, Keeps-bind, atomically-Keeps, Keeps-option_case,
  Keeps-lift,
}
use money_management_pstu_ha.Kernel.Money.{Money, add, from_minor}
use money_management_pstu_ha.Database.{Db}
use money_management_pstu_ha.Database.Enums.{TransferKind}
use money_management_pstu_ha.Database.Schema.{Reference}
use money_management_pstu_ha.FinancialCore.Account.{Account}
use money_management_pstu_ha.FinancialCore.Policies.{no_fee, fee_for}
use money_management_pstu_ha.FinancialCore.Repositories.Accounts.{get_locked}
use money_management_pstu_ha.FinancialCore.Transfer.{
  Policy, Interceptor, no_interceptor, TransferCommand, check_limits, revalidate, move_money,
  announce, perform, execute,
}
use money_management_pstu_ha.FinancialCore.Books.{IsSoundUpTo, IsSound, IsCurrent, nothing_pending}
use money_management_pstu_ha.FinancialCore.Books.Writes.{
  IgnoresLogs, logs, IsSoundUpTo-IsBookFact, IsCurrent-IsBookFact, both-IsBookFact,
  sum_sent_since-Keeps, append_event-Keeps, record_audit-Keeps, complete-Keeps, clock_now-Keeps,
  reserve-Keeps,
}
use money_management_pstu_ha.FinancialCore.Books.Movement.{IsSoundUpTo-ext}
use money_management_pstu_ha.FinancialCore.Books.Conservation.{
  apply_movement-IsSoundUpTo, record_movement-IsSoundUpTo, less_fee,
}
use money_management_pstu_ha.FinancialCore.Books.Locked.{
  lock_for_update-IsCurrent, get_locked-same_id,
}

-- What a `PostTransferInterceptor` owes the transfer it runs in: what it books is balanced by itself.
pub record InterceptorLaws (interceptor : Interceptor) : Type 1 where
  pub locks_read :
      {P : Db → Type 0}
      → IgnoresLogs P
      → (receiver : ℕ) (kind : TransferKind)
      → Keeps P (interceptor.additional_lock_ids receiver kind)
  pub hook_is_balanced :
      (pending : ℕ → ℤ) (drift : ℤ) (incoming : ℕ) (receiver : Account) (amount : Money)
      (kind : TransferKind) (request_id : Option String)
      → Keeps
          (IsSoundUpTo pending drift)
          (interceptor.after_credit incoming receiver amount kind request_id)

pub no_interceptor-laws : InterceptorLaws no_interceptor
unfolding no_interceptor
no_interceptor-laws = record {
  locks_read = λ fact receiver kind. Keeps-lift _;
  hook_is_balanced = λ pending drift incoming receiver amount kind request_id. Keeps-lift _;
}

pub add-total : (a b total : Money) → add a b ≡ ok total → total.minor ≡ a.minor +ℤ b.minor
unfolding add
add-total a b total h = ground arith

added_part : (x y z : ℤ) → z ≡ x +ℤ y → z -ℤ x ≡ y
added_part x y z e = rw e (omega int_laws)

abbrev pub fee_of : Policy → TransferCommand → ℤ
fee_of policy command = (fee_for policy.fees command.amount).minor

module _ {P : Db → Type 0} (fact : IgnoresLogs P) where
  pub check_limits-Keeps :
      (policy : Policy) (sender : Account) (total : Money) (now : ℕ)
      → Keeps P (check_limits policy sender total now)
  unfolding check_limits
  check_limits-Keeps policy sender total now =
      search (keeps_rules, sum_sent_since-Keeps fact) depth 8

  pub announce-Keeps :
      (transfer_id : ℕ) (reference : Reference) (sender receiver : Account)
      (command : TransferCommand) (fee : Money) (now : ℕ)
      → Keeps P (announce transfer_id reference sender receiver command fee now)
  unfolding announce
  announce-Keeps transfer_id reference sender receiver command fee now =
      Keeps-bind _ _ (append_event-Keeps fact _ _) λ _. record_audit-Keeps fact _ _ _ _ _ _ _

  pub revalidate-total :
      (policy : Policy) (sender receiver : Account) (command : TransferCommand) (now : ℕ)
      → Ensures P
          (revalidate policy sender receiver command now)
          (λ total db. P db × (total.minor -ℤ command.amount.minor ≡ fee_of policy command))
  unfolding revalidate
  revalidate-total policy sender receiver command now = after-lift _ _ λ _ _. after-lift _ _ λ _ _.
      after-lift _ _ λ _ _. after-lift _ _ λ _ _. after-lift _ _ λ total added.
        Ensures-bind _ _ (search (keeps_rules, check_limits-Keeps) depth 8) λ _.
          after-lift _ _ λ _ _. ends-lift _ λ a is db h.
            (h, rw (sym (ok_inj _ _ is)) (added_part _ _ _ (add-total _ _ total added)))

module _ (policy : Policy) (interceptor : Interceptor) (laws : InterceptorLaws interceptor)
    (command : TransferCommand) (now : ℕ) (pending : ℕ → ℤ) (drift : ℤ) where
  move_money-IsSoundUpTo :
      (sender receiver : Account) (total : Money)
      → receiver.id ≢ sender.id
      → Ensures
          (λ db. IsSoundUpTo pending drift db × (IsCurrent sender db × IsCurrent receiver db))
          (move_money policy sender receiver command total now)
          (λ _.
            IsSoundUpTo
              (less_fee sender.id (total.minor -ℤ command.amount.minor) pending)
              (drift -ℤ (total.minor -ℤ command.amount.minor)))
  unfolding move_money
  move_money-IsSoundUpTo sender receiver total distinct =
      Ensures-bind _ _
        (apply_movement-IsSoundUpTo pending drift sender receiver total command.amount distinct)
        λ both. knowing λ same.
          Ensures-bind _ _
            (record_movement-IsSoundUpTo pending drift sender.id receiver.id total command.amount
              distinct both.0 both.1 command now same.0 same.1 refl)
            λ recorded.
              Ensures-bind _ _ (announce-Keeps (logs (IsSoundUpTo-IsBookFact _ _)) _ _ _ _ _ _ _)
                λ _. Keeps-lift _

  -- A fee is debited and posted nowhere: from books in which every balance is the sum of its entries and of
  -- the amount that is pending for it, and the balances sum to a drift, a new transfer that returns leaves
  -- books in which the amount pending for the sender, and the drift, are less by exactly the fee, with an
  -- interceptor whose own bookings balance. Before and after, no balance but the issuance account's is below
  -- zero and the entries sum to zero.
  pub perform-IsSoundUpTo :
      Ensures (IsSoundUpTo pending drift) (perform policy interceptor command now) (λ _.
        IsSoundUpTo
          (less_fee command.sender_account_id (fee_of policy command) pending)
          (drift -ℤ fee_of policy command))
  unfolding perform
  perform-IsSoundUpTo = after-lift _ _ λ _ differ.
      Ensures-bind _ _ (laws.locks_read (logs (IsSoundUpTo-IsBookFact _ _)) _ _) λ extra.
        Ensures-bind _ _
          (lock_for_update-IsCurrent (IsSoundUpTo pending drift) (logs (IsSoundUpTo-IsBookFact _ _))
            _)
          λ locked. after-lift _ _ λ sender got_s. after-lift _ _ λ receiver got_r.
            let found_s = to_result-ok (get_locked command.sender_account_id locked) _ got_s in
            let found_r = to_result-ok (get_locked command.receiver_account_id locked) _ got_r in
            let same_s = get_locked-same_id _ locked sender found_s in
            let same_r = get_locked-same_id _ locked receiver found_r in
            let distinct : receiver.id ≢ sender.id = ground (arith, reject_if-ok _ _ differ) in
            Ensures-from (λ db h. (h.0, (h.1 _ sender found_s, h.1 _ receiver found_r)))
              (Ensures-bind _ _
                (revalidate-total
                  (logs (
                    both-IsBookFact (IsSoundUpTo-IsBookFact pending drift) (
                      both-IsBookFact (IsCurrent-IsBookFact sender)
                        (IsCurrent-IsBookFact receiver))))
                  policy sender receiver command now)
                λ total. knowing λ same.
                  Ensures-bind _ _ (move_money-IsSoundUpTo sender receiver total distinct) λ moved.
                    Ensures-bind _ _ (laws.hook_is_balanced _ _ _ _ _ _ _) λ _.
                      Ensures-bind _ _ (complete-Keeps (IsSoundUpTo-IsBookFact _ _) _ _ _ _ _)
                        λ _. ends-lift _ λ _ _ db h. rw (same_s, same) at h)

-- Without a fee, nothing is left unposted.
no_fee-posts_all :
    (pending : ℕ → ℤ) (drift : ℤ) (sender_id : ℕ) (fee : ℤ) {db : Db}
    → fee ≡ pos 0
    → IsSoundUpTo (less_fee sender_id fee pending) (drift -ℤ fee) db
    → IsSoundUpTo pending drift db
no_fee-posts_all pending drift sender_id fee {db} free h =
    IsSoundUpTo-ext (λ id. rw free (grind int_laws)) (rw free (omega int_laws)) h

fee_of-no_fee :
    (policy : Policy) (command : TransferCommand)
    → policy.fees ≡ no_fee
    → fee_of policy command ≡ pos 0
unfolding fee_for from_minor
fee_of-no_fee policy command free = rw free refl

module _ (policy : Policy) (free : policy.fees ≡ no_fee) (interceptor : Interceptor)
    (laws : InterceptorLaws interceptor) (command : TransferCommand) where
  pub perform-Keeps_books :
      (pending : ℕ → ℤ) (drift : ℤ) (now : ℕ)
      → Keeps (IsSoundUpTo pending drift) (perform policy interceptor command now)
  perform-Keeps_books pending drift now =
      Ensures-weaken (perform-IsSoundUpTo policy interceptor laws command now pending drift)
        λ _ db h.
          no_fee-posts_all pending drift command.sender_account_id _
            (fee_of-no_fee policy command free) h

  pub execute-Keeps_books :
      (pending : ℕ → ℤ) (drift : ℤ)
      → Keeps (IsSoundUpTo pending drift) (execute policy interceptor command)
  unfolding execute
  execute-Keeps_books pending drift =
      Keeps-bind _ _ (clock_now-Keeps (logs (IsSoundUpTo-IsBookFact _ _))) λ now.
        Keeps-bind _ _ (reserve-Keeps (IsSoundUpTo-IsBookFact _ _) _ _ _) λ decision.
          Keeps-bind _ _ (Keeps-lift _) λ replayed.
            Keeps-option_case _ _ _ (perform-Keeps_books pending drift now) λ r. Keeps-lift _

  pub execute-IsSound : Keeps IsSound (execute policy interceptor command)
  execute-IsSound = execute-Keeps_books nothing_pending (pos 0)

  -- The books balance after a transfer, whatever it answers: from books that balance, a run of `execute`
  -- in a transaction ends in books that balance, on success, on a replay and on every error, if the fee
  -- strategy is `NoFee` and the interceptor books nothing that is unbalanced by itself.
  pub atomically-execute-IsSound :
      (db : Db) → IsSound db → IsSound (atomically (execute policy interceptor command) db).1
  atomically-execute-IsSound db sound = atomically-Keeps _ execute-IsSound db sound
