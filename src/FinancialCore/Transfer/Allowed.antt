-- ===== src/FinancialCore/Transfer/Allowed.antt =====
-- The guards of `TransferUseCase.execute` (backend/modules/financial_core/application/transfer.py), steps 2
-- and 3, stated of the rows as they were before the transfer.
use money_management_pstu_ha.Prelude.{
  ℕ, ◌≡◌, ◌≢◌, refl, sym, ◌∙◌, true, false, not, ◌&&◌, ◌||◌, some, List, arith, is_some, same_id,
}
use money_management_pstu_ha.Prelude.Int.{◌+ℤ◌, ◌-ℤ◌, leb_ℤ}
use money_management_pstu_ha.Prelude.Result.{ok, ok_inj}
use money_management_pstu_ha.Prelude.Exec.Ensures.{
  Ensures, Keeps, Ensures-any, Ensures-and, Ensures-bind, given, Ensures-from, after-lift,
  ends-lift, reject_if-ok, guard-ok, to_result-ok,
}
use money_management_pstu_ha.Kernel.Money.{Money, less_than}
use money_management_pstu_ha.Database.{Db}
use money_management_pstu_ha.Database.Enums.{TransferKind}
use money_management_pstu_ha.Database.Schema.{AccountRecord}
use money_management_pstu_ha.FinancialCore.Account.{
  Account, is_active, is_issuance, can_transact, ensure_active, ensure_owned_by, ensure_can_afford,
  may_go_negative,
}
use money_management_pstu_ha.FinancialCore.Repositories.Accounts.{get_locked}
use money_management_pstu_ha.FinancialCore.Transfer.{
  Policy, Interceptor, TransferCommand, TransferResult, system_initiated, authorize, revalidate,
  apply_movement, move_money, perform,
}
use money_management_pstu_ha.FinancialCore.Books.Writes.{IsBookFact, logs}
use money_management_pstu_ha.FinancialCore.Books.Movement.{debit-moves, credit-moves}
use money_management_pstu_ha.FinancialCore.Books.Locked.{
  IsLoaded, lock_for_update-IsLoaded, get_locked-same_id,
}
use money_management_pstu_ha.FinancialCore.Books.Execution.{fee_of, revalidate-total}

-- What the sender and the receiver were for a transfer to be made.
pub record IsAllowed (command : TransferCommand) (total_debit : Money) (sender receiver : Account)
    : Type 0 where
  pub authorized :
      (same_id sender.user_id (some command.actor_user_id)
        || (system_initiated command.kind && not (is_some sender.user_id)))
      ≡ true
  pub sender_active : is_active sender.status ≡ true
  pub receiver_active : is_active receiver.status ≡ true
  pub affordable :
      (is_issuance sender.account_type || leb_ℤ total_debit.minor sender.balance.minor) ≡ true

authorize-ok :
    (sender : Account) (command : TransferCommand) {u : Unit {0}}
    → authorize sender command ≡ ok u
    → (same_id sender.user_id (some command.actor_user_id)
        || (system_initiated command.kind && not (is_some sender.user_id)))
      ≡ true
unfolding authorize ensure_owned_by
authorize-ok sender command h = ground arith

ensure_active-ok : (a : Account) {u : Unit {0}} → ensure_active a ≡ ok u → is_active a.status ≡ true
unfolding ensure_active can_transact
ensure_active-ok a h = guard-ok _ _ h

ensure_can_afford-ok :
    (a : Account) (amount : Money) {u : Unit {0}}
    → ensure_can_afford a amount ≡ ok u
    → (is_issuance a.account_type || leb_ℤ amount.minor a.balance.minor) ≡ true
unfolding ensure_can_afford may_go_negative less_than
ensure_can_afford-ok a amount h = ground arith

revalidate-IsAllowed :
    {P : Db → Type 0} (policy : Policy) (sender receiver : Account) (command : TransferCommand)
    (now : ℕ)
    → Ensures P
        (revalidate policy sender receiver command now)
        (λ total _. IsAllowed command total sender receiver)
unfolding revalidate
revalidate-IsAllowed policy sender receiver command now = after-lift _ _ λ _ owned.
    after-lift _ _ λ _ sends. after-lift _ _ λ _ receives. after-lift _ _ λ _ _.
      after-lift _ _ λ total added. Ensures-bind _ _ Ensures-any λ _. after-lift _ _ λ _ affords.
        ends-lift _ λ a is db h. record {
          authorized = authorize-ok sender command owned;
          sender_active = ensure_active-ok sender sends;
          receiver_active = ensure_active-ok receiver receives;
          affordable = rw (sym (ok_inj _ _ is)) (ensure_can_afford-ok sender total affords);
        }

apply_movement-balances :
    {P : Db → Type 0} (sender receiver : Account) (total amount : Money)
    → Ensures P (apply_movement sender receiver total amount) (λ u _.
      (u.0.balance.minor ≡ sender.balance.minor -ℤ total.minor)
      × (u.1.balance.minor ≡ receiver.balance.minor +ℤ amount.minor))
unfolding apply_movement
apply_movement-balances sender receiver total amount = after-lift _ _ λ us debited.
    after-lift _ _ λ ur credited. Ensures-bind _ _ Ensures-any λ _.
      Ensures-bind _ _ Ensures-any λ _. ends-lift _ λ u built db h. (
        rw (sym (ok_inj _ _ built)) (debit-moves sender us total debited).1,
        rw (sym (ok_inj _ _ built)) (credit-moves receiver ur amount credited).1,
      )

-- What a transfer answers, of the accounts that it found.
pub record IsTransferOf (command : TransferCommand) (total_debit : Money)
    (sender receiver : Account) (result : TransferResult) : Type 0 where
  pub sender_pays : result.sender_balance_after.minor ≡ sender.balance.minor -ℤ total_debit.minor
  pub receiver_gets :
      result.receiver_balance_after.minor ≡ receiver.balance.minor +ℤ command.amount.minor
  pub as_ordered :
      (result.amount ≡ command.amount)
      × ((result.status ≡ command.initial_status) × (result.replayed ≡ false))

move_money-IsTransferOf :
    {P : Db → Type 0} (policy : Policy) (sender receiver : Account) (command : TransferCommand)
    (total : Money) (now : ℕ)
    → Ensures P
        (move_money policy sender receiver command total now)
        (λ moved _. IsTransferOf command total sender receiver moved.0)
unfolding move_money
move_money-IsTransferOf policy sender receiver command total now =
    Ensures-bind _ _ (apply_movement-balances sender receiver total command.amount) λ both.
      given λ moved. Ensures-bind _ _ Ensures-any λ recorded. Ensures-bind _ _ Ensures-any λ _.
        ends-lift _ λ answer built db h. rw (sym (ok_inj _ _ built)) (record {
          sender_pays = moved.0;
          receiver_gets = moved.1;
          as_ordered = (refl, (refl, refl));
        })

-- A transfer as it follows from the account rows that stood before it.
pub record IsTransferFrom (accounts : List AccountRecord) (policy : Policy)
    (command : TransferCommand) (result : TransferResult) : Type 0 where
  pub sender : Account
  pub receiver : Account
  pub total_debit : Money
  pub sender_row : IsLoaded sender accounts
  pub receiver_row : IsLoaded receiver accounts
  pub parties :
      (sender.id ≡ command.sender_account_id) × (receiver.id ≡ command.receiver_account_id)
  pub distinct : receiver.id ≢ sender.id
  pub with_fee : total_debit.minor -ℤ command.amount.minor ≡ fee_of policy command
  pub allowed : IsAllowed command total_debit sender receiver
  pub answered : IsTransferOf command total_debit sender receiver result

unit_fact : IsBookFact (λ db. Unit {0})
unit_fact = record { carry = λ db db' a e h. h }

pub HasAccounts-IsBookFact :
    (accounts : List AccountRecord) → IsBookFact (λ db. db.accounts ≡ accounts)
HasAccounts-IsBookFact accounts = record { carry = λ db db' a e h. a ∙ h }

module _ (policy : Policy) (interceptor : Interceptor) (command : TransferCommand) (now : ℕ)
    (accounts : List AccountRecord)
    (names_locks : (receiver : ℕ) (kind : TransferKind)
      → Keeps (λ db. db.accounts ≡ accounts) (interceptor.additional_lock_ids receiver kind)) where
  -- A transfer that returns was allowed by the account rows as they were before: both rows exist, are
  -- distinct and active; the actor owns the sender, or the kind is system-initiated and nobody owns the
  -- sender; the sender has the amount with the fee, or is the issuance account. The answer states the
  -- balances that follow: the sender's less amount and fee, the receiver's more the amount. Of the interceptor
  -- it is asked only that it leaves the account rows as they are when it names its locks.
  pub perform-IsTransferFrom :
      Ensures
        (λ db. db.accounts ≡ accounts)
        (perform policy interceptor command now)
        (λ result _. IsTransferFrom accounts policy command result)
  unfolding perform
  perform-IsTransferFrom =
      let fact = logs (HasAccounts-IsBookFact accounts) in
      after-lift _ _ λ _ differ. Ensures-bind _ _ (names_locks _ _) λ extra.
        Ensures-bind _ _ (lock_for_update-IsLoaded _ fact _) λ locked.
          after-lift _ _ λ sender got_s. after-lift _ _ λ receiver got_r.
            let found_s = to_result-ok (get_locked command.sender_account_id locked) _ got_s in
            let found_r = to_result-ok (get_locked command.receiver_account_id locked) _ got_r in
            let same_s = get_locked-same_id _ locked sender found_s in
            let same_r = get_locked-same_id _ locked receiver found_r in
            Ensures-from {P = λ db. IsLoaded sender accounts × IsLoaded receiver accounts}
              (λ db h. (rw h.0 at (h.1 _ sender found_s), rw h.0 at (h.1 _ receiver found_r)))
              (given λ rows.
                Ensures-bind _ _
                  (Ensures-and
                    (revalidate-total (logs unit_fact) policy sender receiver command now)
                    (revalidate-IsAllowed policy sender receiver command now))
                  λ total. given λ checked.
                    Ensures-bind _ _
                      (move_money-IsTransferOf policy sender receiver command total now)
                      λ moved. given λ answered. Ensures-bind _ _ Ensures-any λ _.
                        Ensures-bind _ _ Ensures-any λ _. ends-lift _ λ result built db h.
                          rw (sym (ok_inj _ _ built)) (record {
                            sender = sender;
                            receiver = receiver;
                            total_debit = total;
                            sender_row = rows.0;
                            receiver_row = rows.1;
                            parties = (same_s, same_r);
                            distinct = ground (arith, reject_if-ok _ _ differ);
                            with_fee = checked.0.1;
                            allowed = checked.1;
                            answered = answered;
                          }))
