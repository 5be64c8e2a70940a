-- ===== src/FinancialCore/Books/Conservation.antt =====
-- The books under `TransferUseCase.execute` (backend/modules/financial_core/application/transfer.py).
use money_management_pstu_ha.Prelude.{ℕ, ◌≡◌, ◌≢◌, sym, ◌∙◌, Option, List, arith, String}
use money_management_pstu_ha.Prelude.Int.{ℤ, pos, ◌+ℤ◌, ◌-ℤ◌, int_laws}
use money_management_pstu_ha.Prelude.Result.{ok}
use money_management_pstu_ha.Prelude.Exec.Ensures.{
  Ensures, after-lift, ends-lift, Ensures-bind, Ensures-from, Ensures-and,
}
use money_management_pstu_ha.Kernel.Money.{Money, negate}
use money_management_pstu_ha.Database.Enums.{TransferKind}
use money_management_pstu_ha.FinancialCore.Account.{Account, debit, credit}
use money_management_pstu_ha.FinancialCore.Ledger.{LedgerPosting, transfer_posting, sum_lines}
use money_management_pstu_ha.FinancialCore.Repositories.Accounts.{persist_balance}
use money_management_pstu_ha.FinancialCore.Repositories.Postings.{post}
use money_management_pstu_ha.FinancialCore.Transfer.{
  TransferCommand, apply_movement, record_movement,
}
use money_management_pstu_ha.FinancialCore.Books.{IsSoundUpTo, IsCurrent, also_pending}
use money_management_pstu_ha.FinancialCore.Books.Updates.{
  persist_balance-IsSoundUpTo, persist_balance-IsCurrent,
}
use money_management_pstu_ha.FinancialCore.Books.Writes.{
  IsSoundUpTo-IsBookFact, new_ulid-Keeps, insert_transaction-Keeps, generate_reference-Keeps,
  insert_transfer-Keeps, logs,
}
use money_management_pstu_ha.FinancialCore.Books.Movement.{
  debit-moves, credit-moves, transfer_posting-lines, posted_to, IsSoundUpTo-ext,
  entries_of-AreEntriesOf, insert_entries-IsSoundUpTo,
}

taken_by : (before after amount : ℤ) → after ≡ before -ℤ amount → after -ℤ before ≡ pos 0 -ℤ amount
taken_by before after amount e = rw e (omega int_laws)

given_by : (before after amount : ℤ) → after ≡ before +ℤ amount → after -ℤ before ≡ amount
given_by before after amount e = rw e (omega int_laws)

-- What is pending once both balances are written.
abbrev both_written : ℕ → ℕ → ℤ → ℤ → (ℕ → ℤ) → ℕ → ℤ
both_written s r total amount pending =
    also_pending r amount (also_pending s (pos 0 -ℤ total) pending)

module _ (pending : ℕ → ℤ) (drift : ℤ) (sender receiver : Account) (total_debit amount : Money)
    (distinct : receiver.id ≢ sender.id) where
  persist_both :
      (us ur : Account)
      → debit sender total_debit ≡ ok us
      → credit receiver amount ≡ ok ur
      → Ensures
          (λ db. IsSoundUpTo pending drift db × (IsCurrent sender db × IsCurrent receiver db))
          (persist_balance us)
          (λ _ db.
            IsSoundUpTo
              (also_pending us.id (us.balance.minor -ℤ sender.balance.minor) pending)
              (drift +ℤ (us.balance.minor -ℤ sender.balance.minor))
              db
            × IsCurrent receiver db)
  persist_both us ur debited credited =
      let (same, took) = debit-moves sender us total_debit debited in
      Ensures-and
        (Ensures-from (λ db h. (h.0, h.1.0))
          (persist_balance-IsSoundUpTo pending drift sender us (sym same)))
        (Ensures-from (λ db h. h.1.1)
          (persist_balance-IsCurrent receiver us (λ e. distinct (e ∙ same))))

  pub apply_movement-IsSoundUpTo :
      Ensures
        (λ db. IsSoundUpTo pending drift db × (IsCurrent sender db × IsCurrent receiver db))
        (apply_movement sender receiver total_debit amount)
        (λ u db.
          IsSoundUpTo
            (both_written sender.id receiver.id total_debit.minor amount.minor pending)
            (drift +ℤ (pos 0 -ℤ total_debit.minor) +ℤ amount.minor)
            db
          × ((u.0.id ≡ sender.id) × (u.1.id ≡ receiver.id)))
  unfolding apply_movement
  apply_movement-IsSoundUpTo = after-lift _ _ λ us debited. after-lift _ _ λ ur credited.
      let (same_s, took) = debit-moves sender us total_debit debited in
      let (same_r, gave) = credit-moves receiver ur amount credited in
      Ensures-bind _ _ (persist_both us ur debited credited) λ _.
        Ensures-bind _ _ (persist_balance-IsSoundUpTo _ _ receiver ur (sym same_r)) λ _.
          ends-lift _ λ u built db h. (
            rw
                (
                  same_s,
                  same_r,
                  taken_by sender.balance.minor us.balance.minor total_debit.minor took,
                  given_by receiver.balance.minor ur.balance.minor amount.minor gave,
                )
                at h,
            (ground arith, ground arith),
          )

-- A posting of the given lines.
pub post-IsSoundUpTo :
    (pending : ℕ → ℤ) (drift : ℤ) (posting : LedgerPosting)
    → sum_lines posting.lines ≡ pos 0
    → (transfer_id : ℕ) (kind : TransferKind) (description : Option String)
      (balances : List (ℕ × Money)) (now : ℕ)
    → Ensures
        (IsSoundUpTo pending drift)
        (post posting transfer_id kind description balances now)
        (λ _. IsSoundUpTo (λ id. pending id -ℤ posted_to id posting.lines) drift)
unfolding post
post-IsSoundUpTo pending drift posting balanced transfer_id kind description balances now =
    Ensures-bind _ _ (new_ulid-Keeps (logs (IsSoundUpTo-IsBookFact pending drift))) λ id.
      Ensures-bind _ _ (insert_transaction-Keeps (logs (IsSoundUpTo-IsBookFact pending drift)) _)
        λ _.
          Ensures-bind _ _
            (entries_of-AreEntriesOf (logs (IsSoundUpTo-IsBookFact pending drift)) id balances now
              posting.lines)
            λ rows.
              Ensures-bind _ _
                (insert_entries-IsSoundUpTo pending drift posting.lines rows balanced)
                λ _. ends-lift _ λ _ _ db h. h

transfer_posting-balanced :
    (s r : ℕ) (amount : Money) (p : LedgerPosting)
    → transfer_posting s r amount ≡ ok p
    → sum_lines p.lines ≡ pos 0
unfolding sum_lines negate
transfer_posting-balanced s r amount p e =
    rw (transfer_posting-lines s r amount p e) (omega int_laws)

-- A fee that was debited and posted nowhere.
abbrev pub less_fee : ℕ → ℤ → (ℕ → ℤ) → ℕ → ℤ
less_fee sender_id fee = also_pending sender_id (pos 0 -ℤ fee)

module _ (pending : ℕ → ℤ) (drift : ℤ) (sender_id receiver_id : ℕ) (total_debit amount : Money)
    (distinct : receiver_id ≢ sender_id) where
  posted_leaves_fee :
      (lines : LedgerPosting)
      → transfer_posting sender_id receiver_id amount ≡ ok lines
      → (id : ℕ)
      → both_written sender_id receiver_id total_debit.minor amount.minor pending id
          -ℤ posted_to id lines.lines
        ≡ less_fee sender_id (total_debit.minor -ℤ amount.minor) pending id
  unfolding negate
  posted_leaves_fee p e id =
      rw (transfer_posting-lines sender_id receiver_id amount p e) (grind int_laws)

  drift_is_fee :
      drift +ℤ (pos 0 -ℤ total_debit.minor) +ℤ amount.minor
      ≡ drift -ℤ (total_debit.minor -ℤ amount.minor)
  drift_is_fee = omega int_laws

  pub record_movement-IsSoundUpTo :
      (us ur : Account) (command : TransferCommand) (now : ℕ)
      → us.id ≡ sender_id
      → ur.id ≡ receiver_id
      → command.amount ≡ amount
      → Ensures
          (IsSoundUpTo
            (both_written sender_id receiver_id total_debit.minor amount.minor pending)
            (drift +ℤ (pos 0 -ℤ total_debit.minor) +ℤ amount.minor))
          (record_movement us ur command now)
          (λ _.
            IsSoundUpTo
              (less_fee sender_id (total_debit.minor -ℤ amount.minor) pending)
              (drift -ℤ (total_debit.minor -ℤ amount.minor)))
  unfolding record_movement
  record_movement-IsSoundUpTo us ur command now same_s same_r same_amount =
      let fact =
        IsSoundUpTo-IsBookFact
          (both_written sender_id receiver_id total_debit.minor amount.minor pending)
          (drift +ℤ (pos 0 -ℤ total_debit.minor) +ℤ amount.minor) in
      Ensures-bind _ _ (new_ulid-Keeps (logs fact)) λ id.
        Ensures-bind _ _ (generate_reference-Keeps (logs fact) "TRX" now) λ reference.
          Ensures-bind _ _ (insert_transfer-Keeps fact _) λ _. after-lift _ _ λ posting made.
            let made' : transfer_posting sender_id receiver_id amount ≡ ok posting =
              rw (same_s, same_r, same_amount) at made in
            Ensures-bind _ _
              (post-IsSoundUpTo _ _ posting
                (transfer_posting-balanced sender_id receiver_id amount posting made') id
                command.kind command.note _ now)
              λ _.
                ends-lift _
                  λ _ _ db h. IsSoundUpTo-ext (posted_leaves_fee posting made') drift_is_fee h
