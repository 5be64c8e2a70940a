-- ===== src/FinancialCore/Books/Movement.antt =====
-- The books under steps 4 to 6 of `TransferUseCase.execute`
-- (backend/modules/financial_core/application/transfer.py): two balances and the posting.
use money_management_pstu_ha.Prelude.{
  ℕ, ◌≡◌, refl, sym, ap, ◌∙◌, List, [], ◌∷◌, ◌++◌, arith, ◌==◌, if◌then◌else◌, All-map,
}
use money_management_pstu_ha.Prelude.Int.{ℤ, pos, ◌+ℤ◌, ◌-ℤ◌, int_laws}
use money_management_pstu_ha.Prelude.Result.{Result, ok}
use money_management_pstu_ha.Prelude.Exec.Ensures.{
  Ensures, Keeps-gets, Keeps-lift, after-lift, ends-lift, ends-modify, Ensures-bind, knowing,
}
use money_management_pstu_ha.Kernel.Money.{Money, add, sub, negate}
use money_management_pstu_ha.Database.{Db}
use money_management_pstu_ha.Database.Schema.{LedgerEntryRecord}
use money_management_pstu_ha.FinancialCore.Account.{Account, debit, credit}
use money_management_pstu_ha.FinancialCore.Ledger.{
  LedgerPosting, PostingLine, transfer_posting, posting_line, ledger_posting, sum_lines,
}
use money_management_pstu_ha.FinancialCore.Repositories.Postings.{
  entries_of, entry_of, insert_entries,
}
use money_management_pstu_ha.FinancialCore.Books.Writes.{IgnoresLogs, new_ulid-Keeps}
use money_management_pstu_ha.FinancialCore.Books.{sum_for, sum_entries, IsSoundUpTo}

-- A debit that is allowed takes exactly the amount, and a credit adds it.
pub debit-moves :
    (a after : Account) (amount : Money)
    → debit a amount ≡ ok after
    → (after.id ≡ a.id) × (after.balance.minor ≡ a.balance.minor -ℤ amount.minor)
unfolding debit sub
debit-moves a after amount h = ground arith

pub credit-moves :
    (a after : Account) (amount : Money)
    → credit a amount ≡ ok after
    → (after.id ≡ a.id) × (after.balance.minor ≡ a.balance.minor +ℤ amount.minor)
unfolding credit add
credit-moves a after amount h = ground arith

-- The lines of a transfer's posting.
pub transfer_posting-lines :
    (s r : ℕ) (amount : Money) (p : LedgerPosting)
    → transfer_posting s r amount ≡ ok p
    → p.lines
      ≡ (record { account_id = s; amount = negate amount })
        ∷ (record { account_id = r; amount = amount })
        ∷ []
unfolding transfer_posting posting_line ledger_posting
transfer_posting-lines s r amount p h = ground arith

-- What a posting adds to an account.
abbrev pub posted_to : ℕ → List PostingLine → ℤ
posted_to id [] = pos 0
posted_to id (l ∷ ls) =
    if id == l.account_id then l.amount.minor +ℤ posted_to id ls else posted_to id ls

-- The rows are the entries of the lines.
pub record AreEntriesOf (lines : List PostingLine) (rows : List LedgerEntryRecord) : Type 0 where
  pub for_each : (id : ℕ) → sum_for id rows ≡ posted_to id lines
  pub in_all : sum_entries rows ≡ sum_lines lines

-- Only the pending amounts at hand matter.
pub IsSoundUpTo-ext :
    {pending pending' : ℕ → ℤ} {drift drift' : ℤ} {db : Db}
    → ((id : ℕ) → pending id ≡ pending' id)
    → drift ≡ drift'
    → IsSoundUpTo pending drift db
    → IsSoundUpTo pending' drift' db
IsSoundUpTo-ext {db = db} same same_drift h = record {
  derived =
      All-map _ _ (λ a e. e ∙ ap (λ v. sum_for a.id db.ledger_entries +ℤ v) (same a.id)) db.accounts
        h.derived;
  floored = h.floored;
  total = h.total ∙ same_drift;
  zero_sum = h.zero_sum;
}

entry_of-fields :
    {P : Db → Type 0} (fact : IgnoresLogs P) (id : ℕ) (balances : List (ℕ × Money)) (now : ℕ)
    (line : PostingLine)
    → Ensures P
        (entry_of id balances now line)
        (λ e db. P db × ((e.account_id ≡ line.account_id) × (e.amount_minor ≡ line.amount.minor)))
unfolding entry_of
entry_of-fields fact id balances now line = Ensures-bind _ _ (new_ulid-Keeps fact) λ entry_id.
    after-lift _ _ λ balance found. ends-lift _ λ e built db h. (h, (ground arith, ground arith))

AreEntriesOf-nil :
    (rows : List LedgerEntryRecord)
    → ◌≡◌ {A = Result (List LedgerEntryRecord)} (ok []) (ok rows)
    → AreEntriesOf [] rows
unfolding sum_lines
AreEntriesOf-nil [] e = record { for_each = λ id. refl; in_all = refl }
AreEntriesOf-nil (r ∷ rows) e = cc

AreEntriesOf-cons :
    (line : PostingLine) (lines : List PostingLine) (e : LedgerEntryRecord)
    (rest rows : List LedgerEntryRecord)
    → (e.account_id ≡ line.account_id) × (e.amount_minor ≡ line.amount.minor)
    → AreEntriesOf lines rest
    → ok (e ∷ rest) ≡ ok rows
    → AreEntriesOf (line ∷ lines) rows
unfolding sum_lines
AreEntriesOf-cons line lines e rest [] same h built = cc
AreEntriesOf-cons line lines e rest (r ∷ rows) same h built = record {
  for_each = λ id. ground (arith, h.for_each id);
  in_all = ground (arith, h.in_all);
}

pub entries_of-AreEntriesOf :
    {P : Db → Type 0} (fact : IgnoresLogs P) (id : ℕ) (balances : List (ℕ × Money)) (now : ℕ)
    (lines : List PostingLine)
    → Ensures P (entries_of id balances now lines) (λ rows db. P db × AreEntriesOf lines rows)
unfolding entries_of
entries_of-AreEntriesOf fact id balances now [] =
    ends-lift _ λ rows built db h. (h, AreEntriesOf-nil rows built)
entries_of-AreEntriesOf fact id balances now (line ∷ lines) =
    Ensures-bind _ _ (entry_of-fields fact id balances now line) λ entry. knowing λ same.
      Ensures-bind _ _ (entries_of-AreEntriesOf fact id balances now lines) λ rest.
        ends-lift _
          λ rows built db h. (h.0, AreEntriesOf-cons line lines entry rest rows same h.1 built)

sum_for-append :
    (id : ℕ) (es rows : List LedgerEntryRecord)
    → sum_for id (es ++ rows) ≡ sum_for id es +ℤ sum_for id rows
sum_for-append id [] rows = omega int_laws
sum_for-append id (e ∷ es) rows = grind (int_laws, sum_for-append id es rows)

sum_entries-append :
    (es rows : List LedgerEntryRecord)
    → sum_entries (es ++ rows) ≡ sum_entries es +ℤ sum_entries rows
sum_entries-append [] rows = omega int_laws
sum_entries-append (e ∷ es) rows = rw (sum_entries-append es rows) (omega int_laws)

settle_pending : (sum pending posted : ℤ) → sum +ℤ pending ≡ sum +ℤ posted +ℤ (pending -ℤ posted)
settle_pending sum pending posted = omega int_laws

-- A balanced posting turns what it posts from pending into entries.
pub insert_entries-IsSoundUpTo :
    (pending : ℕ → ℤ) (drift : ℤ) (lines : List PostingLine) (rows : List LedgerEntryRecord)
    → sum_lines lines ≡ pos 0
    → Ensures
        (λ db. IsSoundUpTo pending drift db × AreEntriesOf lines rows)
        (insert_entries rows)
        (λ _. IsSoundUpTo (λ id. pending id -ℤ posted_to id lines) drift)
unfolding insert_entries
insert_entries-IsSoundUpTo pending drift lines rows balanced =
    Ensures-bind _ _ (Keeps-gets _) λ known. Ensures-bind _ _ (Keeps-lift _) λ _.
      ends-modify _ λ db h. record {
        derived =
            All-map _ _
              (λ a e.
                e
                ∙ settle_pending (sum_for a.id db.ledger_entries) (pending a.id)
                    (posted_to a.id lines)
                ∙ ap (λ v. v +ℤ (pending a.id -ℤ posted_to a.id lines))
                    (ap (λ v. sum_for a.id db.ledger_entries +ℤ v) (sym (h.1.for_each a.id))
                      ∙ sym (sum_for-append a.id db.ledger_entries rows)))
              db.accounts h.0.derived;
        floored = h.0.floored;
        total = h.0.total;
        zero_sum = rw (sum_entries-append, h.0.zero_sum, h.1.in_all, balanced) (omega int_laws);
      }
