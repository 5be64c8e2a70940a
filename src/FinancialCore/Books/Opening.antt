-- ===== src/FinancialCore/Books/Opening.antt =====
-- The books when accounts are opened and closed (backend/modules/financial_core/adapters/persistence/repositories.py,
-- `create_subaccount` and `set_status`). A new account has no entries, since entries refer to accounts.
use money_management_pstu_ha.Prelude.{
  ℕ, ◌≡◌, refl, sym, ap, ◌∙◌, Bool, true, false, not, String, Option, List, [], ◌∷◌, ◌++◌, arith,
  ◌==◌, is_some, find, update, ==_iff, All, All-map, All-append, All-update, find-update,
  find-append, Bool-cases, inl, inr,
}
use money_management_pstu_ha.Prelude.Int.{pos, ◌+ℤ◌, int_laws}
use money_management_pstu_ha.Prelude.Exec.Ensures.{
  Keeps, Keeps-bind, Keeps-lift, Keeps-gets, Keeps-modify, after-lift, after-gets, ends-modify,
  Ensures-bind, reject_if-ok,
}
use money_management_pstu_ha.Database.{Db, database_now}
use money_management_pstu_ha.Database.Enums.{AccountType, AccountStatus}
use money_management_pstu_ha.Database.Schema.{AccountRecord, LedgerEntryRecord}
use money_management_pstu_ha.FinancialCore.Account.{Account}
use money_management_pstu_ha.FinancialCore.Repositories.Accounts.{
  find_account, has_id, with_status, persist_balance, create_subaccount, set_status,
}
use money_management_pstu_ha.FinancialCore.Repositories.Postings.{accounts_exist, insert_entries}
use money_management_pstu_ha.FinancialCore.Books.{sum_for, total_balance, IsSound}
use money_management_pstu_ha.FinancialCore.Books.Writes.{IsBookFact}

abbrev RefersTo : List AccountRecord → LedgerEntryRecord → Type 0
RefersTo accounts e = is_some (find (has_id e.account_id) accounts) ≡ true

-- Every entry is of an account that exists.
pub record IsReferenced (db : Db) : Type 0 where
  pub refers : All (RefersTo db.accounts) db.ledger_entries

pub IsReferenced-IsBookFact : IsBookFact IsReferenced
IsReferenced-IsBookFact = record { carry = λ db db' a e h. record { refers = rw (a, e) h.refers } }

accounts_exist-All :
    (db : Db) (rows : List LedgerEntryRecord)
    → accounts_exist db rows ≡ true
    → All (RefersTo db.accounts) rows
unfolding accounts_exist find_account
accounts_exist-All db [] known = tt
accounts_exist-All db (e ∷ rows) known =
    (ground (arith, known), accounts_exist-All db rows (ground (arith, known)))

pub insert_entries-IsReferenced :
    (rows : List LedgerEntryRecord) → Keeps IsReferenced (insert_entries rows)
unfolding insert_entries
insert_entries-IsReferenced rows = after-gets _ _ λ known. after-lift _ _ λ _ passed.
    ends-modify _ λ db h. record {
      refers = All-append _ db.ledger_entries rows h.0.refers (
          accounts_exist-All db rows (sym h.1 ∙ ground (arith, reject_if-ok (not known) _ passed)));
    }

-- Rewriting rows in place loses no account.
refers-update :
    (hit : AccountRecord → Bool) (f : AccountRecord → AccountRecord)
    → ((a : AccountRecord) → (f a).id ≡ a.id)
    → (db : Db) → IsReferenced db
    → IsReferenced (record db { accounts = update hit f db.accounts })
refers-update hit f same db h = record {
  refers =
      All-map _ _
        (λ e there.
          find-update (has_id e.account_id) hit f db.accounts
            (λ a. ap (λ k. e.account_id == k) (same a))
          ∙ there)
        db.ledger_entries h.refers;
}

pub persist_balance-IsReferenced :
    (account : Account) → Keeps IsReferenced (persist_balance account)
unfolding persist_balance
persist_balance-IsReferenced account = Keeps-bind _ _ (Keeps-gets _) λ negative.
    Keeps-bind _ _ (Keeps-lift _) λ _.
      Keeps-bind _ _ (Keeps-gets _)
        λ rows. Keeps-bind _ _ (Keeps-modify _ (refers-update _ _ (λ a. refl))) λ _. Keeps-lift _

-- An account that does not exist has no entries.
no_entries :
    (id : ℕ) (accounts : List AccountRecord) (entries : List LedgerEntryRecord)
    → is_some (find (has_id id) accounts) ≡ false
    → All (RefersTo accounts) entries
    → sum_for id entries ≡ pos 0
no_entries id accounts [] absent refers = refl
no_entries id accounts (e ∷ entries) absent refers = elim (Bool-cases (id == e.account_id)) [
  | inl same ↦
      let contradicts : false ≡ true =
        sym absent
        ∙ ap (λ k. is_some (find (has_id k) accounts)) ((==_iff id e.account_id).0 same)
        ∙ refers.0 in
      cc
  | inr other ↦ rw other (no_entries id accounts entries absent refers.1)
]

total-append :
    (rows : List AccountRecord) (r : AccountRecord)
    → r.balance_minor ≡ pos 0
    → total_balance (rows ++ (r ∷ [])) ≡ total_balance rows
total-append [] r empty = rw empty (omega int_laws)
total-append (x ∷ rows) r empty = rw (total-append rows r empty) refl

-- A new account is empty, has no entries, and takes no other account's place.
opened-IsSound :
    (db : Db) (r : AccountRecord)
    → r.balance_minor ≡ pos 0
    → is_some (find (has_id r.id) db.accounts) ≡ false
    → IsSound db
    → IsReferenced db
    → IsSound (record db { accounts = db.accounts ++ (r ∷ []) })
unfolding ◌+ℤ◌
opened-IsSound db r empty absent sound referenced = record {
  derived = All-append _ db.accounts (r ∷ []) sound.derived (
    empty
        ∙ ap (λ v. v +ℤ pos 0)
            (sym (no_entries r.id db.accounts db.ledger_entries absent referenced.refers)),
    tt,
  );
  floored = All-append _ db.accounts (r ∷ []) sound.floored (rw empty (ground arith), tt);
  total = total-append db.accounts r empty ∙ sound.total;
  zero_sum = sound.zero_sum;
}

total-restated :
    (hit : AccountRecord → Bool) (status : AccountStatus) (now : ℕ) (rows : List AccountRecord)
    → total_balance (update hit (with_status status now) rows) ≡ total_balance rows
unfolding update
total-restated hit status now [] = refl
total-restated hit status now (a ∷ rows) = elim (Bool-cases (hit a)) [
  | inl here ↦ rw (here, total-restated hit status now rows) refl
  | inr there ↦ rw (there, total-restated hit status now rows) refl
]

-- Closing an account, or freezing it, moves no money.
restated-IsSound :
    (hit : AccountRecord → Bool) (status : AccountStatus) (now : ℕ) (db : Db)
    → IsSound db
    → IsSound (record db { accounts = update hit (with_status status now) db.accounts })
restated-IsSound hit status now db sound = record {
  derived = All-update _ hit _ (λ a _ h. h) db.accounts sound.derived;
  floored = All-update _ hit _ (λ a _ h. h) db.accounts sound.floored;
  total = total-restated hit status now db.accounts ∙ sound.total;
  zero_sum = sound.zero_sum;
}

abbrev pub IsSoundAndReferenced : Db → Type 0
IsSoundAndReferenced db = IsSound db × IsReferenced db

pub set_status-IsSound :
    (id : ℕ) (status : AccountStatus) → Keeps IsSoundAndReferenced (set_status id status)
unfolding set_status database_now
set_status-IsSound id status = Keeps-bind _ _ (Keeps-gets _) λ now.
    Keeps-bind _ _ (Keeps-gets _) λ rows.
      Keeps-bind _ _
        (Keeps-modify _
          λ db h. (restated-IsSound _ status now db h.0, refers-update _ _ (λ a. refl) db h.1))
        λ _. Keeps-lift _

pub create_subaccount-IsSound :
    (id : ℕ) (user_id : Option ℕ) (type : AccountType) (number currency : String) (now : ℕ)
    → Keeps IsSoundAndReferenced (create_subaccount id user_id type number currency now)
unfolding create_subaccount
create_subaccount-IsSound id user_id type number currency now = after-gets _ _ λ taken.
    after-lift _ _ λ _ free. Ensures-bind _ _ (Keeps-gets _) λ numbered.
      Ensures-bind _ _ (Keeps-lift _) λ _. Ensures-bind _ _ (Keeps-gets _) λ second.
        Ensures-bind _ _ (Keeps-lift _) λ _. Ensures-bind _ _ (Keeps-lift _) λ _.
          ends-modify _ λ db h. (
            opened-IsSound db _ refl (sym h.1 ∙ reject_if-ok taken _ free) h.0.0 h.0.1,
            record {
              refers =
                  All-map _ _ (λ e there. find-append (has_id e.account_id) db.accounts _ there)
                    db.ledger_entries h.0.1.refers;
            },
          )
