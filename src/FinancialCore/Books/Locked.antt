-- ===== src/FinancialCore/Books/Locked.antt =====
-- What `lock_for_update` returns is what the table holds
-- (backend/modules/financial_core/adapters/persistence/repositories.py).
use money_management_pstu_ha.Prelude.{
  ℕ, ◌≡◌, sym, ◌∙◌, ◌⊎◌, inl, inr, some, [], ◌∷◌, arith, find, find-test, Option-cases, Bool-cases,
  List,
}
use money_management_pstu_ha.Prelude.Result.{ok, Result-cases}
use money_management_pstu_ha.Prelude.Exec.Ensures.{
  Ensures, Ensures-weaken, after-gets, after-modify, ends-lift,
}
use money_management_pstu_ha.Kernel.Money.{supported_currency, from_minor}
use money_management_pstu_ha.Database.{Db}
use money_management_pstu_ha.Database.Schema.{AccountRecord}
use money_management_pstu_ha.FinancialCore.Account.{Account}
use money_management_pstu_ha.FinancialCore.Repositories.Accounts.{
  to_domain, find_account, has_id, has_account_id, load_accounts, lock_for_update, get_locked,
}
use money_management_pstu_ha.FinancialCore.Books.{IsCurrent}
use money_management_pstu_ha.FinancialCore.Books.Writes.{IgnoresLogs}

to_domain-fields :
    (r : AccountRecord) (a : Account)
    → to_domain r ≡ ok a
    → (a.id ≡ r.id) × (a.balance.minor ≡ r.balance_minor)
unfolding to_domain from_minor supported_currency
to_domain-fields r a h = ground arith

-- The account is what the repository makes of its row.
pub record IsLoaded (a : Account) (accounts : List AccountRecord) : Type 0 where
  pub row : AccountRecord
  pub found : find (has_id a.id) accounts ≡ some row
  pub made : to_domain row ≡ ok a

pub IsLoaded-IsCurrent : (a : Account) (db : Db) → IsLoaded a db.accounts → IsCurrent a db
unfolding find_account
IsLoaded-IsCurrent a db h = record {
  row = h.row;
  found = h.found;
  same_balance = sym (to_domain-fields h.row a h.made).1;
}

to_domain-IsLoaded :
    (id : ℕ) (db : Db) (r : AccountRecord) (a : Account)
    → find_account id db ≡ some r
    → to_domain r ≡ ok a
    → IsLoaded a db.accounts
unfolding find_account
to_domain-IsLoaded id db r a found loaded =
    let (same_id, same) = to_domain-fields r a loaded in
    let owned : id ≡ r.id = ground (arith, find-test (has_id id) db.accounts {a = r} found) in
    record { row = r; found = rw (same_id ∙ sym owned) found; made = loaded }

load_accounts-step :
    (id : ℕ) (ids : List ℕ) (db : Db) (loaded : List Account)
    → load_accounts (id ∷ ids) db ≡ ok loaded
    → (load_accounts ids db ≡ ok loaded)
      ⊎ ((r : AccountRecord) × (b : Account) × (rest : List Account) × (find_account id db ≡ some r)
          × (to_domain r ≡ ok b)
          × (load_accounts ids db ≡ ok rest)
          × (loaded ≡ b ∷ rest))
unfolding load_accounts
load_accounts-step id ids db loaded h = elim (Option-cases (find_account id db)) [
  | inl missing ↦ inl (ground arith)
  | inr (r, found) ↦ elim (Result-cases (to_domain r)) [
    | inl (e, bad) ↦ absurd (ground arith)
    | inr (b, made) ↦ elim (Result-cases (load_accounts ids db)) [
      | inl (e, bad) ↦ absurd (ground arith)
      | inr (rest, tail) ↦ inr (r, b, rest, found, made, tail, ground arith)
    ]
  ]
]

load_accounts-IsLoaded :
    (ids : List ℕ) (db : Db) (loaded : List Account) (k : ℕ) (a : Account)
    → load_accounts ids db ≡ ok loaded
    → get_locked k loaded ≡ some a
    → IsLoaded a db.accounts
unfolding load_accounts get_locked find
load_accounts-IsLoaded [] db [] k a h g = cc
load_accounts-IsLoaded [] db (b ∷ bs) k a h g = cc
load_accounts-IsLoaded (id ∷ ids) db loaded k a h g = elim (load_accounts-step id ids db loaded h) [
  | inl same ↦ load_accounts-IsLoaded ids db loaded k a same g
  | inr (r, b, rest, found, made, tail, split) ↦ elim (Bool-cases (has_account_id k b)) [
    | inl hit ↦ to_domain-IsLoaded id db r a found (ground arith)
    | inr miss ↦ load_accounts-IsLoaded ids db rest k a tail (ground arith)
  ]
]

pub lock_for_update-IsLoaded :
    (P : Db → Type 0)
    → IgnoresLogs P
    → (ids : List ℕ)
    → Ensures P (lock_for_update ids) (λ locked db.
      P db × ((k : ℕ) (a : Account) → get_locked k locked ≡ some a → IsLoaded a db.accounts))
unfolding lock_for_update
lock_for_update-IsLoaded P fact ids =
    after-modify P _ _ (λ db p. fact.locks db _ p)
      (after-gets _ _ λ loaded. ends-lift _ λ locked made db h.
        (h.0, λ k a g. load_accounts-IsLoaded _ db locked k a (sym h.1 ∙ made) g))

pub lock_for_update-IsCurrent :
    (P : Db → Type 0)
    → IgnoresLogs P
    → (ids : List ℕ)
    → Ensures P (lock_for_update ids) (λ locked db.
      P db × ((k : ℕ) (a : Account) → get_locked k locked ≡ some a → IsCurrent a db))
lock_for_update-IsCurrent P fact ids =
    Ensures-weaken (lock_for_update-IsLoaded P fact ids)
      λ locked db h. (h.0, λ k a g. IsLoaded-IsCurrent a db (h.1 k a g))

pub get_locked-same_id :
    (k : ℕ) (locked : List Account) (a : Account) → get_locked k locked ≡ some a → a.id ≡ k
unfolding get_locked
get_locked-same_id k locked a g = ground (arith, find-test (has_account_id k) locked {a = a} g)
