-- ===== src/FinancialCore/Repositories/Accounts.antt =====
-- `SqlAccountRepository`. A row is found by its primary key; `lock_for_update` takes the rows in
-- ascending order of their ids and notes each in `locks`.
pub mod Order
use money_management_pstu_ha.Prelude.{
  ℕ, suc, ◌+◌, String, Bool, true, false, not, ◌&&◌, ◌||◌, Option, none, some, List, [], ◌∷◌, ◌++◌,
  leb, ltb, ◌==◌, str_eq, if◌then◌else◌, same_id, is_some, find, count, update,
}
use money_management_pstu_ha.Prelude.Int.{ℤ, pos, leb_ℤ, ltb_ℤ}
use money_management_pstu_ha.Prelude.Result.{
  Result, ok, err, to_result, key_error, integrity_error, runtime_error,
}
use money_management_pstu_ha.Prelude.Exec.{
  lift, gets, modify, pure, raise_if, option_case, ◌>>=◌, ◌>>◌,
}
use money_management_pstu_ha.Kernel.Money.{Currency, supported_currency, from_minor}
use money_management_pstu_ha.Database.{Db, Action, clock_now, database_now}
use money_management_pstu_ha.Database.Enums.{AccountType, AccountStatus, same_account_type}
use money_management_pstu_ha.Database.Schema.{AccountRecord, UserRecord}
use money_management_pstu_ha.FinancialCore.Account.{Account, is_issuance}

abbrev pub account_of : AccountRecord → Currency → Account
account_of r currency = record {
  id = r.id;
  user_id = r.user_id;
  account_type = r.account_type;
  balance = from_minor r.balance_minor currency;
  status = r.status;
  version = r.version;
}

-- `_to_domain`
unfoldable pub to_domain : AccountRecord → Result Account
to_domain r = elim (supported_currency r.currency) [
  | none ↦ err key_error
  | some currency ↦ ok (account_of r currency)
]

abbrev pub has_id : ℕ → AccountRecord → Bool
has_id id r = id == r.id

unfoldable pub find_account : ℕ → Db → Option AccountRecord
find_account id db = find (has_id id) db.accounts

-- `_to_domain(record) if record else None`
unfoldable pub optional_domain : Option AccountRecord → Result (Option Account)
optional_domain none = ok none
optional_domain (some r) = elim (to_domain r) [ ok a ↦ ok (some a) | err e ↦ err e ]

unfoldable pub get_by_id : ℕ → Action (Option Account)
get_by_id account_id = do row ← gets (find_account account_id); lift (optional_domain row)

abbrev pub owned_user_account : ℕ → AccountRecord → Bool
owned_user_account user_id r =
    same_id r.user_id (some user_id) && same_account_type r.account_type AccountType.user

unfoldable pub get_by_user_id : ℕ → Action (Option Account)
get_by_user_id user_id = do
  row ← gets (λ db. find (owned_user_account user_id) db.accounts)
  lift (optional_domain row)

abbrev pub has_phone : String → UserRecord → Bool
has_phone phone u = str_eq u.phone phone

-- The join of `users` and `accounts`: phones are unique, and so is a user's `USER` account.
unfoldable pub get_by_phone : String → Action (Option Account)
get_by_phone phone = do
  owner ← gets (λ db. find (has_phone phone) db.users)
  option_case owner (pure none) (λ u. get_by_user_id u.id)

-- `sorted(set(account_ids))`
unfoldable pub insert_id : ℕ → List ℕ → List ℕ
insert_id a [] = a ∷ []
insert_id a (b ∷ bs) =
    let later = insert_id a bs in
    if a == b then b ∷ bs else (if ltb a b then a ∷ b ∷ bs else b ∷ later)

unfoldable pub sorted_set : List ℕ → List ℕ
sorted_set [] = []
sorted_set (a ∷ rest) = insert_id a (sorted_set rest)

-- The rows with these ids, in this order.
unfoldable pub load_accounts : List ℕ → Db → Result (List Account)
load_accounts [] db = ok []
load_accounts (id ∷ ids) db = elim (find_account id db) [
  | none ↦ load_accounts ids db
  | some r ↦ elim (to_domain r) [
    | err e ↦ err e
    | ok a ↦ elim (load_accounts ids db) [ err e ↦ err e | ok rest ↦ ok (a ∷ rest) ]
  ]
]

-- Returns the dictionary of the locked accounts, as its values.
unfoldable pub lock_for_update : List ℕ → Action (List Account)
lock_for_update account_ids = do
  let ordered = sorted_set account_ids
  modify (λ db. record db { locks = db.locks ++ ordered })
  loaded ← gets (load_accounts ordered)
  lift loaded

abbrev pub has_account_id : ℕ → Account → Bool
has_account_id id a = id == a.id

-- `locked.get(account_id)`
unfoldable pub get_locked : ℕ → List Account → Option Account
get_locked id locked = find (has_account_id id) locked

abbrev pub violates_one_per_user : Option ℕ → AccountType → AccountRecord → Bool
violates_one_per_user none t r = false
violates_one_per_user (some u) t r =
    same_id r.user_id (some u) && same_account_type r.account_type t

abbrev pub has_number : String → AccountRecord → Bool
has_number n r = str_eq n r.account_number

-- `ownership_matches_type`
abbrev is_user_owned : AccountType → Bool
is_user_owned AccountType.user = true
is_user_owned AccountType.overdraft_pool = true
is_user_owned AccountType.system_issuance = false
is_user_owned AccountType.pending_settlement = false
is_user_owned AccountType.escrow = false
is_user_owned AccountType.group = false

abbrev pub ownership_matches : AccountType → Option ℕ → Bool
ownership_matches t none = not (is_user_owned t)
ownership_matches t (some u) = is_user_owned t

-- An account starts empty, whatever its type.
unfoldable pub create_subaccount :
    ℕ → Option ℕ → AccountType → String → String → ℕ → Action (Unit {0})
create_subaccount account_id user_id account_type account_number currency now = do
  taken ← gets (λ db. is_some (find (has_id account_id) db.accounts))
  raise_if taken integrity_error
  numbered ← gets (λ db. is_some (find (has_number account_number) db.accounts))
  raise_if numbered integrity_error
  second ← gets (λ db. is_some (find (violates_one_per_user user_id account_type) db.accounts))
  raise_if second integrity_error
  raise_if (not (ownership_matches account_type user_id)) integrity_error
  modify (λ db. record db {
    accounts =
        db.accounts
        ++ (record {
          id = account_id;
          user_id = user_id;
          account_type = account_type;
          account_number = account_number;
          currency = currency;
          balance_minor = pos 0;
          status = AccountStatus.active;
          version = 0;
          created_at = now;
          updated_at = now;
        }
            ∷ []);
  })

unfoldable pub create : ℕ → ℕ → String → String → ℕ → Action (Unit {0})
create account_id user_id = create_subaccount account_id (some user_id) AccountType.user

abbrev pub with_status : AccountStatus → ℕ → AccountRecord → AccountRecord
with_status status now r = record r { status = status; updated_at = now }

unfoldable pub set_status : ℕ → AccountStatus → Action ℕ
set_status account_id status = do
  now ← database_now
  rows ← gets (λ db. count (has_id account_id) db.accounts)
  modify (λ db. record db {
    accounts = update (has_id account_id) (with_status status now) db.accounts;
  })
  pure rows

abbrev pub with_balance : ℤ → ℕ → AccountRecord → AccountRecord
with_balance balance version r = record r { balance_minor = balance; version = version }

-- The CHECK constraint `user_balance_non_negative` of the rows that a write changes.
abbrev pub overdrawn : ℕ → ℤ → AccountRecord → Bool
overdrawn id balance r = id == r.id && (not (is_issuance r.account_type) && ltb_ℤ balance (pos 0))

unfoldable pub persist_balance : Account → Action (Unit {0})
persist_balance account = do
  negative ← gets (λ db. is_some (find (overdrawn account.id account.balance.minor) db.accounts))
  raise_if negative integrity_error
  rows ← gets (λ db. count (has_id account.id) db.accounts)
  modify (λ db. record db {
    accounts =
        update (has_id account.id) (with_balance account.balance.minor account.version) db.accounts;
  })
  raise_if (not (rows == 1)) runtime_error
