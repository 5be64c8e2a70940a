-- ===== src/FinancialCore/Books/Updates.antt =====
-- The books under `persist_balance` (backend/modules/financial_core/adapters/persistence/repositories.py).
use money_management_pstu_ha.Prelude.{
  ℕ, ◌≡◌, refl, ◌≢◌, sym, ap, ◌∙◌, false, not, some, List, [], ◌∷◌, arith, ◌==◌, All, find, count,
  update, is_some, All-find, find-test,
}
use money_management_pstu_ha.Prelude.Int.{ℤ, ◌+ℤ◌, ◌-ℤ◌, int_laws}
use money_management_pstu_ha.Prelude.Exec.Ensures.{
  Ensures, after-lift, after-gets, after-modify, ends-lift, reject_if-ok,
}
use money_management_pstu_ha.Database.{Db}
use money_management_pstu_ha.Database.Schema.{AccountRecord}
use money_management_pstu_ha.FinancialCore.Account.{Account}
use money_management_pstu_ha.FinancialCore.Repositories.Accounts.{
  find_account, has_id, with_balance, overdrawn, persist_balance,
}
use money_management_pstu_ha.FinancialCore.Books.{
  total_balance, IsDerived, IsFloored, expected_balance, IsSoundUpTo, also_pending, IsCurrent,
}

module _ (id : ℕ) (b : ℤ) (v : ℕ) where
  total-update_none :
      (rows : List AccountRecord)
      → count (has_id id) rows ≡ 0
      → total_balance (update (has_id id) (with_balance b v) rows) ≡ total_balance rows
  unfolding count update
  total-update_none [] h = refl
  total-update_none (r ∷ rows) h = ground (arith, total-update_none rows)

  -- Exactly one row was written, so the sum moves by the difference.
  total-update :
      (rows : List AccountRecord) (row : AccountRecord)
      → find (has_id id) rows ≡ some row
      → count (has_id id) rows ≡ 1
      → total_balance (update (has_id id) (with_balance b v) rows)
        ≡ total_balance rows +ℤ (b -ℤ row.balance_minor)
  unfolding find count update
  total-update [] row found once = ground arith
  total-update (r ∷ rows) row found once =
      grind (int_laws, total-update rows row, total-update_none rows)

  IsDerived-update :
      (expected : ℕ → ℤ) (d : ℤ) (rows : List AccountRecord)
      → b ≡ expected id +ℤ d
      → All (IsDerived expected) rows
      → All (IsDerived (also_pending id d expected)) (update (has_id id) (with_balance b v) rows)
  unfolding update
  IsDerived-update expected d [] e h = tt
  IsDerived-update expected d (r ∷ rows) e h =
      (ground (arith, h.0), IsDerived-update expected d rows e h.1)

  IsFloored-update :
      (rows : List AccountRecord)
      → is_some (find (overdrawn id b) rows) ≡ false
      → All IsFloored rows
      → All IsFloored (update (has_id id) (with_balance b v) rows)
  unfolding find update
  IsFloored-update [] e h = tt
  IsFloored-update (r ∷ rows) e h = ground (arith, IsFloored-update rows)

  find-update_ne :
      (k : ℕ) (rows : List AccountRecord)
      → k ≢ id
      → find (has_id k) (update (has_id id) (with_balance b v) rows) ≡ find (has_id k) rows
  unfolding find update
  find-update_ne k [] ne = refl
  find-update_ne k (r ∷ rows) ne = ground (arith, find-update_ne k rows)

-- A pending amount moves what the books expect of its account.
IsDerived-with :
    (id : ℕ) (d : ℤ) (pending : ℕ → ℤ) (db : Db) (rows : List AccountRecord)
    → All (IsDerived (also_pending id d (expected_balance db.ledger_entries pending))) rows
    → All (IsDerived (expected_balance db.ledger_entries (also_pending id d pending))) rows
IsDerived-with id d pending db [] h = tt
IsDerived-with id d pending db (r ∷ rows) h =
    (grind int_laws, IsDerived-with id d pending db rows h.1)

one_row : (rows : ℕ) → not (rows == 1) ≡ false → rows ≡ 1
one_row rows h = ground arith

rebase : (new old expected : ℤ) → old ≡ expected → new ≡ expected +ℤ (new -ℤ old)
rebase new old expected e = rw (← e) (omega int_laws)

module _ (pending : ℕ → ℤ) (drift : ℤ) (before after : Account) (same : before.id ≡ after.id) where
  abbrev pub moved : ℤ
  moved = after.balance.minor -ℤ before.balance.minor

  abbrev written : Db → Db
  written db = record db {
    accounts =
        update (has_id after.id) (with_balance after.balance.minor after.version) db.accounts;
  }

  written-IsSoundUpTo :
      (db : Db)
      → IsSoundUpTo pending drift db
      → IsCurrent before db
      → is_some (find (overdrawn after.id after.balance.minor) db.accounts) ≡ false
      → count (has_id after.id) db.accounts ≡ 1
      → IsSoundUpTo (also_pending after.id moved pending) (drift +ℤ moved) (written db)
  unfolding find_account
  written-IsSoundUpTo db sound current allowed once =
      let found : find (has_id after.id) db.accounts ≡ some current.row =
        rw (← same) current.found in
      let owned : after.id ≡ current.row.id =
        ground (arith, find-test (has_id after.id) db.accounts {a = current.row} found) in
      let was : current.row.balance_minor
          ≡ expected_balance db.ledger_entries pending current.row.id =
        All-find (IsDerived (expected_balance db.ledger_entries pending)) (has_id after.id)
          db.accounts sound.derived found in
      let expects : before.balance.minor ≡ expected_balance db.ledger_entries pending after.id =
        sym current.same_balance
        ∙ was
        ∙ ap (expected_balance db.ledger_entries pending) (sym owned) in
      record {
        derived = IsDerived-with after.id moved pending db _ (
            IsDerived-update after.id after.balance.minor after.version
              (expected_balance db.ledger_entries pending) moved db.accounts
              (rebase after.balance.minor before.balance.minor _ expects) sound.derived);
        floored =
            IsFloored-update after.id after.balance.minor after.version db.accounts allowed
              sound.floored;
        total = rw (
          total-update after.id after.balance.minor after.version db.accounts current.row found
              once,
          sound.total,
          current.same_balance,
        );
        zero_sum = sound.zero_sum;
      }

  -- After `persist_balance` the books are sound up to the difference that it wrote.
  pub persist_balance-IsSoundUpTo :
      Ensures
        (λ db. IsSoundUpTo pending drift db × IsCurrent before db)
        (persist_balance after)
        (λ _. IsSoundUpTo (also_pending after.id moved pending) (drift +ℤ moved))
  unfolding persist_balance
  persist_balance-IsSoundUpTo = after-gets _ _ λ negative. after-lift _ _ λ _ allowed.
      after-gets _ _ λ rows.
        after-modify
          (λ db. rows ≡ 1 → IsSoundUpTo (also_pending after.id moved pending) (drift +ℤ moved) db) _
          _
          (λ db h once.
            written-IsSoundUpTo db h.0.0.0 h.0.0.1 (sym h.0.1 ∙ reject_if-ok _ _ allowed)
              (sym h.1 ∙ once))
          (ends-lift _ λ _ once db h. h (one_row rows (reject_if-ok _ _ once)))

-- Another account's row is left as it is.
pub persist_balance-IsCurrent :
    (other after : Account)
    → other.id ≢ after.id
    → Ensures (IsCurrent other) (persist_balance after) (λ _. IsCurrent other)
unfolding persist_balance find_account
persist_balance-IsCurrent other after ne = after-gets _ _ λ negative. after-lift _ _ λ _ allowed.
    after-gets _ _ λ rows.
      after-modify (IsCurrent other) _ _
        (λ db h. record {
          row = h.0.0.row;
          found =
              find-update_ne after.id after.balance.minor after.version other.id db.accounts ne
              ∙ h.0.0.found;
          same_balance = h.0.0.same_balance;
        })
        (ends-lift _ λ _ once db h. h)
