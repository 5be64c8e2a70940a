-- ===== src/Reconciliation/Balanced.antt =====
-- What the report of backend/modules/reconciliation/service.py says of books that balance.
use money_management_pstu_ha.Prelude.{
  ◌≡◌, refl, sym, ap, ◌∙◌, Bool, true, false, ◌&&◌, ◌||◌, List, [], ◌∷◌, arith, if◌then◌else◌,
  length, count, All,
}
use money_management_pstu_ha.Prelude.Int.{
  ℤ, pos, ◌+ℤ◌, ◌-ℤ◌, neg, int_laws, +ℤ_assoc, ltb_ℤ, leb_ℤ, eqb_ℤ,
}
use money_management_pstu_ha.Database.{Db}
use money_management_pstu_ha.Database.Enums.{AccountType, same_account_type}
use money_management_pstu_ha.Database.Schema.{AccountRecord, LedgerEntryRecord}
use money_management_pstu_ha.FinancialCore.Account.{is_issuance}
use money_management_pstu_ha.FinancialCore.Books.{
  sum_for, total_balance, IsDerived, IsFloored, expected_balance, nothing_pending, IsSound,
}
use money_management_pstu_ha.Reconciliation.{
  ReconciliationReport, all_account_balance_sum, mismatch_rows, is_negative_user, balance_of_type,
  run,
}

brought_out : (amount rest part : ℤ) → rest +ℤ (amount +ℤ part) ≡ amount +ℤ (rest +ℤ part)
brought_out amount rest part = omega int_laws

in_one_type :
    (t : AccountType) (amount u i p e g o : ℤ)
    → (if same_account_type t AccountType.user then amount +ℤ u else u)
        +ℤ (if same_account_type t AccountType.system_issuance then amount +ℤ i else i)
        +ℤ (if same_account_type t AccountType.pending_settlement then amount +ℤ p else p)
        +ℤ (if same_account_type t AccountType.escrow then amount +ℤ e else e)
        +ℤ (if same_account_type t AccountType.group then amount +ℤ g else g)
        +ℤ (if same_account_type t AccountType.overdraft_pool then amount +ℤ o else o)
      ≡ amount +ℤ (u +ℤ i +ℤ p +ℤ e +ℤ g +ℤ o)
in_one_type AccountType.user amount u i p e g o =
    ap (λ x. x +ℤ o)
      (ap (λ x. x +ℤ g)
          (ap (λ x. x +ℤ e) (ap (λ x. x +ℤ p) (+ℤ_assoc amount u i) ∙ +ℤ_assoc _ _ p)
            ∙ +ℤ_assoc _ _ e)
        ∙ +ℤ_assoc _ _ g)
    ∙ +ℤ_assoc _ _ o
in_one_type AccountType.system_issuance amount u i p e g o =
    ap (λ x. x +ℤ o)
      (ap (λ x. x +ℤ g)
          (ap (λ x. x +ℤ e) (ap (λ x. x +ℤ p) (brought_out amount u i) ∙ +ℤ_assoc _ _ p)
            ∙ +ℤ_assoc _ _ e)
        ∙ +ℤ_assoc _ _ g)
    ∙ +ℤ_assoc _ _ o
in_one_type AccountType.pending_settlement amount u i p e g o =
    ap (λ x. x +ℤ o)
      (ap (λ x. x +ℤ g) (ap (λ x. x +ℤ e) (brought_out amount _ p) ∙ +ℤ_assoc _ _ e)
        ∙ +ℤ_assoc _ _ g)
    ∙ +ℤ_assoc _ _ o
in_one_type AccountType.escrow amount u i p e g o =
    ap (λ x. x +ℤ o) (ap (λ x. x +ℤ g) (brought_out amount _ e) ∙ +ℤ_assoc _ _ g) ∙ +ℤ_assoc _ _ o
in_one_type AccountType.group amount u i p e g o =
    ap (λ x. x +ℤ o) (brought_out amount _ g) ∙ +ℤ_assoc _ _ o
in_one_type AccountType.overdraft_pool amount u i p e g o = brought_out amount _ o

all_types :
    (accounts : List AccountRecord)
    → all_account_balance_sum (λ t. balance_of_type t accounts) ≡ total_balance accounts
unfolding all_account_balance_sum balance_of_type
all_types [] = omega int_laws
all_types (a ∷ rest) =
    in_one_type a.account_type a.balance_minor _ _ _ _ _ _
    ∙ ap (λ x. a.balance_minor +ℤ x) (all_types rest)

+ℤ-zero : (a : ℤ) → a +ℤ pos 0 ≡ a
+ℤ-zero a = omega int_laws

no_mismatch :
    (entries : List LedgerEntryRecord) (accounts : List AccountRecord)
    → All (IsDerived (expected_balance entries nothing_pending)) accounts
    → mismatch_rows entries accounts ≡ []
unfolding mismatch_rows
no_mismatch entries [] h = refl
no_mismatch entries (a ∷ rest) h =
    let equal : a.balance_minor ≡ sum_for a.id entries = h.0 ∙ +ℤ-zero (sum_for a.id entries) in
    let same : eqb_ℤ a.balance_minor (sum_for a.id entries) ≡ true = rw equal (ground arith) in
    rw same (no_mismatch entries rest h.1)

floor_of :
    (t : AccountType) (balance : ℤ)
    → (is_issuance t || leb_ℤ (pos 0) balance) ≡ true
    → (same_account_type t AccountType.user && ltb_ℤ balance (pos 0)) ≡ false
floor_of AccountType.user balance h = ground (arith, h)
floor_of AccountType.system_issuance balance h = refl
floor_of AccountType.pending_settlement balance h = refl
floor_of AccountType.escrow balance h = refl
floor_of AccountType.group balance h = refl
floor_of AccountType.overdraft_pool balance h = refl

user_floor : (a : AccountRecord) → IsFloored a → is_negative_user a ≡ false
user_floor a h = floor_of a.account_type a.balance_minor h

no_negative :
    (accounts : List AccountRecord) → All IsFloored accounts → count is_negative_user accounts ≡ 0
unfolding count
no_negative [] h = refl
no_negative (a ∷ rest) h = ground (arith, h.0, no_negative rest h.1, user_floor a)

-- The checks of the report that follow from the balances and the entries.
pub record HasNoDrift (r : ReconciliationReport) : Type 0 where
  pub balances : r.balance_mismatches ≡ 0
  pub details : r.mismatch_details ≡ []
  pub users : r.negative_user_accounts ≡ 0
  pub ledger : r.system_wide_ledger_sum_minor ≡ pos 0
  pub accounts : all_account_balance_sum r.balance_by_account_type ≡ pos 0
  pub circulation : r.money_in_circulation_minor ≡ r.total_user_balance_minor +ℤ r.total_held_minor

if_same : {A : Type 0} (b : Bool) {xs : List A} → (if b then xs else xs) ≡ xs
if_same true = refl
if_same false = refl

issued : (u i held : ℤ) → u +ℤ i +ℤ held ≡ pos 0 → neg i ≡ u +ℤ held
issued u i held h =
    let less : u +ℤ held ≡ u +ℤ i +ℤ held -ℤ i = omega int_laws in
    let negated : pos 0 -ℤ i ≡ neg i = omega int_laws in sym (less ∙ ap (λ x. x -ℤ i) h ∙ negated)

in_circulation :
    (u i p e g o : ℤ) → u +ℤ i +ℤ p +ℤ e +ℤ g +ℤ o ≡ pos 0 → neg i ≡ u +ℤ (p +ℤ e +ℤ g +ℤ o)
in_circulation u i p e g o h =
    let held = p +ℤ e +ℤ g +ℤ o in
    let grouped : u +ℤ i +ℤ p +ℤ e +ℤ g +ℤ o ≡ u +ℤ i +ℤ held =
      ap (λ x. x +ℤ o) (ap (λ x. x +ℤ g) (+ℤ_assoc _ p e) ∙ +ℤ_assoc _ _ g) ∙ +ℤ_assoc _ _ o in
    issued u i held (sym grouped ∙ h)

-- Of books that balance, the report finds no balance that differs from its entries, no user below zero, and
-- that all entries and all balances sum to zero; the money in circulation is what users and holding accounts
-- have together.
pub run-HasNoDrift :
    (db : Db) (include_details : Bool) → IsSound db → HasNoDrift (run db include_details)
unfolding run all_account_balance_sum
run-HasNoDrift db include_details h =
    let none_off = no_mismatch db.ledger_entries db.accounts h.derived in
    let all_zero = all_types db.accounts ∙ h.total in
    record {
      balances = ap length none_off;
      details = rw none_off (if_same include_details);
      users = no_negative db.accounts h.floored;
      ledger = h.zero_sum;
      accounts = all_zero;
      circulation = in_circulation _ _ _ _ _ _ all_zero;
    }
