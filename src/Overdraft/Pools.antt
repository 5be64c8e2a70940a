-- ===== src/Overdraft/Pools.antt =====
-- The pools and grants of backend/modules/overdraft/adapters/persistence/repositories.py.
use money_management_pstu_ha.Prelude.{
  ℕ, Bool, ◌&&◌, ◌||◌, String, Option, none, some, List, [], ◌∷◌, ◌++◌, ◌==◌, leb, if◌then◌else◌,
  is_some, find, select, order_by,
}
use money_management_pstu_ha.Prelude.Int.{ℤ, pos, leb_ℤ}
use money_management_pstu_ha.Prelude.Result.{integrity_error}
use money_management_pstu_ha.Prelude.Exec.{gets, modify, raise_if, ◌>>=◌, ◌>>◌}
use money_management_pstu_ha.Database.{Db, Action}
use money_management_pstu_ha.Database.Enums.{
  PoolStatus, GrantStatus, is_open, is_granted, is_active_account,
}
use money_management_pstu_ha.Database.Schema.{
  AccountRecord, OverdraftPoolRecord, OverdraftGrantRecord,
}

abbrev pub sponsored_by : ℕ → OverdraftPoolRecord → Bool
sponsored_by user_id p = user_id == p.sponsor_user_id

unfoldable pub get_pool_for_sponsor : ℕ → Action (Option OverdraftPoolRecord)
get_pool_for_sponsor sponsor = gets (λ db. find (sponsored_by sponsor) db.overdraft_pools)

abbrev pub has_pool_id : ℕ → OverdraftPoolRecord → Bool
has_pool_id id p = id == p.id

unfoldable pub get_pool : ℕ → Action (Option OverdraftPoolRecord)
get_pool pool_id = gets (λ db. find (has_pool_id pool_id) db.overdraft_pools)

abbrev pool_clashes : ℕ → ℕ → ℕ → OverdraftPoolRecord → Bool
pool_clashes id sponsor account p =
    id == p.id || (sponsor == p.sponsor_user_id || account == p.pool_account_id)

unfoldable pub insert_pool : ℕ → ℕ → ℕ → String → ℕ → Action (Unit {0})
insert_pool pool_id sponsor pool_account_id currency now = do
  taken ←
      gets (λ db. is_some (find (pool_clashes pool_id sponsor pool_account_id) db.overdraft_pools))
  raise_if taken integrity_error
  modify (λ db. record db {
    overdraft_pools =
        db.overdraft_pools
        ++ (record {
          id = pool_id;
          sponsor_user_id = sponsor;
          pool_account_id = pool_account_id;
          currency = currency;
          status = PoolStatus.active;
          created_at = now;
          updated_at = now;
        }
            ∷ []);
  })

abbrev pub grants_to : ℕ → ℕ → OverdraftGrantRecord → Bool
grants_to pool_id beneficiary g = pool_id == g.pool_id && beneficiary == g.beneficiary_user_id

abbrev grant_clashes : ℕ → ℕ → ℕ → OverdraftGrantRecord → Bool
grant_clashes id pool_id beneficiary g = id == g.id || grants_to pool_id beneficiary g

unfoldable pub insert_grant : ℕ → ℕ → ℕ → ℤ → ℕ → Action (Unit {0})
insert_grant grant_id pool_id beneficiary max_draw_minor now = do
  taken ←
      gets (λ db. is_some (find (grant_clashes grant_id pool_id beneficiary) db.overdraft_grants))
  raise_if taken integrity_error
  raise_if (leb_ℤ max_draw_minor (pos 0)) integrity_error
  modify (λ db. record db {
    overdraft_grants =
        db.overdraft_grants
        ++ (record {
          id = grant_id;
          pool_id = pool_id;
          beneficiary_user_id = beneficiary;
          max_draw_minor = max_draw_minor;
          status = GrantStatus.active;
          created_at = now;
          updated_at = now;
        }
            ∷ []);
  })

unfoldable pub get_grant : ℕ → ℕ → Action (Option OverdraftGrantRecord)
get_grant pool_id beneficiary =
    gets (λ db. find (grants_to pool_id beneficiary) db.overdraft_grants)

-- A row of the join of grants, pools and accounts.
pub record GrantRow : Type 0 where
  pub max_draw_minor : ℤ
  pub pool_id : ℕ
  pub sponsor_user_id : ℕ
  pub pool_account_id : ℕ

abbrev is_grant_of : ℕ → OverdraftGrantRecord → Bool
is_grant_of borrower g = borrower == g.beneficiary_user_id && is_granted g.status

-- `ORDER BY created_at, id`
abbrev grant_before : OverdraftGrantRecord → OverdraftGrantRecord → Bool
grant_before a b =
    if a.created_at == b.created_at then leb a.id b.id else leb a.created_at b.created_at

abbrev active_pool : OverdraftGrantRecord → OverdraftPoolRecord → Bool
active_pool g p = g.pool_id == p.id && is_open p.status

abbrev active_account : OverdraftPoolRecord → AccountRecord → Bool
active_account p a = p.pool_account_id == a.id && is_active_account a.status

abbrev with_account :
    OverdraftGrantRecord
    → OverdraftPoolRecord
    → Option AccountRecord
    → List GrantRow
    → List GrantRow
with_account g p none rest = rest
with_account g p (some account) rest =
    (record {
      max_draw_minor = g.max_draw_minor;
      pool_id = p.id;
      sponsor_user_id = p.sponsor_user_id;
      pool_account_id = p.pool_account_id;
    })
    ∷ rest

abbrev with_pool :
    Db → OverdraftGrantRecord → Option OverdraftPoolRecord → List GrantRow → List GrantRow
with_pool db g none rest = rest
with_pool db g (some p) rest = with_account g p (find (active_account p) db.accounts) rest

unfoldable pub join_grants : Db → List OverdraftGrantRecord → List GrantRow
join_grants db [] = []
join_grants db (g ∷ grants) =
    with_pool db g (find (active_pool g) db.overdraft_pools) (join_grants db grants)

unfoldable pub active_grants_for_borrower : ℕ → Action (List GrantRow)
active_grants_for_borrower borrower = gets (λ db.
    join_grants db (order_by grant_before (select (is_grant_of borrower) db.overdraft_grants)))
