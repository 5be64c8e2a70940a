-- ===== src/Identity/Users.antt =====
-- `SqlUserRepository` of backend/modules/identity/adapters/persistence/repositories.py. The CHECK on the form
-- of a phone number is not modelled.
use money_management_pstu_ha.Prelude.{
  ℕ, Bool, not, ◌&&◌, String, Option, none, [], ◌∷◌, ◌++◌, ◌==◌, str_eq, is_some, find, count,
  update,
}
use money_management_pstu_ha.Prelude.Result.{integrity_error}
use money_management_pstu_ha.Prelude.Exec.{gets, modify, pure, raise_if, ◌>>=◌, ◌>>◌}
use money_management_pstu_ha.Database.{Db, Action}
use money_management_pstu_ha.Database.Enums.{UserStatus, is_active_user}
use money_management_pstu_ha.Database.Schema.{UserRecord}

abbrev pub has_id : ℕ → UserRecord → Bool
has_id id u = id == u.id

abbrev pub has_phone : String → UserRecord → Bool
has_phone phone u = str_eq u.phone phone

unfoldable pub find_user : ℕ → Db → Option UserRecord
find_user id db = find (has_id id) db.users

unfoldable pub create_user : ℕ → String → String → String → String → ℕ → Action (Unit {0})
create_user user_id phone display_name password_hash pin_hash now = do
  taken ← gets (λ db. is_some (find_user user_id db))
  raise_if taken integrity_error
  known ← gets (λ db. is_some (find (has_phone phone) db.users))
  raise_if known integrity_error
  modify (λ db. record db {
    users =
        db.users
        ++ (record {
          id = user_id;
          phone = phone;
          display_name = display_name;
          password_hash = password_hash;
          pin_hash = pin_hash;
          pin_failed_attempts = 0;
          pin_locked_until = none;
          status = UserStatus.active;
          created_at = now;
          updated_at = now;
        }
            ∷ []);
  })

unfoldable pub get_user_by_phone : String → Action (Option UserRecord)
get_user_by_phone phone = gets (λ db. find (has_phone phone) db.users)

-- `lock_for_update`, and `get_by_id` without the lock.
unfoldable pub lock_user : ℕ → Action (Option UserRecord)
lock_user user_id = gets (find_user user_id)

abbrev pub with_failures : ℕ → Option ℕ → UserRecord → UserRecord
with_failures attempts locked_until u = record u {
  pin_failed_attempts = attempts;
  pin_locked_until = locked_until;
}

unfoldable pub record_pin_failure : ℕ → ℕ → Option ℕ → Action (Unit {0})
record_pin_failure user_id attempts locked_until = modify (λ db. record db {
  users = update (has_id user_id) (with_failures attempts locked_until) db.users;
})

unfoldable pub reset_pin_failures : ℕ → Action (Unit {0})
reset_pin_failures user_id = record_pin_failure user_id 0 none

abbrev with_password : String → UserRecord → UserRecord
with_password password_hash u = record u { password_hash = password_hash }

unfoldable pub update_password_hash : ℕ → String → Action (Unit {0})
update_password_hash user_id password_hash =
    modify
      (λ db. record db { users = update (has_id user_id) (with_password password_hash) db.users })

abbrev with_status : UserStatus → UserRecord → UserRecord
with_status status u = record u { status = status }

-- Returns the number of rows changed.
unfoldable pub set_user_status : ℕ → UserStatus → Action ℕ
set_user_status user_id status = do
  rows ← gets (λ db. count (has_id user_id) db.users)
  modify (λ db. record db { users = update (has_id user_id) (with_status status) db.users })
  pure rows

abbrev is_findable : String → ℕ → UserRecord → Bool
is_findable phone exclude u =
    has_phone phone u && (not (u.id == exclude) && is_active_user u.status)

-- The row whose columns the returned dictionary shows.
unfoldable pub search_user : String → ℕ → Action (Option UserRecord)
search_user phone exclude_user_id = gets (λ db. find (is_findable phone exclude_user_id) db.users)
