-- ===== src/Identity/Pin.antt =====
-- What the PIN guards (backend/modules/identity/application/auth_service.py, `verify_pin`, and
-- backend/apps/api/dependencies.py, `run_pin_protected`).
use money_management_pstu_ha.Prelude.{
  ℕ, suc, ◌≡◌, refl, sym, ap, ◌+◌, ◌<◌, true, false, String, some, List, [], ◌∷◌, arith, find,
  update, length, All, Option-cases, inl, inr,
}
use mathlib.Core.Path.{subst}
use money_management_pstu_ha.Prelude.Result.{Result, ok, err, pin_locked}
use money_management_pstu_ha.Prelude.Exec.{lift, gets, modify, atomically, ◌>>=◌}
use money_management_pstu_ha.Database.{Db, Action, clock_now}
use money_management_pstu_ha.Database.Schema.{UserRecord}
use money_management_pstu_ha.Identity.Users.{
  has_id, find_user, lock_user, with_failures, record_pin_failure,
}
use money_management_pstu_ha.Identity.Auth.{
  Passwords, TokenService, Settings, is_locked_at, lock_after, pin_failure, verify_pin,
  pin_protected,
}

find-update_hit :
    (id : ℕ) (f : UserRecord → UserRecord) (rows : List UserRecord) (u : UserRecord)
    → ((r : UserRecord) → (f r).id ≡ r.id)
    → find (has_id id) rows ≡ some u
    → find (has_id id) (update (has_id id) f rows) ≡ some (f u)
unfolding find update
find-update_hit id f [] u same found = ground arith
find-update_hit id f (r ∷ rows) u same found =
    ground (arith, same r, find-update_hit id f rows u same)

module _ (passwords : Passwords) (tokens : TokenService) (settings : Settings) {A : Type 0}
    (operation : Action A) where
  -- A wrong PIN does not run the command, and is counted although it is an error: the transaction commits
  -- one more failed attempt, and a lock from the attempt on that reaches the maximum.
  pub pin_protected-wrong :
      (user_id : ℕ) (pin : String) (db : Db) (u : UserRecord)
      → find_user user_id db ≡ some u
      → is_locked_at passwords tokens settings db.clock u.pin_locked_until ≡ false
      → passwords.verify u.pin_hash pin ≡ false
      → atomically (pin_protected passwords tokens settings user_id pin operation) db ≡ (
        ok (
            err (
              pin_failure passwords tokens settings
                (lock_after passwords tokens settings (suc u.pin_failed_attempts) db.clock))),
        record db {
          users =
              update
                (has_id user_id)
                (with_failures
                  (suc u.pin_failed_attempts)
                  (lock_after passwords tokens settings (suc u.pin_failed_attempts) db.clock))
                db.users;
        },
      )
  unfolding pin_protected verify_pin atomically clock_now lock_user record_pin_failure lift gets
      modify ◌>>=◌
  pin_protected-wrong user_id pin db u found unlocked wrong =
      rw (found, unlocked, wrong)
        (elim (Option-cases
          (lock_after passwords tokens settings (suc u.pin_failed_attempts) db.clock)) [
            | inl none_yet ↦ rw none_yet refl
            | inr (until, locked) ↦ rw locked refl
          ])

  -- While the PIN is locked, every PIN is refused, the right one too, and nothing is written.
  pub pin_protected-locked :
      (user_id : ℕ) (pin : String) (db : Db) (u : UserRecord)
      → find_user user_id db ≡ some u
      → is_locked_at passwords tokens settings db.clock u.pin_locked_until ≡ true
      → atomically (pin_protected passwords tokens settings user_id pin operation) db
        ≡ (ok (err pin_locked), db)
  unfolding pin_protected verify_pin atomically clock_now lock_user lift gets ◌>>=◌
  pin_protected-locked user_id pin db u found locked = rw (found, locked) refl

  -- A command attempted with one PIN after another, each in its transaction.
  abbrev pub guesses : ℕ → List String → Db → Db
  guesses user_id [] db = db
  guesses user_id (pin ∷ pins) db =
      guesses user_id pins
        (atomically (pin_protected passwords tokens settings user_id pin operation) db).1

  abbrev IsWrong : UserRecord → String → Type 0
  IsWrong u pin = passwords.verify u.pin_hash pin ≡ false

  -- The database and the user after one wrong PIN.
  abbrev failed_once : ℕ → UserRecord → UserRecord
  failed_once now u =
      with_failures (suc u.pin_failed_attempts)
        (lock_after passwords tokens settings (suc u.pin_failed_attempts) now) u

  abbrev after_failure : ℕ → UserRecord → Db → Db
  after_failure user_id u db = record db {
    users =
        update (has_id user_id)
          (with_failures (suc u.pin_failed_attempts)
            (lock_after passwords tokens settings (suc u.pin_failed_attempts) db.clock))
          db.users;
  }

  failed_once-found :
      (user_id : ℕ) (db : Db) (u : UserRecord)
      → find_user user_id db ≡ some u
      → find_user user_id (after_failure user_id u db) ≡ some (failed_once db.clock u)
  unfolding find_user
  failed_once-found user_id db u found = find-update_hit user_id _ db.users u (λ r. refl) found

  not_yet :
      (attempts now : ℕ)
      → attempts < settings.pin_max_attempts
      → is_locked_at passwords tokens settings now
          (lock_after passwords tokens settings attempts now)
        ≡ false
  unfolding lock_after
  not_yet attempts now few = ground arith

  at_last :
      (attempts now : ℕ)
      → attempts ≡ settings.pin_max_attempts
      → 0 < settings.pin_lockout_seconds
      → is_locked_at passwords tokens settings now
          (lock_after passwords tokens settings attempts now)
        ≡ true
  unfolding lock_after
  at_last attempts now all lasts = ground arith

  abbrev pub IsRefused : ℕ → String → Db → Type 0
  IsRefused user_id pin db =
      atomically (pin_protected passwords tokens settings user_id pin operation) db
      ≡ (ok (err pin_locked), db)

  -- The first of the guesses is wrong.
  guesses-step :
      (user_id : ℕ) (first : String) (others : List String) (db : Db) (u : UserRecord)
      (pin : String)
      → find_user user_id db ≡ some u
      → is_locked_at passwords tokens settings db.clock u.pin_locked_until ≡ false
      → IsWrong u first
      → IsRefused user_id pin (guesses user_id others (after_failure user_id u db))
      → IsRefused user_id pin (guesses user_id (first ∷ others) db)
  guesses-step user_id first others db u pin found unlocked wrong h =
      subst (λ (after : Db). IsRefused user_id pin (guesses user_id others after))
        (sym (
          ap (λ (answer : Result (Result A) × Db). answer.1)
            (pin_protected-wrong user_id first db u found unlocked wrong)))
        h

  -- Guessing ends: once the wrong PINs in a row, those on record included, have reached the maximum, every
  -- PIN is refused, the right one too, and the command does not run. The lock lasts some time and the clock
  -- stands still meanwhile.
  pub guesses-locked :
      (user_id : ℕ) (first : String) (others : List String) (db : Db) (u : UserRecord)
      → find_user user_id db ≡ some u
      → is_locked_at passwords tokens settings db.clock u.pin_locked_until ≡ false
      → All (IsWrong u) (first ∷ others)
      → u.pin_failed_attempts + length (first ∷ others) ≡ settings.pin_max_attempts
      → 0 < settings.pin_lockout_seconds
      → (pin : String) → IsRefused user_id pin (guesses user_id (first ∷ others) db)
  guesses-locked user_id first [] db u found unlocked wrong all lasts pin =
      guesses-step user_id first [] db u pin found unlocked wrong.0 (
        pin_protected-locked user_id pin (after_failure user_id u db) (failed_once db.clock u)
          (failed_once-found user_id db u found) (at_last _ db.clock (omega (arith, all)) lasts))
  guesses-locked user_id first (second ∷ others) db u found unlocked wrong all lasts pin =
      guesses-step user_id first (second ∷ others) db u pin found unlocked wrong.0 (
        guesses-locked user_id second others (after_failure user_id u db) (failed_once db.clock u)
          (failed_once-found user_id db u found) (not_yet _ db.clock (omega (arith, all))) wrong.1
          (omega (arith, all)) lasts pin)
