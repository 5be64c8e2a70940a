-- ===== src/Identity/Auth.antt =====
-- backend/modules/identity/application/auth_service.py, and `run_pin_protected` of
-- backend/apps/api/dependencies.py. Argon2, SHA-256, the JWT library and the alphabet of
-- `secrets.token_urlsafe` are parameters. Log lines are left out.
use money_management_pstu_ha.Prelude.{
  ℕ, suc, ◌+◌, ◌*◌, Bool, true, false, not, String, Option, none, some, [], ◌∷◌, leb, ltb, ◌==◌,
  text_of, is_some, if◌then◌else◌,
}
use money_management_pstu_ha.Prelude.Result.{
  Failure, Result, ok, err, integrity_error, conflict, authentication, pin_locked, validation,
}
use money_management_pstu_ha.Prelude.Exec.{
  pure, raise, raise_if, require, reraise_as, option_case, ◌>>=◌, ◌>>◌,
}
use money_management_pstu_ha.Kernel.Money.{Money}
use money_management_pstu_ha.Kernel.Ids.{ulid_suffix}
use money_management_pstu_ha.Database.{Action, clock_now, draw, new_ulid}
use money_management_pstu_ha.Database.Enums.{is_active_user}
use money_management_pstu_ha.Database.Json.{Fields}
use money_management_pstu_ha.Database.Schema.{SessionRecord}
use money_management_pstu_ha.FinancialCore.Transfer.{Policy, Interceptor}
use money_management_pstu_ha.FinancialCore.Opening.{open_account}
use money_management_pstu_ha.Identity.Users.{
  create_user, get_user_by_phone, lock_user, record_pin_failure, reset_pin_failures,
  update_password_hash,
}
use money_management_pstu_ha.Identity.Sessions.{
  Client, create_session, get_by_token_hash, revoke, revoke_all_for_user, mark_rotated,
}

-- `PasswordHasherService`: a salt and a secret make a hash.
pub record Passwords : Type 0 where
  pub hash : ℕ → String → String
  pub verify : String → String → Bool
  pub needs_rehash : String → Bool

-- `TokenService`
pub record TokenService : Type 0 where
  pub raw_token : ℕ → String
  pub hash_refresh_token : String → String
  pub issue_access_token : ℕ → ℕ → ℕ → String
  pub refresh_ttl_seconds : ℕ

pub record AuthTokens : Type 0 where
  pub access_token : String
  pub refresh_token : String
  pub expires_in_seconds : ℕ

pub record RegisteredUser : Type 0 where
  pub user_id : ℕ
  pub account_id : ℕ
  pub display_name : String
  pub phone : String
  pub tokens : AuthTokens

pub record Settings : Type 0 where
  pub opening_balance : Money
  pub pin_max_attempts : ℕ
  pub pin_lockout_seconds : ℕ
  pub access_ttl_seconds : ℕ

-- The arguments of `register`.
pub record Registration : Type 0 where
  pub phone : String
  pub display_name : String
  pub password : String
  pub pin : String
  pub request_id : Option String
  pub client : Client

-- `_account_number_for`
unfoldable pub account_number_for : ℕ → String
account_number_for user_id = text_of ("MM" ∷ ulid_suffix 10 user_id ∷ [])

-- `except IntegrityError: raise ConflictError`
abbrev as_conflict : Failure → Failure
as_conflict integrity_error = conflict
as_conflict other = other

module _ (passwords : Passwords) (tokens : TokenService) (settings : Settings) where
  -- `self._passwords.hash`, with a fresh salt.
  unfoldable pub hash_secret : String → Action String
  hash_secret secret = draw >>= λ salt. pure (passwords.hash salt secret)

  -- `issue_refresh_token` and `sessions.create`: the raw token.
  unfoldable pub open_session : ℕ → ℕ → ℕ → Client → Action String
  open_session session_id user_id now client = do
    randomness ← draw
    let raw = tokens.raw_token randomness
    create_session session_id user_id (tokens.hash_refresh_token raw)
        (now + tokens.refresh_ttl_seconds * 1000) now client
    pure raw

  abbrev issued : ℕ → ℕ → ℕ → String → AuthTokens
  issued user_id session_id now raw = record {
    access_token = tokens.issue_access_token user_id session_id now;
    refresh_token = raw;
    expires_in_seconds = settings.access_ttl_seconds;
  }

  -- `_start_session`
  unfoldable pub start_session : ℕ → ℕ → Client → Action AuthTokens
  start_session user_id now client = do
    session_id ← new_ulid
    raw ← open_session session_id user_id now client
    pure (issued user_id session_id now raw)

  -- `login`
  unfoldable pub login : String → String → Client → Action (ℕ × AuthTokens)
  login phone password client = do
    now ← clock_now
    row ← get_user_by_phone phone
    option_case row (hash_secret password >> raise authentication) (λ user. do
      raise_if (not (passwords.verify user.password_hash password)) authentication
      raise_if (not (is_active_user user.status)) authentication
      (if passwords.needs_rehash user.password_hash
          then (hash_secret password >>= λ hashed. update_password_hash user.id hashed)
          else pure tt)
      issued ← start_session user.id now client
      pure (user.id, issued))

  -- The rest of `refresh`, on a session that still stands.
  unfoldable pub rotate : SessionRecord → ℕ → Client → Action AuthTokens
  rotate session now client = do
    successor_id ← new_ulid
    raw ← open_session successor_id session.user_id now client
    mark_rotated session.id successor_id now
    pure (issued session.user_id successor_id now raw)

  -- `refresh`
  unfoldable pub refresh : String → Client → Action AuthTokens
  refresh refresh_token client = do
    now ← clock_now
    row ← get_by_token_hash (tokens.hash_refresh_token refresh_token)
    session ← require row authentication
    (if is_some session.revoked_at
        then (revoke_all_for_user session.user_id now >> raise authentication)
        else pure tt)
    raise_if (leb session.expires_at now) authentication
    rotate session now client

  -- `logout`
  unfoldable pub logout : String → Action (Unit {0})
  logout refresh_token = do
    now ← clock_now
    row ← get_by_token_hash (tokens.hash_refresh_token refresh_token)
    option_case row (pure tt) (λ session. revoke session.id now >>= λ _. pure tt)

  abbrev pub is_locked_at : ℕ → Option ℕ → Bool
  is_locked_at now none = false
  is_locked_at now (some until) = ltb now until

  -- The attempts and the lock after one more wrong PIN.
  unfoldable pub lock_after : ℕ → ℕ → Option ℕ
  lock_after attempts now =
      if leb settings.pin_max_attempts attempts
      then some (now + settings.pin_lockout_seconds * 1000)
      else none

  abbrev pub pin_failure : Option ℕ → Failure
  pin_failure none = validation
  pin_failure (some until) = pin_locked

  -- `verify_pin`
  unfoldable pub verify_pin : ℕ → String → Action (Unit {0})
  verify_pin user_id pin = do
    now ← clock_now
    row ← lock_user user_id
    user ← require row authentication
    raise_if (is_locked_at now user.pin_locked_until) pin_locked
    (if passwords.verify user.pin_hash pin
        then (if user.pin_failed_attempts == 0 then pure tt else reset_pin_failures user_id)
        else (record_pin_failure user_id (suc user.pin_failed_attempts)
              (lock_after (suc user.pin_failed_attempts) now)
            >> raise (pin_failure (lock_after (suc user.pin_failed_attempts) now))))

  module _ (digest : Fields → String) (policy : Policy) (interceptor : Interceptor) where
    -- `register`
    unfoldable pub register : Registration → Action RegisteredUser
    register r = do
      now ← clock_now
      user_id ← new_ulid
      password_hash ← hash_secret r.password
      pin_hash ← hash_secret r.pin
      reraise_as as_conflict (create_user user_id r.phone r.display_name password_hash pin_hash now)
      account_id ←
          open_account digest policy interceptor user_id settings.opening_balance
            (account_number_for user_id) now r.request_id
      issued ← start_session user_id now r.client
      pure (record {
        user_id = user_id;
        account_id = account_id;
        display_name = r.display_name;
        phone = r.phone;
        tokens = issued;
      })

  -- What `run_pin_protected` passes out of its transaction as a value, to be raised after the commit.
  abbrev is_pin_error : Failure → Bool
  is_pin_error validation = true
  is_pin_error pin_locked = true
  is_pin_error other = false

  module _ {A : Type 0} where
    abbrev pub after_pin : Result (Unit {0}) → Action A → Action (Result A)
    after_pin (ok done) operation = operation >>= λ a. pure (ok a)
    after_pin (err e) operation = if is_pin_error e then pure (err e) else raise e

    -- The transaction of `run_pin_protected`.
    unfoldable pub pin_protected : ℕ → String → Action A → Action (Result A)
    pin_protected user_id pin operation db =
        let (checked, db') = verify_pin user_id pin db in after_pin checked operation db'
