-- ===== src/System/Sessions.antt =====
-- Every invariant survives registration, login and the PIN
-- (backend/modules/identity/application/auth_service.py).
use money_management_pstu_ha.Prelude.{ℕ, String, Option}
use money_management_pstu_ha.Prelude.Result.{Failure, Result, ok, err}
use money_management_pstu_ha.Prelude.Exec.{reraise_as, reraised}
use money_management_pstu_ha.Prelude.Exec.Ensures.{
  Keeps, OnReturn, Keeps-bind, Keeps-lift, Keeps-gets, Keeps-if, Keeps-modify, Keeps-option_case,
}
use money_management_pstu_ha.Prelude.Exec.Always.{
  Always, Always-lift, Always-gets, Always-if, Always-modify, Always-bind,
}
use money_management_pstu_ha.Kernel.Money.{Money}
use money_management_pstu_ha.Database.{Db, Action, clock_now}
use money_management_pstu_ha.Database.Json.{Fields}
use money_management_pstu_ha.Database.Schema.{UserRecord, SessionRecord}
use money_management_pstu_ha.FinancialCore.Transfer.{Policy, Interceptor}
use money_management_pstu_ha.FinancialCore.Opening.{open_account}
use money_management_pstu_ha.FinancialCore.Repositories.Accounts.{create}
use money_management_pstu_ha.FinancialCore.Books.Writes.{
  clock_now-Keeps, draw-Keeps, new_ulid-Keeps,
}
use money_management_pstu_ha.Identity.Users.{
  create_user, get_user_by_phone, lock_user, record_pin_failure, reset_pin_failures,
  update_password_hash,
}
use money_management_pstu_ha.Identity.Sessions.{
  Client, create_session, get_by_token_hash, revoke, revoke_all_for_user, mark_rotated,
}
use money_management_pstu_ha.Identity.Auth.{
  Passwords, TokenService, Settings, Registration, hash_secret, open_session, start_session, login,
  rotate, refresh, logout, verify_pin, register, pin_protected, after_pin,
}
use money_management_pstu_ha.System.Invariant.{IsInvariant}

module _ {policy : Policy} {interceptor : Interceptor} {P : Db → Type 0}
    (kept : IsInvariant policy interceptor P) where
  open_account-Keeps :
      (digest : Fields → String) (user_id : ℕ) (opening : Money) (number : String) (now : ℕ)
      (request_id : Option String)
      → Keeps P (open_account digest policy interceptor user_id opening number now request_id)
  unfolding open_account create
  open_account-Keeps digest user_id opening number now request_id =
      Keeps-bind _ _ (new_ulid-Keeps kept.logs) λ id. Keeps-bind _ _ (kept.opens _ _ _ _ _ _) λ _.
        Keeps-bind _ _
          (Keeps-if _ _ _ (Keeps-bind _ _ (kept.executes _) λ _. Keeps-lift _) (Keeps-lift _))
          λ _. Keeps-lift _

  create_user-Keeps :
      (id : ℕ) (phone name password pin : String) (now : ℕ)
      → Keeps P (create_user id phone name password pin now)
  unfolding create_user
  create_user-Keeps id phone name password pin now = Keeps-bind _ _ (Keeps-gets _) λ taken.
      Keeps-bind _ _ (Keeps-lift _) λ _.
        Keeps-bind _ _ (Keeps-gets _) λ known.
          Keeps-bind _ _ (Keeps-lift _) λ _. Keeps-modify _ (λ db h. kept.rest.users db _ h)

  create_session-Keeps :
      (id user : ℕ) (hash : String) (expires now : ℕ) (client : Client)
      → Keeps P (create_session id user hash expires now client)
  unfolding create_session
  create_session-Keeps id user hash expires now client =
      Keeps-bind _ _ (Keeps-gets _) λ taken.
        Keeps-bind _ _ (Keeps-lift _) λ _. Keeps-modify _ (λ db h. kept.rest.sessions db _ h)

  reraise_as-Keeps :
      {A : Type 0} (f : Failure → Failure) (m : Action A) → Keeps P m → Keeps P (reraise_as f m)
  unfolding reraise_as
  reraise_as-Keeps {A} f m keeps = record {
    at = λ db h. same_state (m db).0 (m db).1 (keeps.at db h);
  }
    where
      same_state :
          (r : Result A) (db : Db) → OnReturn (λ _. P) r db → OnReturn (λ _. P) (reraised f r) db
      same_state (ok a) db h = h
      same_state (err e) db h = h

  module _ (passwords : Passwords) (tokens : TokenService) (settings : Settings) where
    hash_secret-Keeps : (secret : String) → Keeps P (hash_secret passwords tokens settings secret)
    unfolding hash_secret
    hash_secret-Keeps secret = Keeps-bind _ _ (draw-Keeps kept.logs) λ salt. Keeps-lift _

    open_session-Keeps :
        (id user now : ℕ) (client : Client)
        → Keeps P (open_session passwords tokens settings id user now client)
    unfolding open_session
    open_session-Keeps id user now client =
        Keeps-bind _ _ (draw-Keeps kept.logs)
          λ randomness. Keeps-bind _ _ (create_session-Keeps _ _ _ _ _ _) λ _. Keeps-lift _

    start_session-Keeps :
        (user now : ℕ) (client : Client)
        → Keeps P (start_session passwords tokens settings user now client)
    unfolding start_session
    start_session-Keeps user now client =
        Keeps-bind _ _ (new_ulid-Keeps kept.logs)
          λ id. Keeps-bind _ _ (open_session-Keeps id user now client) λ raw. Keeps-lift _

    pub login-Keeps :
        (phone password : String) (client : Client)
        → Keeps P (login passwords tokens settings phone password client)
    unfolding login get_user_by_phone update_password_hash
    login-Keeps phone password client = Keeps-bind _ _ (clock_now-Keeps kept.logs) λ now.
        Keeps-bind _ _ (Keeps-gets _) λ row.
          Keeps-option_case _ _ _ (Keeps-bind _ _ (hash_secret-Keeps password) λ _. Keeps-lift _)
            λ (user : UserRecord). Keeps-bind _ _ (Keeps-lift _) λ _.
              Keeps-bind _ _ (Keeps-lift _) λ _.
                Keeps-bind _ _
                  (Keeps-if _ _ _
                    (Keeps-bind _ _ (hash_secret-Keeps password)
                      λ hashed. Keeps-modify _ (λ db h. kept.rest.users db _ h))
                    (Keeps-lift _))
                  λ _.
                    Keeps-bind _ _ (start_session-Keeps user.id now client) λ issued. Keeps-lift _

    rotate-Keeps :
        (session : SessionRecord) (now : ℕ) (client : Client)
        → Keeps P (rotate passwords tokens settings session now client)
    unfolding rotate mark_rotated
    rotate-Keeps session now client = Keeps-bind _ _ (new_ulid-Keeps kept.logs) λ id.
        Keeps-bind _ _ (open_session-Keeps id _ now client) λ raw.
          Keeps-bind _ _ (Keeps-modify _ (λ db h. kept.rest.sessions db _ h)) λ _. Keeps-lift _

    pub refresh-Keeps :
        (token : String) (client : Client)
        → Keeps P (refresh passwords tokens settings token client)
    unfolding refresh get_by_token_hash revoke_all_for_user
    refresh-Keeps token client = Keeps-bind _ _ (clock_now-Keeps kept.logs) λ now.
        Keeps-bind _ _ (Keeps-gets _) λ row.
          Keeps-bind _ _ (Keeps-lift _) λ (session : SessionRecord).
            Keeps-bind _ _
              (Keeps-if _ _ _
                (Keeps-bind _ _ (Keeps-modify _ (λ db h. kept.rest.sessions db _ h))
                  λ _. Keeps-lift _)
                (Keeps-lift _))
              λ _. Keeps-bind _ _ (Keeps-lift _) λ _. rotate-Keeps session now client

    pub logout-Keeps : (token : String) → Keeps P (logout passwords tokens settings token)
    unfolding logout get_by_token_hash revoke
    logout-Keeps token = Keeps-bind _ _ (clock_now-Keeps kept.logs) λ now.
        Keeps-bind _ _ (Keeps-gets _) λ row.
          Keeps-option_case _ _ _ (Keeps-lift _) λ (session : SessionRecord).
            Keeps-bind _ _
              (Keeps-bind _ _ (Keeps-gets _) λ rows.
                Keeps-bind _ _ (Keeps-modify _ (λ db h. kept.rest.sessions db _ h))
                  λ _. Keeps-lift _)
              λ _. Keeps-lift _

    pub register-Keeps :
        (digest : Fields → String) (r : Registration)
        → Keeps P (register passwords tokens settings digest policy interceptor r)
    unfolding register
    register-Keeps digest r = Keeps-bind _ _ (clock_now-Keeps kept.logs) λ now.
        Keeps-bind _ _ (new_ulid-Keeps kept.logs) λ id.
          Keeps-bind _ _ (hash_secret-Keeps _) λ password.
            Keeps-bind _ _ (hash_secret-Keeps _) λ pin.
              Keeps-bind _ _ (reraise_as-Keeps _ _ (create_user-Keeps _ _ _ _ _ _)) λ _.
                Keeps-bind _ _ (open_account-Keeps digest _ _ _ _ _)
                  λ account. Keeps-bind _ _ (start_session-Keeps _ _ _) λ issued. Keeps-lift _

    -- A wrong PIN is written down and then raised.
    verify_pin-Always :
        (user_id : ℕ) (pin : String) → Always P (verify_pin passwords tokens settings user_id pin)
    unfolding verify_pin clock_now lock_user reset_pin_failures record_pin_failure
    verify_pin-Always user_id pin = Always-bind _ _ (Always-gets _) λ now.
        Always-bind _ _ (Always-gets _) λ row. Always-bind _ _ (Always-lift _) λ user.
          Always-bind _ _ (Always-lift _) λ _.
            Always-if _ _ _
              (Always-if _ _ _ (Always-lift _) (Always-modify _ (λ db h. kept.rest.users db _ h)))
              (Always-bind _ _ (Always-modify _ (λ db h. kept.rest.users db _ h))
                λ _. Always-lift _)

    module _ {A : Type 0} (operation : Action A) (keeps : Keeps P operation) where
      after_pin-Keeps :
          (checked : Result (Unit {0}))
          → Keeps P (after_pin passwords tokens settings checked operation)
      after_pin-Keeps (ok done) = Keeps-bind _ _ keeps λ a. Keeps-lift _
      after_pin-Keeps (err e) = Keeps-if _ _ _ (Keeps-lift _) (Keeps-lift _)

      pub pin_protected-Keeps :
          (user_id : ℕ) (pin : String)
          → Keeps P (pin_protected passwords tokens settings user_id pin operation)
      unfolding pin_protected
      pin_protected-Keeps user_id pin = record {
        at = λ db h.
            let (checked, db') = verify_pin passwords tokens settings user_id pin db in
            (after_pin-Keeps checked).at db' ((verify_pin-Always user_id pin).after db h);
      }
