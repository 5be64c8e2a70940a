-- ===== src/Identity/Reuse.antt =====
-- A refresh token that is presented twice (backend/modules/identity/application/auth_service.py, `refresh`, as
-- backend/apps/api/routes/auth.py runs it).
use money_management_pstu_ha.Prelude.{ℕ, ◌≡◌, refl, some, String, find}
use money_management_pstu_ha.Prelude.Result.{err, authentication}
use money_management_pstu_ha.Prelude.Exec.{lift, gets, modify, atomically, ◌>>=◌}
use money_management_pstu_ha.Database.{Db, clock_now}
use money_management_pstu_ha.Database.Schema.{SessionRecord}
use money_management_pstu_ha.Identity.Sessions.{
  Client, has_token, get_by_token_hash, revoke_all_for_user,
}
use money_management_pstu_ha.Identity.Auth.{Passwords, TokenService, Settings, refresh}

module _ (passwords : Passwords) (tokens : TokenService) (settings : Settings) where
  -- The token of a revoked session is refused, and its transaction leaves the database as it was: the
  -- revocation of the user's other sessions is undone with it.
  pub refresh-reused :
      (token : String) (client : Client) (db : Db) (s : SessionRecord) (then_revoked : ℕ)
      → find (has_token (tokens.hash_refresh_token token)) db.sessions ≡ some s
      → s.revoked_at ≡ some then_revoked
      → atomically (refresh passwords tokens settings token client) db ≡ (err authentication, db)
  unfolding refresh atomically clock_now get_by_token_hash revoke_all_for_user lift gets modify
      ◌>>=◌
  refresh-reused token client db s then_revoked found revoked = rw (found, revoked) refl
