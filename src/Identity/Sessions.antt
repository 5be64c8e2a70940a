-- ===== src/Identity/Sessions.antt =====
-- `SqlSessionRepository` of backend/modules/identity/adapters/persistence/repositories.py. A user agent comes cut
-- to the length of its column.
use money_management_pstu_ha.Prelude.{
  ℕ, Bool, not, ◌&&◌, ◌||◌, String, Option, none, some, [], ◌∷◌, ◌++◌, ◌==◌, str_eq, is_some, find,
  count, update,
}
use money_management_pstu_ha.Prelude.Result.{integrity_error}
use money_management_pstu_ha.Prelude.Exec.{gets, modify, pure, raise_if, ◌>>=◌, ◌>>◌}
use money_management_pstu_ha.Database.{Action}
use money_management_pstu_ha.Database.Schema.{SessionRecord}

-- `user_agent` and `ip_address`.
pub record Client : Type 0 where
  pub user_agent : Option String
  pub ip_address : Option String

abbrev clashes : ℕ → String → SessionRecord → Bool
clashes id token_hash s = id == s.id || str_eq s.refresh_token_hash token_hash

unfoldable pub create_session : ℕ → ℕ → String → ℕ → ℕ → Client → Action (Unit {0})
create_session session_id user_id token_hash expires_at now client = do
  taken ← gets (λ db. is_some (find (clashes session_id token_hash) db.sessions))
  raise_if taken integrity_error
  modify (λ db. record db {
    sessions =
        db.sessions
        ++ (record {
          id = session_id;
          user_id = user_id;
          refresh_token_hash = token_hash;
          rotated_to_id = none;
          issued_at = now;
          expires_at = expires_at;
          revoked_at = none;
          user_agent = client.user_agent;
          ip_address = client.ip_address;
        }
            ∷ []);
  })

abbrev pub has_token : String → SessionRecord → Bool
has_token token_hash s = str_eq s.refresh_token_hash token_hash

unfoldable pub get_by_token_hash : String → Action (Option SessionRecord)
get_by_token_hash token_hash = gets (λ db. find (has_token token_hash) db.sessions)

abbrev revoked : ℕ → SessionRecord → SessionRecord
revoked now s = record s { revoked_at = some now }

abbrev is_live : ℕ → SessionRecord → Bool
is_live id s = id == s.id && not (is_some s.revoked_at)

-- Returns the number of rows changed.
unfoldable pub revoke : ℕ → ℕ → Action ℕ
revoke session_id now = do
  rows ← gets (λ db. count (is_live session_id) db.sessions)
  modify (λ db. record db { sessions = update (is_live session_id) (revoked now) db.sessions })
  pure rows

abbrev pub is_live_of : ℕ → SessionRecord → Bool
is_live_of user_id s = user_id == s.user_id && not (is_some s.revoked_at)

unfoldable pub revoke_all_for_user : ℕ → ℕ → Action (Unit {0})
revoke_all_for_user user_id now =
    modify (λ db. record db { sessions = update (is_live_of user_id) (revoked now) db.sessions })

abbrev has_session_id : ℕ → SessionRecord → Bool
has_session_id id s = id == s.id

abbrev pub rotated : ℕ → ℕ → SessionRecord → SessionRecord
rotated successor_id now s = record s { rotated_to_id = some successor_id; revoked_at = some now }

unfoldable pub mark_rotated : ℕ → ℕ → ℕ → Action (Unit {0})
mark_rotated session_id successor_id now = modify (λ db. record db {
  sessions = update (has_session_id session_id) (rotated successor_id now) db.sessions;
})
