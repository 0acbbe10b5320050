-- ===== src/Auth/Store.antt =====
-- AuthStore: internal/infra/database/auth_store.go.
use wildman_service.Base.{
  ℕ, String, Bool, true, false, not, ◌&&◌, ◌||◌, Option, none, some, [], ◌∷◌, ◌++◌, if◌then◌else◌,
  is_some, Exec, StoreError, map_option, first_where, exists_where, update_where, int_eq, ◌==◌,
  nat_eq, string_eq, list_eq, Text, ok, err, constraint_violation,
}
use wildman_service.Auth.{User, Session}
use wildman_service.Database.{Database}

pub record SessionWithUser : Type 0 where
  pub session : Session
  pub user : User

touch_session_row : ℕ → Session → Session
touch_session_row at s = record s { last_seen_at = at }

unfoldable pub revoke_session_row : ℕ → Session → Session
revoke_session_row at s = record s { revoked_at = some at }

module _ {Num : Type 0} where
  -- IsInitialized
  unfoldable pub is_initialized : Exec StoreError (Database Num) Bool
  is_initialized db = (ok (exists_where (λ u. true) db.users), db)

  -- CreateInitialAdmin. The insertion cannot break a constraint of the table, which is empty.
  unfoldable pub create_initial_admin : User → Exec StoreError (Database Num) Bool
  create_initial_admin user db =
      if exists_where (λ u. true) db.users
      then (ok false, db)
      else (ok true, record db { users = db.users ++ (user ∷ []) })

  -- FindUserByUsername
  unfoldable pub find_user_by_username : Text → Exec StoreError (Database Num) (Option User)
  find_user_by_username username db = (ok (first_where (λ u. u.username == username) db.users), db)

  -- The unique columns and the foreign key of the table of sessions.
  unfoldable pub session_insertable : Session → Database Num → Bool
  session_insertable s db =
      not (exists_where (λ r. r.id == s.id || r.token_hash == s.token_hash) db.sessions)
      && exists_where (λ u. u.id == s.user_id) db.users

  -- CreateSession
  unfoldable pub create_session : Session → Exec StoreError (Database Num) (Unit {0})
  unfolding session_insertable
  create_session s db =
      if session_insertable s db
      then (ok tt, record db { sessions = db.sessions ++ (s ∷ []) })
      else (err constraint_violation, db)

  -- The join of a session and its user.
  unfoldable pub with_user : Database Num → Option Session → Option SessionWithUser
  with_user db none = none
  with_user db (some s) =
      map_option (λ u. record { session = s; user = u })
        (first_where (λ u. u.id == s.user_id) db.users)

  -- FindSessionByTokenHash
  unfoldable pub find_session_by_token_hash :
      String → Exec StoreError (Database Num) (Option SessionWithUser)
  unfolding with_user
  find_session_by_token_hash token_hash db =
      (ok (with_user db (first_where (λ s. s.token_hash == token_hash) db.sessions)), db)

  -- TouchSession
  unfoldable pub touch_session : String → ℕ → Exec StoreError (Database Num) (Unit {0})
  unfolding touch_session_row
  touch_session id at db = (
    ok tt,
    record db {
      sessions =
          update_where (λ s. s.id == id && not (is_some s.revoked_at)) (touch_session_row at)
            db.sessions;
    },
  )

  -- RevokeSession
  unfoldable pub revoke_session : String → ℕ → Exec StoreError (Database Num) (Unit {0})
  unfolding revoke_session_row
  revoke_session token_hash at db = (
    ok tt,
    record db {
      sessions =
          update_where (λ s. s.token_hash == token_hash && not (is_some s.revoked_at))
            (revoke_session_row at) db.sessions;
    },
  )
