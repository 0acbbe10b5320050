-- ===== src/Auth/Service.antt =====
-- The service of operators: internal/app/auth/service.go and session.go. Ids, salts, random tokens
-- and the clock are arguments; `hash_token` is SHA-256 with its encoding.
pub mod Sessions
pub mod Setup
pub mod LogIn
pub mod Tests
use wildman_service.Base.{
  ℕ, ◌+◌, ◌*◌, String, Bool, not, ◌||◌, Option, none, some, List, [], ltb, if◌then◌else◌, is_some,
  Result, Exec, pure, raise, lift, ◌>>=◌, ◌>>◌, Faults, call, call_quietly, int_eq, ◌==◌, nat_eq,
  string_eq, list_eq, Text, ok, err,
}
use wildman_service.Time.{minute, hour, day, before, elapsed}
use wildman_service.Unicode.{Unicode}
use wildman_service.Auth.{User, Session, active, user_is_active}
use wildman_service.Auth.Password.{PasswordError, validate_password, hash_password, verify_password}
use wildman_service.Auth.Username.{normalize_username}
use wildman_service.Auth.Store.{
  SessionWithUser, is_initialized, create_initial_admin, find_user_by_username, create_session,
  find_session_by_token_hash, touch_session, revoke_session,
}
use wildman_service.Database.{Database}

pub data Error : Type 0 where
  setup_complete invalid_username invalid_password invalid_credentials unauthenticated : Error
  password_not_verified store_failed : Error

abbrev session_absolute_lifetime : ℕ
session_absolute_lifetime = 7 * day

abbrev pub session_idle_lifetime : ℕ
session_idle_lifetime = 24 * hour

abbrev session_touch_interval : ℕ
session_touch_interval = 5 * minute

or_invalid_username : Option Text → Result Error Text
or_invalid_username none = err invalid_username
or_invalid_username (some name) = ok name

or_invalid_password : Result PasswordError (Unit {0}) → Result Error (Unit {0})
or_invalid_password (ok u) = ok u
or_invalid_password (err e) = err invalid_password

-- fmt.Errorf("verify password: ...")
or_not_verified : Result PasswordError Bool → Result Error Bool
or_not_verified (ok b) = ok b
or_not_verified (err e) = err password_not_verified

-- The hash that Login checks the password against.
stored_hash : Text → Option User → Text
stored_hash dummy none = dummy
stored_hash dummy (some user) = user.password_hash

-- now.Sub(lastSeen) > idle
idle_too_long : ℕ → ℕ → Bool
idle_too_long now last_seen = ltb (last_seen + session_idle_lifetime) now

pub record LoginResult : Type 0 where
  pub user : User
  pub token : Text
  pub expires_at : ℕ

pub new_session : (Text → String) → User → String → Text → ℕ → Session
new_session hash_token user id token now = record {
  id = id;
  user_id = user.id;
  token_hash = hash_token token;
  expires_at = now + session_absolute_lifetime;
  last_seen_at = now;
  revoked_at = none;
  created_at = now;
}

module _ {Num : Type 0} (u : Unicode) (id_key : Text → List ℕ → ℕ → ℕ → ℕ → ℕ → List ℕ)
    (hash_token : Text → String) (dummy_password_hash : Text) (faults : Faults) where
  -- SetupStatus: whether the setup is required.
  pub setup_status : Exec Error (Database Num) Bool
  setup_status = do
    initialized ← call (faults 0) store_failed is_initialized
    pure (not initialized)

  -- CreateInitialAdmin
  pub initial_admin : Text → Text → String → List ℕ → ℕ → Exec Error (Database Num) User
  unfolding or_invalid_username or_invalid_password
  initial_admin username password id salt now = do
    name ← lift (or_invalid_username (normalize_username u username))
    lift (or_invalid_password (validate_password password))
    let user : User = record {
      id = id;
      username = name;
      password_hash = hash_password id_key password salt;
      status = active;
      created_at = now;
      updated_at = now;
    }
    created ← call (faults 0) store_failed (create_initial_admin user)
    if created then pure user else raise setup_complete

  -- The code of Login after the password was checked.
  open_session : Bool → Option User → String → Text → ℕ → Exec Error (Database Num) LoginResult
  unfolding new_session user_is_active
  open_session matches none id token now = raise invalid_credentials
  open_session matches (some user) id token now =
      if not matches || not (user_is_active user.status) then raise invalid_credentials else do
        let session = new_session hash_token user id token now
        call (faults 1) store_failed (create_session session)
        pure (record { user = user; token = token; expires_at = session.expires_at })

  login_as : Text → String → Text → ℕ → Option Text → Exec Error (Database Num) LoginResult
  unfolding open_session stored_hash or_not_verified
  login_as password id token now none = raise invalid_credentials
  login_as password id token now (some username) = do
    found ← call (faults 0) store_failed (find_user_by_username username)
    matches ←
        lift (
          or_not_verified (verify_password id_key password (stored_hash dummy_password_hash found)))
    open_session matches found id token now

  -- Login, with the random id and token of the session.
  pub login : Text → Text → String → Text → ℕ → Exec Error (Database Num) LoginResult
  unfolding login_as
  login username password id token now =
      login_as password id token now (normalize_username u username)

  -- The code of Authenticate after the session was read.
  check_session : ℕ → Option SessionWithUser → Exec Error (Database Num) User
  unfolding user_is_active idle_too_long
  check_session now none db = (err unauthenticated, db)
  check_session now (some r) db =
      if is_some r.session.revoked_at || not (user_is_active r.user.status)
      then (err unauthenticated, db)
      else if not (before now r.session.expires_at) || idle_too_long now r.session.last_seen_at
      then (
        err unauthenticated,
        call_quietly (faults 1) (revoke_session r.session.token_hash now) db,
      )
      else if elapsed now r.session.last_seen_at session_touch_interval
      then (do call (faults 1) store_failed (touch_session r.session.id now); pure r.user) db
      else (ok r.user, db)

  -- Authenticate
  pub authenticate : Text → ℕ → Exec Error (Database Num) User
  unfolding check_session
  authenticate token now = if token == [] then raise unauthenticated else do
    found ← call (faults 0) store_failed (find_session_by_token_hash (hash_token token))
    check_session now found

  -- Logout
  pub logout : Text → ℕ → Exec Error (Database Num) (Unit {0})
  logout token now =
      if token == []
      then pure tt
      else call (faults 0) store_failed (revoke_session (hash_token token) now)
