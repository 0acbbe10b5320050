-- ===== src/Http/Sessions.antt =====
-- The sessions of operators: internal/httpserver/auth.go, with the cookies of auth_security.go. Random values
-- are arguments.
pub mod LogIn
use wildman_service.Base.{
  ℕ, String, Bool, true, false, not, Option, none, some, List, [], ◌∷◌, if◌then◌else◌, Result,
  Faults, int_eq, string_eq, nat_eq, list_eq, Text, ok, err,
}
use wildman_service.Auth.{User, UserStatus}
use wildman_service.Auth.Service as Auth
use wildman_service.Limiter.{allow_login}
use wildman_service.Http.{
  Request, reply, refuse, retry_after, set_cookie, Handler, write_api_error,
  write_internal_api_error, write_json, on_database,
}
use wildman_service.Http.Guards.{request_csrf_valid, session_token}
use wildman_service.Http.Operators.{Operators}

-- userResponse
pub record UserResponse : Type 0 where
  pub id : String
  pub username : Text
  pub status : UserStatus

-- loginResponse; the token is left out where it is empty.
pub record LoginResponse : Type 0 where
  pub user : UserResponse
  pub csrf_token : Text

-- setupAdminRequest, loginRequest
pub record Credentials : Type 0 where
  pub username : Text
  pub password : Text

-- toUserResponse
unfoldable pub to_user_response : User → UserResponse
to_user_response user = record { id = user.id; username = user.username; status = user.status }

-- loginLimitKey. `split_host` is the host of net.SplitHostPort.
unfoldable pub login_limit_key : (Text → Option Text) → Request → Text
login_limit_key split_host r = elim (split_host r.remote_addr) [
  | none ↦ r.remote_addr
  | some host ↦ host
]

module _ {Num : Type 0} (o : Operators) (faults : Faults) (now : ℕ) (r : Request) where
  after_status : Result Auth.Error Bool → Handler Num Bool
  after_status (ok required) = write_json 200 required
  after_status (err _) = write_internal_api_error

  -- GET /setup/status
  unfoldable pub get_setup_status : Handler Num Bool
  unfolding after_status
  get_setup_status =
      on_database (Auth.setup_status o.unicode o.id_key o.hash_token o.dummy_password_hash faults)
        after_status

  after_setup : Result Auth.Error User → Handler Num UserResponse
  unfolding to_user_response
  after_setup (ok user) = write_json 201 (to_user_response user)
  after_setup (err Auth.setup_complete) = write_api_error 409 "SETUP_ALREADY_COMPLETE"
  after_setup (err Auth.invalid_username) = write_api_error 422 "INVALID_USERNAME"
  after_setup (err Auth.invalid_password) = write_api_error 422 "INVALID_PASSWORD"
  after_setup (err _) = write_internal_api_error

  -- POST /setup/admin
  unfoldable pub post_setup_admin : String → List ℕ → Option Credentials → Handler Num UserResponse
  unfolding after_setup
  post_setup_admin id salt none = write_api_error 400 "INVALID_REQUEST_BODY"
  post_setup_admin id salt (some input) =
      on_database
        (Auth.initial_admin o.unicode o.id_key o.hash_token o.dummy_password_hash faults
          input.username input.password id salt now)
        after_setup

  after_login : Text → Result Auth.Error Auth.LoginResult → Handler Num LoginResponse
  unfolding to_user_response
  after_login csrf_token (ok result) = λ s. (
    reply 200 (record { user = to_user_response result.user; csrf_token = csrf_token })
        (set_cookie "wildman_session" result.token result.expires_at
          ∷ set_cookie "wildman_csrf" csrf_token result.expires_at
          ∷ []),
    s,
  )
  after_login csrf_token (err Auth.invalid_credentials) = write_api_error 401 "INVALID_CREDENTIALS"
  after_login csrf_token (err _) = write_internal_api_error

  login_with : String → Text → Text → Option Credentials → Handler Num LoginResponse
  unfolding after_login
  login_with id token csrf_token none = write_api_error 400 "INVALID_REQUEST_BODY"
  login_with id token csrf_token (some input) =
      on_database
        (Auth.login o.unicode o.id_key o.hash_token o.dummy_password_hash faults input.username
          input.password id token now)
        (after_login csrf_token)

  limited_login : Handler Num LoginResponse → Bool → Handler Num LoginResponse
  limited_login next true = next
  limited_login next false = λ s. (refuse 429 "LOGIN_RATE_LIMITED" (retry_after 60 ∷ []), s)

  -- POST /auth/login. `spell` makes the limiter's key.
  unfoldable pub post_login :
      (Text → Option Text)
      → (Text → String)
      → String
      → Text
      → Text
      → Option Credentials
      → Handler Num LoginResponse
  unfolding login_with limited_login login_limit_key
  post_login split_host spell id token csrf_token body s =
      let (allowed, limiter) =
        allow_login (spell (login_limit_key split_host r)) now s.login_limiter in
      limited_login (login_with id token csrf_token body) allowed
        (record s { login_limiter = limiter })

  after_logout : Result Auth.Error (Unit {0}) → Handler Num (Unit {0})
  after_logout (ok _) = λ s.
      (reply 200 tt (set_cookie "wildman_session" [] 0 ∷ set_cookie "wildman_csrf" [] 0 ∷ []), s)
  after_logout (err _) = write_internal_api_error

  -- POST /auth/logout
  unfoldable pub post_logout : Handler Num (Unit {0})
  unfolding request_csrf_valid session_token after_logout
  post_logout =
      if not (request_csrf_valid r)
      then write_api_error 403 "CSRF_TOKEN_INVALID"
      else on_database
          (Auth.logout o.unicode o.id_key o.hash_token o.dummy_password_hash faults
            (session_token r) now)
          after_logout

  after_me : Result Auth.Error User → Handler Num LoginResponse
  unfolding to_user_response
  after_me (ok user) = write_json 200 (record { user = to_user_response user; csrf_token = [] })
  after_me (err Auth.unauthenticated) = write_api_error 401 "AUTHENTICATION_REQUIRED"
  after_me (err _) = write_internal_api_error

  -- GET /auth/me
  unfoldable pub get_me : Handler Num LoginResponse
  unfolding session_token after_me
  get_me =
      on_database
        (Auth.authenticate o.unicode o.id_key o.hash_token o.dummy_password_hash faults
          (session_token r) now)
        after_me
