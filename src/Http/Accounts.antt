-- ===== src/Http/Accounts.antt =====
-- Customer accounts and devices: internal/httpserver/accounts.go. The limiter is shared by the log-in, the
-- registration and the start of a device authorization. Random values are arguments.
use wildman_service.Base.{
  ℕ, String, Bool, true, false, Option, none, some, List, [], ◌∷◌, if◌then◌else◌, Result, Faults,
  int_eq, string_eq, nat_eq, list_eq, Text, ok, err,
}
use wildman_service.Account.{Account}
use wildman_service.Account.Support.{Environment, DeviceStart, FiveBytes}
use wildman_service.Account.Support as Support
use wildman_service.Account.Service as Service
use wildman_service.Limiter.{allow_login}
use wildman_service.Http.{
  Request, refuse, Header, retry_after, Handler, write_api_error, write_internal_api_error,
  write_json, on_database,
}
use wildman_service.Http.Guards.{request_bearer_token}
use wildman_service.Http.Sessions.{login_limit_key}

-- accountCredentialsRequest
pub record Credentials : Type 0 where
  pub email : Text
  pub password : Text

-- accountAuthenticationResponse
pub record AuthenticationResponse : Type 0 where
  pub account_id : String
  pub email : Text
  pub token : Text

-- What a registration or a log-in draws: ids, a salt and random bytes.
pub record Drawn : Type 0 where
  pub id : String
  pub session_id : String
  pub salt : List ℕ
  pub random : List ℕ

module _ {Num : Type 0} (env : Environment) (faults : Faults) (now : ℕ) (r : Request) where
  module _ {A : Type 0} where
    after_account : (String → Handler Num A) → Result Support.Error Account → Handler Num A
    after_account next (ok account) = next account.id
    after_account next (err _) = write_api_error 401 "ACCOUNT_AUTH_REQUIRED"

    with_account_token : (String → Handler Num A) → Option Text → Handler Num A
    unfolding after_account
    with_account_token next none = write_api_error 401 "ACCOUNT_AUTH_REQUIRED"
    with_account_token next (some token) =
        on_database (Service.authenticate env faults token now) (after_account next)

    -- The closure `authenticate`, with what the handler does with the id of the account.
    unfoldable pub authenticate_account : (ℕ → ℕ) → (String → Handler Num A) → Handler Num A
    unfolding with_account_token request_bearer_token
    authenticate_account fold next = with_account_token next (request_bearer_token fold r)

    limited : List Header → Handler Num A → Bool → Handler Num A
    limited headers next true = next
    limited headers next false = λ s. (refuse 429 "ACCOUNT_RATE_LIMITED" headers, s)

    -- `limiter.Allow(loginLimitKey(r))`
    unfoldable pub with_limiter :
        (Text → Option Text) → (Text → String) → List Header → Handler Num A → Handler Num A
    unfolding limited login_limit_key
    with_limiter split_host spell headers next s =
        let (allowed, limiter) =
          allow_login (spell (login_limit_key split_host r)) now s.account_limiter in
        limited headers next allowed (record s { account_limiter = limiter })

  after_credentials :
      Bool → Result Support.Error (Account × Text) → Handler Num AuthenticationResponse
  after_credentials registers (ok (account, token)) =
      write_json (if registers then 201 else 200)
        (record { account_id = account.id; email = account.email; token = token })
  after_credentials registers (err Support.invalid_email) =
      write_api_error 422 "ACCOUNT_INPUT_INVALID"
  after_credentials registers (err Support.invalid_password) =
      write_api_error 422 "ACCOUNT_INPUT_INVALID"
  after_credentials registers (err Support.email_exists) =
      write_api_error 409 "ACCOUNT_EMAIL_EXISTS"
  after_credentials registers (err Support.invalid_credentials) =
      write_api_error 401 "ACCOUNT_CREDENTIALS_INVALID"
  after_credentials registers (err _) = write_internal_api_error

  with_credentials : Bool → Drawn → Option Credentials → Handler Num AuthenticationResponse
  unfolding after_credentials
  with_credentials registers d none = write_api_error 400 "INVALID_REQUEST_BODY"
  with_credentials registers d (some input) =
      on_database
        (if registers
          then Service.register env faults input.email input.password d.id d.session_id d.salt
              d.random now
          else Service.login env faults input.email input.password d.session_id d.random now)
        (after_credentials registers)

  -- handleAuthentication: POST /accounts/register and POST /accounts/login
  unfoldable pub handle_authentication :
      (Text → Option Text)
      → (Text → String)
      → Bool
      → Drawn
      → Option Credentials
      → Handler Num AuthenticationResponse
  unfolding with_limiter with_credentials
  handle_authentication split_host spell registers d body =
      with_limiter split_host spell (retry_after 60 ∷ []) (with_credentials registers d body)

  after_start : Result Support.Error DeviceStart → Handler Num DeviceStart
  after_start (ok started) = write_json 201 started
  after_start (err _) = write_api_error 422 "DEVICE_AUTH_INVALID"

  start_with : String → List ℕ → FiveBytes → Option Text → Handler Num DeviceStart
  unfolding after_start
  start_with id random code none = write_api_error 400 "INVALID_REQUEST_BODY"
  start_with id random code (some client_name) =
      on_database (Service.start_device_authorization env faults client_name id random code now)
        after_start

  -- POST /device/authorizations; the refusal of the limiter has no Retry-After.
  unfoldable pub post_device_authorization :
      (Text → Option Text)
      → (Text → String)
      → String
      → List ℕ
      → FiveBytes
      → Option Text
      → Handler Num DeviceStart
  unfolding with_limiter start_with
  post_device_authorization split_host spell id random code body =
      with_limiter split_host spell [] (start_with id random code body)

  after_approval : Result Support.Error (Unit {0}) → Handler Num (Unit {0})
  after_approval (ok _) = write_json 200 tt
  after_approval (err _) = write_api_error 422 "DEVICE_AUTH_INVALID"

  approve_with : Faults → String → Option Text → Handler Num (Unit {0})
  unfolding after_approval
  approve_with serving account_id none = write_api_error 400 "INVALID_REQUEST_BODY"
  approve_with serving account_id (some user_code) =
      on_database (Service.approve_device env serving account_id user_code now) after_approval

  -- POST /account/device/approve
  unfoldable pub post_device_approval : (ℕ → ℕ) → Faults → Option Text → Handler Num (Unit {0})
  unfolding authenticate_account approve_with
  post_device_approval fold serving body =
      authenticate_account fold (λ account_id. approve_with serving account_id body)

  after_poll : Result Support.Error Text → Handler Num Text
  after_poll (ok token) = write_json 200 token
  after_poll (err Support.device_authorization_pending) = write_api_error 428 "DEVICE_AUTH_PENDING"
  after_poll (err Support.device_authorization_consumed) =
      write_api_error 410 "DEVICE_AUTH_CONSUMED"
  after_poll (err _) = write_api_error 400 "DEVICE_AUTH_INVALID"

  -- POST /device/token
  unfoldable pub post_device_token : String → List ℕ → List ℕ → Option Text → Handler Num Text
  unfolding after_poll
  post_device_token id prefix_random secret_random none = write_api_error 400 "INVALID_REQUEST_BODY"
  post_device_token id prefix_random secret_random (some device_code) =
      on_database (Service.poll_device env faults device_code id prefix_random secret_random now)
        after_poll
