-- ===== src/Account/Service.antt =====
-- The account service: internal/app/account/service.go. Random values and the clock are arguments.
pub mod Charges
pub mod Devices
pub mod Tests
use wildman_service.Base.{
  ℕ, ◌+◌, ◌*◌, String, Bool, not, ◌||◌, Option, none, some, List, [], ◌++◌, ltb, if◌then◌else◌,
  Exec, pure, raise, lift, ◌>>=◌, ◌>>◌, Faults, call, length, ℤ, ltb_ℤ, int_eq, ◌==◌, nat_eq,
  string_eq, list_eq, Text, has_prefix, trim_space, pos,
}
use wildman_service.Time.{minute, hour}
use wildman_service.Base64.{url, encode}
use wildman_service.Unicode.{Unicode, to_lower, to_upper}
use wildman_service.Auth.Password.{PasswordError, validate_password, hash_password, verify_password}
use wildman_service.Client
use wildman_service.Client.Token.{TokenError, IssuedToken, issue_token}
use wildman_service.Account.{
  Account, Session, Subscription, DeviceAuthorization, DeviceStatus, pending, approved, consumed,
  account_is_active, active,
}
use wildman_service.Account.Store.{
  create_account, find_account_by_email, create_account_session, find_account_by_session_hash,
  update_subscription as store_subscription,
}
use wildman_service.Account.Devices.{
  create_device_authorization, approve_device_authorization, consume_device_authorization,
}
use wildman_service.Account.Quota.{consume_resolution_quota}
use wildman_service.Database.{Database}
use wildman_service.Account.Support.{
  Error, free_monthly_quota, session_marker, device_marker, Environment, normalize_email,
  base32_digit, base32_encode, or_fail, or_error, new_session, free_subscription, hash_of,
  DeviceStart, FiveBytes, plan_known, subscription_status_known, invalid_email, invalid_password,
  email_exists, invalid_credentials, authentication_required, device_code_invalid,
  device_authorization_pending, device_authorization_consumed, quota_exceeded, subscription_invalid,
  token_not_issued, store_failed,
}

module _ {Num : Type 0} (env : Environment) (faults : Faults) where
  -- Register: the account and the token of its first session.
  pub register :
      Text
      → Text
      → String
      → String
      → List ℕ
      → List ℕ
      → ℕ
      → Exec Error (Database Num) (Account × Text)
  unfolding or_fail or_error new_session free_subscription
  register email password id session_id salt random now = do
    address ← lift (or_fail invalid_email (normalize_email env email))
    lift (or_error invalid_password (validate_password password))
    let account : Account = record {
      id = id;
      email = address;
      password_hash = hash_password env.id_key password salt;
      status = active;
      created_at = now;
      updated_at = now;
    }
    let (session, token) = new_session env session_id id random now
    created ←
        call (faults 0) store_failed (create_account account (free_subscription id now) session)
    if created then pure (account, token) else raise email_exists

  -- The code of Login after the password was checked.
  open_session :
      Bool → Option Account → String → List ℕ → ℕ → Exec Error (Database Num) (Account × Text)
  unfolding new_session account_is_active
  open_session matches none session_id random now = raise invalid_credentials
  open_session matches (some account) session_id random now =
      if not matches || not (account_is_active account.status)
      then raise invalid_credentials
      else do
        let (session, token) = new_session env session_id account.id random now
        call (faults 1) store_failed (create_account_session session)
        pure (account, token)

  -- Login. Of an email that is not found the stored hash is the dummy; the model refuses it whether or
  -- not the password fits the dummy, since the empty account of the code is not active.
  pub login : Text → Text → String → List ℕ → ℕ → Exec Error (Database Num) (Account × Text)
  unfolding or_fail or_error open_session hash_of
  login email password session_id random now = do
    address ← lift (or_fail invalid_credentials (normalize_email env email))
    found ← call (faults 0) store_failed (find_account_by_email address)
    matches ←
        lift
          (or_error invalid_credentials (verify_password env.id_key password (hash_of env found)))
    open_session matches found session_id random now

  active_account : Option Account → Exec Error (Database Num) Account
  unfolding account_is_active
  active_account none = raise authentication_required
  active_account (some account) =
      if account_is_active account.status then pure account else raise authentication_required

  -- Authenticate
  pub authenticate : Text → ℕ → Exec Error (Database Num) Account
  unfolding active_account
  authenticate token now =
      if not (has_prefix token session_marker) then raise authentication_required else do
        found ←
            call (faults 0) store_failed
              (find_account_by_session_hash env.text_lt (env.digest token) now)
        active_account found

  -- StartDeviceAuthorization
  pub start_device_authorization :
      Text → String → List ℕ → FiveBytes → ℕ → Exec Error (Database Num) DeviceStart
  unfolding base32_encode
  start_device_authorization client_name id random r now =
      let name = trim_space client_name in
      if name == [] || ltb 100 (length name) then raise device_code_invalid else do
        let device_code = device_marker ++ encode url random
        let user_code = to_upper env.unicode (base32_encode r.a r.b r.c r.d r.e)
        let authorization : DeviceAuthorization = record {
          id = id;
          device_code_hash = env.digest device_code;
          user_code_hash = env.digest user_code;
          client_name = name;
          status = pending;
          account_id = none;
          expires_at = now + 10 * minute;
          approved_at = none;
          consumed_at = none;
          created_at = now;
        }
        call (faults 0) store_failed (create_device_authorization authorization)
        pure (record {
          device_code = device_code;
          user_code = user_code;
          expires_in = 600;
          interval = 5;
        })

  -- ApproveDevice
  pub approve_device : String → Text → ℕ → Exec Error (Database Num) (Unit {0})
  approve_device account_id user_code now = do
    done ← call (faults 0) store_failed (
        approve_device_authorization env.text_lt
          (env.digest (to_upper env.unicode (trim_space user_code))) account_id now)
    if done then pure tt else raise device_code_invalid

  answer_poll : Text → Option DeviceStatus → Exec Error (Database Num) Text
  answer_poll token none = raise device_code_invalid
  answer_poll token (some pending) = raise device_authorization_pending
  answer_poll token (some consumed) = raise device_authorization_consumed
  answer_poll token (some approved) = pure token

  -- PollDevice, from the random bytes of the token.
  pub poll_device : Text → String → List ℕ → List ℕ → ℕ → Exec Error (Database Num) Text
  unfolding or_error answer_poll
  poll_device device_code id prefix_random secret_random now =
      if not (has_prefix device_code device_marker) then raise device_code_invalid else do
        issued ←
            lift (or_error token_not_issued (issue_token env.digest prefix_random secret_random))
        let installation : Client.Installation = record {
          id = id;
          name = [];
          token_prefix = issued.prefix;
          token_hash = issued.hash;
          status = Client.active;
          created_by_user_id = "";
          account_id = none;
          last_seen_at = none;
          revoked_at = none;
          created_at = now;
        }
        found ←
            call (faults 0) store_failed
              (consume_device_authorization env.text_lt (env.digest device_code) installation now)
        answer_poll issued.value found

  -- ConsumeQuota
  unfoldable pub consume_quota : String → String → ℕ → Exec Error (Database Num) (Unit {0})
  consume_quota client_id idempotency_key now = do
    allowed ←
        call (faults 0) store_failed
          (consume_resolution_quota client_id idempotency_key (env.month_of now) now)
    if allowed then pure tt else raise quota_exceeded

  -- UpdateSubscription
  pub update_subscription :
      String → String → String → ℤ → String → ℕ → Exec Error (Database Num) (Unit {0})
  unfolding plan_known subscription_status_known
  update_subscription account_id plan status quota actor now =
      if not (plan_known plan) || not (subscription_status_known status) || ltb_ℤ quota (pos 0)
      then raise subscription_invalid
      else do
        found ←
            call (faults 0) store_failed (store_subscription account_id plan status quota actor now)
        if found then pure tt else raise subscription_invalid
