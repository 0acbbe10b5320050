-- ===== src/Account/Support.antt =====
-- The parts of the account service that do not touch the database: internal/app/account/service.go.
-- `parse_address` is the address of net/mail.ParseAddress, `month_of` the format "2006-01" of a time,
-- `digest` SHA-256 with its encoding.
use wildman_service.Base.{
  ℕ, ◌+◌, ◌*◌, ◌/◌, ◌%◌, String, Bool, not, ◌||◌, Option, none, some, List, [], ◌∷◌, ◌++◌, ltb,
  if◌then◌else◌, Result, int_eq, ◌==◌, nat_eq, string_eq, list_eq, Text, codes, byte_length,
  trim_space, ok, err, pos,
}
use wildman_service.Time.{hour}
use wildman_service.Base64.{url, encode}
use wildman_service.Unicode.{Unicode, to_lower}
use wildman_service.Account.{Account, Session, Subscription}

pub data Error : Type 0 where
  invalid_email invalid_password email_exists invalid_credentials authentication_required : Error
  device_code_invalid device_authorization_pending device_authorization_consumed : Error
  quota_exceeded subscription_invalid token_not_issued store_failed : Error

abbrev pub free_monthly_quota : ℕ
free_monthly_quota = 1000

abbrev pub session_marker : Text
session_marker = codes "wa_session_"

abbrev pub device_marker : Text
device_marker = codes "wd_device_"

-- What the package takes from elsewhere.
pub record Environment : Type 0 where
  pub unicode : Unicode
  pub parse_address : Text → Option Text
  pub month_of : ℕ → String
  pub digest : Text → String
  pub id_key : Text → List ℕ → ℕ → ℕ → ℕ → ℕ → List ℕ
  pub dummy_password_hash : Text
  -- how the database orders two times that are stored as text
  pub text_lt : ℕ → ℕ → Bool

-- normalizeEmail
unfoldable pub normalize_email : Environment → Text → Option Text
unfolding byte_length
normalize_email env value =
    let lowered = to_lower env.unicode (trim_space value) in
    elim (env.parse_address lowered) [
      | none ↦ none
      | some address ↦
          if not (address == lowered) || ltb 254 (byte_length lowered) then none else some lowered
    ]

-- One digit of the standard alphabet of base 32.
unfoldable pub base32_digit : ℕ → ℕ
base32_digit n = if ltb n 26 then 65 + n else 24 + n

-- The eight digits of five bytes.
unfoldable pub base32_encode : ℕ → ℕ → ℕ → ℕ → ℕ → Text
unfolding base32_digit
base32_encode a b c d e =
    base32_digit (a / 8)
    ∷ base32_digit (a % 8 * 4 + b / 64)
    ∷ base32_digit (b / 2 % 32)
    ∷ base32_digit (b % 2 * 16 + c / 16)
    ∷ base32_digit (c % 16 * 2 + d / 128)
    ∷ base32_digit (d / 4 % 32)
    ∷ base32_digit (d % 4 * 8 + e / 32)
    ∷ base32_digit (e % 32)
    ∷ []

unfoldable pub or_fail : {E A : Type 0} → E → Option A → Result E A
or_fail e none = err e
or_fail e (some a) = ok a

unfoldable pub or_error : {E F A : Type 0} → F → Result E A → Result F A
or_error e (ok a) = ok a
or_error e (err _) = err e

-- newSession: the session and its token, from the random bytes of the token.
unfoldable pub new_session : Environment → String → String → List ℕ → ℕ → Session × Text
new_session env id account_id random now =
    let token = session_marker ++ encode url random in
    (
      record {
        id = id;
        account_id = account_id;
        token_hash = env.digest token;
        expires_at = now + 24 * hour;
        created_at = now;
      },
      token,
    )

unfoldable pub free_subscription : String → ℕ → Subscription
free_subscription account_id now = record {
  account_id = account_id;
  plan = "free";
  status = "active";
  monthly_quota = pos free_monthly_quota;
  updated_at = now;
}

unfoldable pub hash_of : Environment → Option Account → Text
hash_of env none = env.dummy_password_hash
hash_of env (some a) = a.password_hash

pub record DeviceStart : Type 0 where
  pub device_code : Text
  pub user_code : Text
  pub expires_in : ℕ
  pub interval : ℕ

-- The five random bytes of a user code.
pub record FiveBytes : Type 0 where
  pub a : ℕ
  pub b : ℕ
  pub c : ℕ
  pub d : ℕ
  pub e : ℕ

unfoldable pub plan_known : String → Bool
plan_known plan = plan == "free" || plan == "pro"

unfoldable pub subscription_status_known : String → Bool
subscription_status_known status =
    status == "active" || status == "past_due" || status == "canceled"
