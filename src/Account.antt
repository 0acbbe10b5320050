-- ===== src/Account.antt =====
-- Customer accounts, subscriptions and device authorizations: internal/domain/account.
pub mod Store
pub mod Devices
pub mod Quota
pub mod Support
pub mod Service
use wildman_service.Base.{
  ℕ, String, Bool, true, false, Option, ℤ, int_eq, nat_eq, string_eq, list_eq, Text,
}

-- The column `status` of customer_accounts is 'active' or 'disabled'.
pub data AccountStatus : Type 0 where
  active disabled : AccountStatus

account_is_active : AccountStatus → Bool
account_is_active active = true
account_is_active disabled = false

pub record Account : Type 0 where
  pub id : String
  pub email : Text
  pub password_hash : Text
  pub status : AccountStatus
  pub created_at : ℕ
  pub updated_at : ℕ

pub record Session : Type 0 where
  pub id : String
  pub account_id : String
  pub token_hash : String
  pub expires_at : ℕ
  pub created_at : ℕ

-- The quota is an int64 and may be negative before it is validated.
pub record Subscription : Type 0 where
  pub account_id : String
  pub plan : String
  pub status : String
  pub monthly_quota : ℤ
  pub updated_at : ℕ

-- The column `status` of device_authorizations is 'pending', 'approved' or 'consumed'.
pub data DeviceStatus : Type 0 where
  pending approved consumed : DeviceStatus

device_status_beq : DeviceStatus → DeviceStatus → Bool
device_status_beq pending pending = true
device_status_beq approved approved = true
device_status_beq consumed consumed = true
device_status_beq _ _ = false

pub record DeviceAuthorization : Type 0 where
  pub id : String
  pub device_code_hash : String
  pub user_code_hash : String
  pub client_name : Text
  pub status : DeviceStatus
  pub account_id : Option String
  pub expires_at : ℕ
  pub approved_at : Option ℕ
  pub consumed_at : Option ℕ
  pub created_at : ℕ
