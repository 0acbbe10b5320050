-- ===== src/Auth.antt =====
-- Operators and their sessions: internal/domain/auth.
pub mod Password
pub mod Username
pub mod Store
pub mod Service
use wildman_service.Base.{
  ℕ, String, Bool, true, false, Option, int_eq, nat_eq, string_eq, list_eq, Text,
}

-- The column `status` is 'active' or 'disabled'.
pub data UserStatus : Type 0 where
  active disabled : UserStatus

pub record User : Type 0 where
  pub id : String
  pub username : Text
  pub password_hash : Text
  pub status : UserStatus
  pub created_at : ℕ
  pub updated_at : ℕ

pub record Session : Type 0 where
  pub id : String
  pub user_id : String
  pub token_hash : String
  pub expires_at : ℕ
  pub last_seen_at : ℕ
  pub revoked_at : Option ℕ
  pub created_at : ℕ

user_is_active : UserStatus → Bool
user_is_active active = true
user_is_active disabled = false
