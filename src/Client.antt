-- ===== src/Client.antt =====
-- Client installations: internal/domain/client, internal/app/client/service.go and the methods of
-- `ClientStore` (internal/infra/database/client_store.go).
pub mod Token
pub mod Store
pub mod Service
use wildman_service.Base.{
  ℕ, String, Bool, true, false, not, ◌&&◌, Option, some, if◌then◌else◌, is_some, int_eq, nat_eq,
  string_eq, list_eq, Text,
}

pub data InstallationStatus : Type 0 where
  active revoked : InstallationStatus

unfoldable pub status_beq : InstallationStatus → InstallationStatus → Bool
status_beq active active = true
status_beq revoked revoked = true
status_beq _ _ = false

-- ClientInstallation. A missing account id is the empty string in Go and NULL in the table.
pub record Installation : Type 0 where
  pub id : String
  pub name : Text
  pub token_prefix : Text
  pub token_hash : String
  pub status : InstallationStatus
  pub created_by_user_id : String
  pub account_id : Option String
  pub last_seen_at : Option ℕ
  pub revoked_at : Option ℕ
  pub created_at : ℕ

-- ClientInstallation.IsActive
unfoldable pub is_active : Installation → Bool
unfolding status_beq
is_active i = status_beq i.status active && not (is_some i.revoked_at)

-- ClientInstallation.Revoke, which changes the value in place and says whether it did.
unfoldable revoke : ℕ → Installation → Bool × Installation
unfolding is_active
revoke at i =
    if not (is_active i)
    then (false, i)
    else (true, record i { status = revoked; revoked_at = some at })
