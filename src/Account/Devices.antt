-- ===== src/Account/Devices.antt =====
-- Device authorizations in AccountStore: internal/infra/database/account_store.go. `text_lt` is the
-- order in which the database compares two times that are stored as text.
pub mod Once
use wildman_service.Base.{
  ℕ, String, Bool, not, ◌&&◌, ◌||◌, Option, none, some, List, [], ◌∷◌, ◌++◌, if◌then◌else◌, Exec,
  StoreError, first_where, exists_where, update_where, count_where, int_eq, ◌==◌, nat_eq, string_eq,
  list_eq, ok, err, constraint_violation, row_missing,
}
use wildman_service.Time.{before}
use wildman_service.Auth
use wildman_service.Account.{
  DeviceAuthorization, DeviceStatus, pending, approved, consumed, device_status_beq,
}
use wildman_service.Client
use wildman_service.Client.Store.{insertable}
use wildman_service.Database.{Database, insert_audit_event}

unfoldable pub approve_row : String → ℕ → DeviceAuthorization → DeviceAuthorization
approve_row account_id now d = record d {
  status = approved;
  account_id = some account_id;
  approved_at = some now;
}

unfoldable pub consume_row : ℕ → DeviceAuthorization → DeviceAuthorization
consume_row now d = record d { status = consumed; consumed_at = some now }

-- The WHERE clause of an approval.
unfoldable pub approvable : (ℕ → ℕ → Bool) → String → ℕ → DeviceAuthorization → Bool
unfolding device_status_beq
approvable text_lt user_code_hash now d =
    d.user_code_hash == user_code_hash
    && device_status_beq d.status pending
    && text_lt now d.expires_at

-- The WHERE clause of the update that consumes an authorization.
unfoldable pub consumable : String → DeviceAuthorization → Bool
unfolding device_status_beq
consumable device_code_hash d =
    d.device_code_hash == device_code_hash && device_status_beq d.status approved

-- `ORDER BY created_at LIMIT 1`: the first of the users that the text order puts first.
unfoldable pub earliest_user : (ℕ → ℕ → Bool) → List Auth.User → Option Auth.User
earliest_user text_lt [] = none
earliest_user text_lt (v ∷ vs) = some (earlier v (earliest_user text_lt vs))
  where
    earlier : Auth.User → Option Auth.User → Auth.User
    earlier v none = v
    earlier v (some w) = if text_lt w.created_at v.created_at then w else v

-- The installation that a consumed authorization creates.
unfoldable pub authorized_installation :
    DeviceAuthorization → Auth.User → Client.Installation → Client.Installation
authorized_installation d operator i = record i {
  name = d.client_name;
  account_id = d.account_id;
  created_by_user_id = operator.id;
}

module _ {Num : Type 0} where
  -- CreateDeviceAuthorization
  unfoldable pub create_device_authorization :
      DeviceAuthorization → Exec StoreError (Database Num) (Unit {0})
  create_device_authorization d db =
      if exists_where
        (λ e.
          e.id == d.id
          || e.device_code_hash == d.device_code_hash
          || e.user_code_hash == d.user_code_hash)
        db.devices
      then (err constraint_violation, db)
      else (ok tt, record db { devices = db.devices ++ (d ∷ []) })

  -- ApproveDeviceAuthorization
  unfoldable pub approve_device_authorization :
      (ℕ → ℕ → Bool) → String → String → ℕ → Exec StoreError (Database Num) Bool
  unfolding approvable approve_row
  approve_device_authorization text_lt user_code_hash account_id now db = (
    ok (count_where (approvable text_lt user_code_hash now) db.devices == 1),
    record db {
      devices =
          update_where (approvable text_lt user_code_hash now) (approve_row account_id now)
            db.devices;
    },
  )

  -- The end of ConsumeDeviceAuthorization, for an approved row.
  unfoldable pub consume_approved :
      String
      → DeviceAuthorization
      → Client.Installation
      → ℕ
      → Option Auth.User
      → Exec StoreError (Database Num) (Option DeviceStatus)
  unfolding insert_audit_event insertable consumable consume_row authorized_installation
  consume_approved device_code_hash d i now none db = (err row_missing, db)
  consume_approved device_code_hash d i now (some operator) db =
      let installation = authorized_installation d operator i in
      if not (insertable installation db) then (err constraint_violation, db) else (
        ok (some approved),
        insert_audit_event "" "device.authorized" "client" installation.id now (record db {
          clients = db.clients ++ (installation ∷ []);
          devices = update_where (consumable device_code_hash) (consume_row now) db.devices;
        }),
      )

  -- The code after the row was read.
  unfoldable pub consume_found :
      (ℕ → ℕ → Bool)
      → String
      → Client.Installation
      → ℕ
      → Option DeviceAuthorization
      → Exec StoreError (Database Num) (Option DeviceStatus)
  unfolding consume_approved device_status_beq earliest_user
  consume_found text_lt device_code_hash i now none db = (ok none, db)
  consume_found text_lt device_code_hash i now (some d) db =
      if not (before now d.expires_at)
      then (ok none, db)
      else if not (device_status_beq d.status approved)
      then (ok (some d.status), db)
      else consume_approved device_code_hash d i now (earliest_user text_lt db.users) db

  -- ConsumeDeviceAuthorization: the status that was found, or `none`.
  unfoldable pub consume_device_authorization :
      (ℕ → ℕ → Bool)
      → String
      → Client.Installation
      → ℕ
      → Exec StoreError (Database Num) (Option DeviceStatus)
  unfolding consume_found
  consume_device_authorization text_lt device_code_hash i now db =
      consume_found text_lt device_code_hash i now
        (first_where (λ d. d.device_code_hash == device_code_hash) db.devices) db
