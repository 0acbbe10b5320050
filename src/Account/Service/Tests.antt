-- ===== src/Account/Service/Tests.antt =====
-- One account with a quota of two, and one approved device, with the theorems at them.
use wildman_service.Base.{
  ℕ, ◌≡◌, refl, ◌≢◌, ◌⊎◌, true, none, some, [], ◌∷◌, arith, ltb, first_where, exists_where,
  count_where, int_eq, string_eq, nat_eq, list_beq, list_eq, codes, ok, pos,
}
use wildman_service.Account.{
  Subscription, DeviceAuthorization, approved, consumed, device_status_beq,
}
use wildman_service.Account.Quota.{count_usage, consume_with, consume_for, consume_resolution_quota}
use wildman_service.Account.Quota.Bounds.{WithinQuota, consume-WithinQuota}
use wildman_service.Account.Devices.{
  earliest_user, consume_approved, consume_found, consume_device_authorization,
}
use wildman_service.Account.Devices.Once.{consume_once}
use wildman_service.Auth
use wildman_service.Client
use wildman_service.Client.Store.{insertable}
use wildman_service.Database.{Database, empty, insert_audit_event}

abbrev operator : Auth.User
operator = record {
  id = "u";
  username = codes "admin";
  password_hash = [];
  status = Auth.active;
  created_at = 1;
  updated_at = 1;
}

abbrev pub nas : Client.Installation
nas = record {
  id = "c1";
  name = codes "NAS";
  token_prefix = [];
  token_hash = "h";
  status = Client.active;
  created_by_user_id = "u";
  account_id = some "a";
  last_seen_at = none;
  revoked_at = none;
  created_at = 5;
}

abbrev pub plan : Subscription
plan = record {
  account_id = "a";
  plan = "free";
  status = "active";
  monthly_quota = pos 2;
  updated_at = 1;
}

abbrev device : DeviceAuthorization
device = record {
  id = "d";
  device_code_hash = "code";
  user_code_hash = "user";
  client_name = codes "TV";
  status = approved;
  account_id = some "a";
  expires_at = 100;
  approved_at = some 3;
  consumed_at = none;
  created_at = 2;
}

abbrev pub db : Database ℕ
db = record empty {
  users = operator ∷ [];
  clients = nas ∷ [];
  subscriptions = plan ∷ [];
  devices = device ∷ [];
}

-- The installation that the device asks for.
abbrev television : Client.Installation
television = record {
  id = "c2";
  name = [];
  token_prefix = codes "p";
  token_hash = "h2";
  status = Client.active;
  created_by_user_id = "";
  account_id = none;
  last_seen_at = none;
  revoked_at = none;
  created_at = 50;
}

db-WithinQuota : WithinQuota "a" "2024-01" (pos 2) db
unfolding first_where count_where
db-WithinQuota = record { quota = refl; counted = refl; bounded = omega arith }

consume-WithinQuota_example :
    WithinQuota "a" "2024-01" (pos 2) (consume_resolution_quota "c1" "k" "2024-01" 5 db).1
consume-WithinQuota_example =
    consume-WithinQuota "c1" "k" "2024-01" 5 "a" "2024-01" (pos 2) db db-WithinQuota

allowed : (consume_resolution_quota "c1" "k" "2024-01" 5 db).0 ≡ ok true
unfolding consume_resolution_quota consume_for consume_with count_usage exists_where first_where
allowed = refl

missing_client : (consume_resolution_quota "c9" "k" "2024-01" 5 db).0 ≢ ok true
unfolding consume_resolution_quota consume_for first_where
missing_client h = absurd (ground (arith, h))

authorized : (consume_device_authorization ltb "code" television 50 db).0 ≡ ok (some approved)
unfolding consume_device_authorization consume_found consume_approved device_status_beq
    earliest_user insertable insert_audit_event exists_where first_where list_beq
authorized = refl

consume_once_example :
    let after = (consume_device_authorization ltb "code" television 50 db).1 in
    let again = consume_device_authorization ltb "code" television 60 after in
    ((again.0 ≡ ok (some consumed)) ⊎ (again.0 ≡ ok none)) × (again.1 ≡ after)
consume_once_example = consume_once ltb "code" television television 50 60 db authorized
