-- ===== src/Client/Service.antt =====
-- The client service: internal/app/client/service.go. Random bytes, ids and the clock are arguments;
-- `faults` says which calls of the store fail.
pub mod Authentication
pub mod Inserted
pub mod Lifecycle
pub mod Tests
use wildman_service.Base.{
  ℕ, ◌*◌, String, Bool, true, not, ◌||◌, Option, none, some, List, [], ltb, if◌then◌else◌, is_some,
  Result, Exec, pure, raise, lift, ◌>>=◌, ◌>>◌, Faults, call, length, int_eq, ◌==◌, nat_eq,
  string_eq, list_eq, Text, trim_space, ok, err,
}
use wildman_service.Time.{minute, elapsed}
use wildman_service.Client.{
  Installation, InstallationStatus, active, revoked, status_beq, is_active,
}
use wildman_service.Client.Token.{TokenError, IssuedToken, parse_token, digest_token, issue_token}
use wildman_service.Client.Store.{
  create_client_installation, revoke_client_installation, delete_client_installation,
  find_client_installation_by_token, touch_client_installation,
}
use wildman_service.Database.{Database}

pub data Error : Type 0 where
  invalid_installation_name installation_not_found authentication_required : Error
  installation_revoked client_deletion_not_allowed token_not_issued store_failed : Error

abbrev maximum_installation_name_length : ℕ
maximum_installation_name_length = 100

abbrev last_seen_touch_interval : ℕ
last_seen_touch_interval = 5 * minute

-- fmt.Errorf("issue client token: ...")
reissue : {A : Type 0} → Result TokenError A → Result Error A
reissue (ok a) = ok a
reissue (err e) = err token_not_issued

-- `return ErrAuthenticationRequired` on an error of the token.
required : {A : Type 0} → Result TokenError A → Result Error A
required (ok a) = ok a
required (err e) = err authentication_required

new_installation : String → Text → String → ℕ → IssuedToken → Installation
new_installation id name created_by now token = record {
  id = id;
  name = name;
  token_prefix = token.prefix;
  token_hash = token.hash;
  status = active;
  created_by_user_id = created_by;
  account_id = none;
  last_seen_at = none;
  revoked_at = none;
  created_at = now;
}

-- Whether the time of the last use is to be written again.
pub touch_due : ℕ → Option ℕ → Bool
touch_due now none = true
touch_due now (some last) = elapsed now last last_seen_touch_interval

module _ {Num : Type 0} (sha256_base64 : Text → String) (text_lt : ℕ → ℕ → Bool)
    (faults : Faults) where
  -- Create: the installation and its token.
  pub create :
      Text → String → String → List ℕ → List ℕ → ℕ → Exec Error (Database Num) (Installation × Text)
  unfolding new_installation reissue
  create name created_by id prefix_random secret_random now =
      let trimmed = trim_space name in
      if trimmed == [] || ltb maximum_installation_name_length (length trimmed)
      then raise invalid_installation_name
      else do
        token ← lift (reissue (issue_token sha256_base64 prefix_random secret_random))
        let installation = new_installation id trimmed created_by now token
        call (faults 0) store_failed (create_client_installation installation)
        pure (installation, token.value)

  or_not_found : Option Installation → Exec Error (Database Num) Installation
  or_not_found none = raise installation_not_found
  or_not_found (some i) = pure i

  -- Revoke
  pub revoke : String → String → ℕ → Exec Error (Database Num) Installation
  unfolding or_not_found
  revoke id actor now = if id == "" then raise installation_not_found else do
    found ← call (faults 0) store_failed (revoke_client_installation id actor now)
    or_not_found found

  outcome_of_deletion : Bool × Bool → Exec Error (Database Num) (Unit {0})
  outcome_of_deletion (found, deleted) =
      if not found
      then raise installation_not_found
      else if not deleted
      then raise client_deletion_not_allowed
      else pure tt

  -- Delete
  pub delete : String → Text → String → ℕ → Exec Error (Database Num) (Unit {0})
  unfolding outcome_of_deletion
  delete id expected_name actor now = if id == "" then raise installation_not_found else do
    answer ←
        call (faults 0) store_failed
          (delete_client_installation id (trim_space expected_name) actor now)
    outcome_of_deletion answer

  -- The code after the row was read: an active installation is let in, and the time of its last use
  -- is written if it is due.
  pub admit : ℕ → Option Installation → Exec Error (Database Num) Installation
  unfolding is_active status_beq touch_due
  admit now none = raise authentication_required
  admit now (some i) =
      if not (is_active i)
      then (if status_beq i.status revoked || is_some i.revoked_at
          then raise installation_revoked
          else raise authentication_required)
      else if touch_due now i.last_seen_at
      then (do
        still_active ← call (faults 1) store_failed (touch_client_installation text_lt i.id now)
        if still_active
            then pure (record i { last_seen_at = some now })
            else raise installation_revoked)
      else pure i

  -- Authenticate
  pub authenticate : ℕ → Text → Exec Error (Database Num) Installation
  unfolding admit required
  authenticate now token = do
    token_prefix ← lift (required (parse_token token))
    token_hash ← lift (required (digest_token sha256_base64 token))
    found ← call (faults 0) store_failed (find_client_installation_by_token token_prefix token_hash)
    admit now found
