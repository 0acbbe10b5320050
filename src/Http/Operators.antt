-- ===== src/Http/Operators.antt =====
-- What an operator does: internal/httpserver/clients.go, operations.go and the subscriptions of
-- accounts.go. Each of these handlers starts with operatorUserID, and each that changes something goes on
-- with requestCSRFValid. Ids and random bytes are arguments.
pub mod Guarded
pub mod Tests
use wildman_service.Base.{
  ℕ, String, Bool, not, Option, none, some, List, if◌then◌else◌, Result, Faults, ℤ, int_eq,
  string_eq, nat_eq, list_eq, Text, trim_space, ok, err,
}
use wildman_service.Unicode.{Unicode}
use wildman_service.Auth.{User}
use wildman_service.Auth.Service as Auth
use wildman_service.Client.{Installation, InstallationStatus}
use wildman_service.Client.Service as Client
use wildman_service.Account.Support.{Environment}
use wildman_service.Account.Support as Support
use wildman_service.Account.Service.{update_subscription}
use wildman_service.Catalog.{ResolutionRequest}
use wildman_service.Operations as Operations
use wildman_service.Operations.{RetentionResult, Summary}
use wildman_service.Http.{
  Request, Response, reply, refuse, Server, Handler, write_api_error, write_internal_api_error,
  write_json, on_database,
}
use wildman_service.Http.Guards.{request_csrf_valid, session_token}

-- What the service of operators takes from elsewhere.
pub record Operators : Type 0 where
  pub unicode : Unicode
  pub id_key : Text → List ℕ → ℕ → ℕ → ℕ → ℕ → List ℕ
  pub hash_token : Text → String
  pub dummy_password_hash : Text

-- clientResponse
pub record ClientResponse : Type 0 where
  pub id : String
  pub name : Text
  pub token_prefix : Text
  pub status : InstallationStatus
  pub last_seen_at : Option ℕ
  pub revoked_at : Option ℕ
  pub created_at : ℕ

-- toClientResponse
unfoldable pub to_client_response : Installation → ClientResponse
to_client_response i = record {
  id = i.id;
  name = i.name;
  token_prefix = i.token_prefix;
  status = i.status;
  last_seen_at = i.last_seen_at;
  revoked_at = i.revoked_at;
  created_at = i.created_at;
}

-- subscriptionRequest
pub record SubscriptionInput : Type 0 where
  pub plan : Text
  pub status : Text
  pub monthly_quota : ℤ

module _ {Num A : Type 0} where
  after_authentication : (String → Handler Num A) → Result Auth.Error User → Handler Num A
  after_authentication next (ok user) = next user.id
  after_authentication next (err Auth.unauthenticated) =
      write_api_error 401 "AUTHENTICATION_REQUIRED"
  after_authentication next (err _) = write_internal_api_error

  -- operatorUserID, with what the handler does with the id.
  unfoldable pub operator_user_id :
      Operators → Faults → ℕ → Request → (String → Handler Num A) → Handler Num A
  unfolding after_authentication session_token
  operator_user_id o faults now r next =
      on_database
        (Auth.authenticate o.unicode o.id_key o.hash_token o.dummy_password_hash faults
          (session_token r) now)
        (after_authentication next)

  -- `if !requestCSRFValid(r)`
  unfoldable pub csrf_checked : Request → Handler Num A → Handler Num A
  unfolding request_csrf_valid
  csrf_checked r next =
      if not (request_csrf_valid r) then write_api_error 403 "CSRF_TOKEN_INVALID" else next

  -- The two tests that the handlers which change something start with.
  unfoldable pub guarded :
      Operators → Faults → ℕ → Request → (String → Handler Num A) → Handler Num A
  unfolding operator_user_id csrf_checked
  guarded o faults now r next = operator_user_id o faults now r (λ id. csrf_checked r (next id))

  with_input : {B : Type 0} → Option B → (B → Handler Num A) → Handler Num A
  with_input none next = write_api_error 400 "INVALID_REQUEST_BODY"
  with_input (some input) next = next input

module _ {Num : Type 0} (o : Operators) (sha256_base64 : Text → String) (text_lt : ℕ → ℕ → Bool)
    (authenticating serving : Faults) (now : ℕ) (r : Request) where
  after_creation : Result Client.Error (Installation × Text) → Handler Num (ClientResponse × Text)
  unfolding to_client_response
  after_creation (ok (i, token)) = write_json 201 (to_client_response i, token)
  after_creation (err Client.invalid_installation_name) = write_api_error 422 "CLIENT_NAME_INVALID"
  after_creation (err _) = write_internal_api_error

  -- POST /clients
  unfoldable pub post_client :
      String → List ℕ → List ℕ → Option Text → Handler Num (ClientResponse × Text)
  unfolding guarded with_input after_creation
  post_client id prefix_random secret_random body = guarded o authenticating now r (λ user_id.
      with_input body (λ name.
        on_database
          (Client.create sha256_base64 text_lt serving name user_id id prefix_random secret_random
            now)
          after_creation))

  after_revocation : Result Client.Error Installation → Handler Num ClientResponse
  unfolding to_client_response
  after_revocation (ok i) = write_json 200 (to_client_response i)
  after_revocation (err Client.installation_not_found) = write_api_error 404 "CLIENT_NOT_FOUND"
  after_revocation (err _) = write_internal_api_error

  -- POST /clients/{clientId}/revoke
  unfoldable pub post_revoke : String → Handler Num ClientResponse
  unfolding guarded after_revocation
  post_revoke client_id = guarded o authenticating now r (λ user_id.
      on_database (Client.revoke sha256_base64 text_lt serving client_id user_id now)
        after_revocation)

  after_deletion : Result Client.Error (Unit {0}) → Handler Num (Unit {0})
  after_deletion (ok _) = write_json 200 tt
  after_deletion (err Client.installation_not_found) = write_api_error 404 "CLIENT_NOT_FOUND"
  after_deletion (err Client.client_deletion_not_allowed) =
      write_api_error 409 "CLIENT_DELETE_NOT_ALLOWED"
  after_deletion (err _) = write_internal_api_error

  -- POST /clients/{clientId}/delete
  unfoldable pub post_delete : String → Option Text → Handler Num (Unit {0})
  unfolding guarded with_input after_deletion
  post_delete client_id body = guarded o authenticating now r (λ user_id. with_input body (λ name.
      on_database (Client.delete sha256_base64 text_lt serving client_id name user_id now)
        after_deletion))

  after_subscription : Result Support.Error (Unit {0}) → Handler Num (Unit {0})
  after_subscription (ok _) = write_json 200 tt
  after_subscription (err _) = write_api_error 422 "SUBSCRIPTION_INVALID"

  -- POST /accounts/{accountId}/subscription
  unfoldable pub post_subscription :
      Environment → (Text → String) → String → Option SubscriptionInput → Handler Num (Unit {0})
  unfolding guarded with_input after_subscription
  post_subscription env spell account_id body = guarded o authenticating now r (λ user_id.
      with_input body (λ input.
        on_database
          (update_subscription env serving account_id (spell (trim_space input.plan))
            (spell (trim_space input.status)) input.monthly_quota user_id now)
          after_subscription))

  after_purge : Result Operations.Error RetentionResult → Handler Num RetentionResult
  after_purge (ok result) = write_json 200 result
  after_purge (err _) = write_internal_api_error

  -- POST /operations/retention
  unfoldable pub post_retention : (ℕ → ℕ) → Handler Num RetentionResult
  unfolding guarded after_purge
  post_retention year_before = guarded o authenticating now r (λ user_id.
      on_database (Operations.purge text_lt year_before serving user_id now) after_purge)

  after_listing : Result Operations.Error (List Summary) → Handler Num (List Summary)
  after_listing (ok items) = write_json 200 items
  after_listing (err _) = write_internal_api_error

  -- GET /operations/resolutions
  unfoldable pub get_resolutions :
      (ResolutionRequest → ResolutionRequest → Bool) → Handler Num (List Summary)
  unfolding operator_user_id after_listing
  get_resolutions sooner =
      operator_user_id o authenticating now r
        (λ user_id. on_database (Operations.resolutions sooner serving) after_listing)
