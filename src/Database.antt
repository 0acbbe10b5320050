-- ===== src/Database.antt =====
-- The tables of the PostgreSQL database (internal/infra/database/migrations) that the stores of
-- internal/infra/database read and write. A table is the list of its rows in the order of their
-- insertion; a transaction is one function, which returns the new tables only where the code
-- commits. An INSERT that would break a unique constraint is an error, as are rows that cannot be
-- read back. Times are stored as text: an order of the texts is an argument where SQL uses it.
use wildman_service.Base.{ℕ, String, List, [], ◌∷◌, ◌++◌, int_eq, string_eq, nat_eq, list_eq}
use wildman_service.Auth
use wildman_service.Account
use wildman_service.Client
use wildman_service.Catalog.{
  StoredTrackObservation, ResolutionRequest, Candidate, ResolutionReview, SourceObservation,
}
use wildman_service.Catalog.Rows.{Tables, no_tables}

-- audit_events; the random id is not kept.
pub record AuditEvent : Type 0 where
  pub actor_user_id : String
  pub action : String
  pub subject_type : String
  pub subject_id : String
  pub created_at : ℕ

-- quota_consumptions
pub record Consumption : Type 0 where
  pub client_id : String
  pub idempotency_key : String
  pub account_id : String
  pub period : String
  pub created_at : ℕ

-- monthly_usage
pub record Usage : Type 0 where
  pub account_id : String
  pub period : String
  pub resolutions : ℕ

-- resolution_candidates: the candidate with its request.
pub record CandidateRow (Num : Type 0) : Type 0 where
  pub request_id : String
  pub candidate : Candidate Num

pub record Database (Num : Type 0) : Type 0 where
  pub users : List Auth.User
  pub sessions : List Auth.Session
  pub clients : List Client.Installation
  pub accounts : List Account.Account
  pub account_sessions : List Account.Session
  pub subscriptions : List Account.Subscription
  pub devices : List Account.DeviceAuthorization
  pub consumptions : List Consumption
  pub usages : List Usage
  pub observations : List StoredTrackObservation
  pub requests : List ResolutionRequest
  pub candidates : List (CandidateRow Num)
  pub reviews : List ResolutionReview
  pub sources : List SourceObservation
  pub audits : List AuditEvent
  pub catalog : Tables

abbrev pub empty : {Num : Type 0} → Database Num
empty = record {
  users = [];
  sessions = [];
  clients = [];
  accounts = [];
  account_sessions = [];
  subscriptions = [];
  devices = [];
  consumptions = [];
  usages = [];
  observations = [];
  requests = [];
  candidates = [];
  reviews = [];
  sources = [];
  audits = [];
  catalog = no_tables;
}

-- insertAuditEvent, inside the caller's transaction.
unfoldable pub insert_audit_event :
    {Num : Type 0} → String → String → String → String → ℕ → Database Num → Database Num
insert_audit_event actor action subject_type subject_id at db = record db {
  audits =
      db.audits
      ++ (record {
        actor_user_id = actor;
        action = action;
        subject_type = subject_type;
        subject_id = subject_id;
        created_at = at;
      }
          ∷ []);
}
