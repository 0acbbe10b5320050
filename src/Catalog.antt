-- ===== src/Catalog.antt =====
-- The data model of the catalog: internal/domain/catalog/catalog.go, review.go and the types of
-- tag_patch.go. A string is `Text` where the program looks at its characters, else `String`. `int`
-- and `int64` values come from JSON and may be negative. A score is a float64, whose type is the
-- parameter `Num`.
pub mod Rows
pub mod Store
pub mod EditDistance
pub mod Validation
pub mod Arithmetic
pub mod Normalization
pub mod Scoring
pub mod CrossSource
pub mod TagPatch
pub mod ReleaseContext
pub mod Tests
use wildman_service.Base.{
  ℕ, String, Bool, true, false, Option, List, ℤ, int_eq, nat_eq, string_eq, list_eq, Text,
}

pub record TrackObservation : Type 0 where
  pub client_track_id : Text
  pub file_name : Text
  pub title : Text
  pub artists : List Text
  pub album : Text
  pub disc_number : Option ℤ
  pub track_number : Option ℤ
  pub duration_ms : Option ℤ
  pub format : Text
  pub fingerprint : Text
  pub observed_at : ℕ

pub record StoredTrackObservation : Type 0 where
  pub id : String
  pub client_id : String
  pub observation : TrackObservation
  pub payload_hash : String
  pub created_at : ℕ
  pub updated_at : ℕ

pub data ResolutionStatus : Type 0 where
  queued matching matched no_match failed : ResolutionStatus

unfoldable pub status_beq : ResolutionStatus → ResolutionStatus → Bool
status_beq queued queued = true
status_beq matching matching = true
status_beq matched matched = true
status_beq no_match no_match = true
status_beq failed failed = true
status_beq _ _ = false

pub record ResolutionRequest : Type 0 where
  pub id : String
  pub client_id : String
  pub observation_id : String
  pub idempotency_key : String
  pub status : ResolutionStatus
  pub last_error_code : String
  pub created_at : ℕ
  pub started_at : Option ℕ
  pub finished_at : Option ℕ

pub record Artist : Type 0 where
  pub id : String
  pub name : Text
  pub normalized_name : Text
  pub sort_name : Text

pub record Recording : Type 0 where
  pub id : String
  pub title : Text
  pub normalized_title : Text
  pub artists : List Artist
  pub duration_ms : Option ℤ
  pub isrc : Text

pub record Release : Type 0 where
  pub id : String
  pub title : Text
  pub normalized_title : Text
  pub artists : List Artist
  pub release_date : String
  pub barcode : String

pub record Track : Type 0 where
  pub id : String
  pub release_id : String
  pub recording_id : String
  pub disc_number : ℤ
  pub track_number : ℤ
  pub title : Text
  pub duration_ms : Option ℤ

pub data SourceEntityType : Type 0 where
  artist release recording : SourceEntityType

pub record SourceObservation : Type 0 where
  pub id : String
  pub provider : String
  pub entity_type : SourceEntityType
  pub external_id : String
  pub canonical_entity_id : String
  pub payload_json : List ℕ
  pub payload_hash : String
  pub fetched_at : ℕ
  pub expires_at : Option ℕ
  pub adapter_version : String

-- A tag value holds one of a text, a list of texts and a number.
pub record TagValue : Type 0 where
  pub text : Option Text
  pub texts : List Text
  pub number : Option ℤ

pub record TagPatchOperation : Type 0 where
  pub field : String
  pub current : TagValue
  pub suggested : TagValue
  pub source : String

pub record Candidate (Num : Type 0) : Type 0 where
  pub id : String
  pub rank : ℕ
  pub source : String
  pub sources : List String
  pub source_observation_id : String
  pub recording : Recording
  pub release : Option Release
  pub score : Num
  pub evidence : List String
  pub conflicts : List String
  pub tag_patch : List TagPatchOperation

-- Decision and writeback status are strings that the client sends.
pub record ResolutionReview : Type 0 where
  pub request_id : String
  pub client_id : String
  pub decision : String
  pub recording_id : String
  pub writeback_status : String
  pub writeback_error_code : String
  pub reviewed_at : ℕ
  pub writeback_at : Option ℕ
