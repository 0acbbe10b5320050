-- ===== src/Provider.antt =====
-- Providers of metadata: internal/app/provider.
pub mod Sources
pub mod Cache
pub mod Tests
use wildman_service.Base.{
  ℕ, String, Option, List, Result, call, ℤ, int_eq, nat_eq, string_eq, list_eq, Text,
}

-- RecordingQuery
pub record RecordingQuery : Type 0 where
  pub title : Text
  pub artists : List Text
  pub album : Text
  pub duration_ms : Option ℤ
  pub fingerprint : Text

-- RecordingCandidate
pub record RecordingCandidate : Type 0 where
  pub external_id : String
  pub title : Text
  pub artists : List Text
  pub release_external_id : String
  pub release_title : Text
  pub duration_ms : Option ℤ
  pub isrc : Text
  pub raw_payload : List ℕ

-- The kinds of ErrorKind, and errors of other types.
pub data ErrorKind : Type 0 where
  unauthorized forbidden rate_limited timeout response_too_large invalid_response unavailable
        unknown :
      ErrorKind

-- Provider: the result of a search stands for its call.
pub record Provider : Type 0 where
  pub name : String
  pub adapter_version : String
  pub search_recordings : RecordingQuery → Result ErrorKind (List RecordingCandidate)
