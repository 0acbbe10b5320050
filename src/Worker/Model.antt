-- ===== src/Worker/Model.antt =====
-- What the worker is given. The repository of the catalog, whose tables are not modelled, is an
-- interface; so are the providers. Random ids, the clock and digests are arguments.
use wildman_service.Base.{
  ℕ, String, Bool, Option, List, Faults, int_eq, nat_eq, string_eq, list_eq, Text,
}
use wildman_service.Unicode.{Unicode}
use wildman_service.Catalog.{ResolutionRequest, Artist, Recording, Release}
use wildman_service.Catalog.Arithmetic.{Arithmetic}
use wildman_service.Provider.{RecordingCandidate, Provider}

pub data WorkerError : Type 0 where
  claim_failed catalog_query_failed provider_query_failed metrics_not_saved : WorkerError
  all_providers_failed candidates_not_saved : WorkerError

-- appcatalog.Repository: what its calls answer, `none` or `false` for an error.
pub record Repository : Type 0 where
  pub find_recordings : Text → Option (List Recording)
  pub save_artist : Artist → Bool
  pub save_recording : Recording → Bool
  pub save_release : Release → Bool

pub record Environment (Num : Type 0) : Type 0 where
  pub unicode : Unicode
  pub num : Arithmetic Num
  pub repository : Repository
  pub providers : List Provider
  -- whether the worker records what the providers answer, and how
  pub records_sources : Bool
  pub valid_json : List ℕ → Bool
  pub payload_digest : List ℕ → String
  pub source_fault : RecordingCandidate → Bool
  pub source_row_id : RecordingCandidate → String
  -- SHA-256, and the string of a text
  pub digest : Text → List ℕ
  pub spell : Text → String
  pub sooner : ResolutionRequest → ResolutionRequest → Bool
  pub candidate_id : ℕ → String

-- The schedule of failures, by the calls of RunOnce: ClaimResolution, SaveProviderMetrics,
-- FailResolution, and those of the resolution service.
pub record WorkerFaults : Type 0 where
  pub claim : Bool
  pub metrics : Bool
  pub fail : Bool
  pub service : Faults
