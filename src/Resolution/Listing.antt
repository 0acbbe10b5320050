-- ===== src/Resolution/Listing.antt =====
-- What a client reads of a request: ListResolutionCandidates of
-- internal/infra/database/candidate_store.go and GetResult of internal/app/resolution/service.go.
pub mod Reads
pub mod Completed
pub mod Tests
use wildman_service.Base.{
  String, Bool, ◌&&◌, Option, none, some, List, [], ◌∷◌, ltb, Exec, pure, ◌>>=◌, ◌>>◌, Faults,
  StoreError, call, map_option, exists_where, int_eq, string_eq, nat_eq, ◌==◌, list_eq,
  select_where, order_by, ok, err, row_missing,
}
use wildman_service.Catalog.{ResolutionRequest, Candidate, Recording, Release}
use wildman_service.Catalog.Store.{get_recording, get_release}
use wildman_service.Catalog.Rows.{Tables}
use wildman_service.Resolution.Tables.{is_request}
use wildman_service.Resolution.Service.{Error, store_failed, get_request}
use wildman_service.Database.{Database, CandidateRow}

module _ {Num : Type 0} where
  with_release : Tables → Candidate Num → Option Release → Option (Candidate Num)
  with_release t c none = some (record c { release = none })
  with_release t c (some v) = map_option (λ w. record c { release = some w }) (get_release t v.id)

  with_recording : Tables → Candidate Num → Option Recording → Option (Candidate Num)
  unfolding with_release
  with_recording t c none = none
  with_recording t c (some r) = with_release t (record c { recording = r }) c.release

  -- The body of the second loop: the recording and the release are read from the catalog.
  unfoldable pub read_candidate : Tables → Candidate Num → Option (Candidate Num)
  unfolding with_recording
  read_candidate t c = with_recording t c (get_recording t c.recording.id)

  abbrev pub prepend :
      Option (Candidate Num) → Option (List (Candidate Num)) → Option (List (Candidate Num))
  prepend none rest = none
  prepend (some c) none = none
  prepend (some c) (some rest) = some (c ∷ rest)

  -- The second loop; `none` where the catalog lacks a recording or a release.
  unfoldable pub read_candidates : Tables → List (CandidateRow Num) → Option (List (Candidate Num))
  unfolding read_candidate
  read_candidates t [] = some []
  read_candidates t (c ∷ cs) = prepend (read_candidate t c.candidate) (read_candidates t cs)

  unfoldable pub later_rank : CandidateRow Num → CandidateRow Num → Bool
  later_rank a b = ltb b.candidate.rank a.candidate.rank

  -- The first query: the rows of a request that the client owns, in the order of their ranks.
  unfoldable pub stored_candidates : String → String → Database Num → List (CandidateRow Num)
  unfolding is_request later_rank
  stored_candidates client_id request_id db = order_by later_rank (
      select_where
        (λ c.
          c.request_id == request_id
          && exists_where (is_request client_id c.request_id) db.requests)
        db.candidates)

  candidates_or_missing :
      Option (List (Candidate Num)) → Exec StoreError (Database Num) (List (Candidate Num))
  candidates_or_missing none db = (err row_missing, db)
  candidates_or_missing (some cs) db = (ok cs, db)

  -- ListResolutionCandidates
  unfoldable pub list_resolution_candidates :
      String → String → Exec StoreError (Database Num) (List (Candidate Num))
  unfolding read_candidates stored_candidates candidates_or_missing
  list_resolution_candidates client_id request_id db =
      candidates_or_missing (read_candidates db.catalog (stored_candidates client_id request_id db))
        db

  -- GetResult
  unfoldable pub get_result :
      Faults
      → String
      → String
      → Exec Error (Database Num) (ResolutionRequest × List (Candidate Num))
  unfolding get_request list_resolution_candidates
  get_result faults client_id request_id = do
    request ← get_request faults client_id request_id
    candidates ← call (faults 1) store_failed (list_resolution_candidates client_id request_id)
    pure (request, candidates)
