-- ===== src/Resolution/Service.antt =====
-- The resolution service: internal/app/resolution/service.go. Ids and the clock are arguments; `validate`
-- is the validation of an observation and `observation_hash` the hash of its JSON text.
pub mod Idempotence
pub mod Saved
pub mod Completion
pub mod Reviews
pub mod Frames
use wildman_service.Base.{
  ℕ, String, Bool, true, not, ◌&&◌, ◌||◌, Option, none, some, List, [], ltb, leb, if◌then◌else◌,
  Exec, pure, raise, ◌>>=◌, ◌>>◌, Faults, call, int_eq, ◌==◌, nat_eq, string_eq, list_eq, Text,
  codes, byte_length, all_codes, trim_space,
}
use wildman_service.Catalog.{
  TrackObservation, StoredTrackObservation, ResolutionRequest, queued, Candidate, ResolutionReview,
}
use wildman_service.Resolution.Store.{
  upsert_track_observation, create_resolution_request, get_resolution_request,
  save_resolution_candidates, save_resolution_review,
}
use wildman_service.Resolution.Ranking.{sort_candidates, number_candidates}
use wildman_service.Database.{Database}

pub data Error : Type 0 where
  client_identity_required idempotency_key_required idempotency_key_invalid : Error
  observation_id_required resolution_not_found review_invalid observation_invalid : Error
  store_failed : Error

abbrev pub max_idempotency_key_length : ℕ
max_idempotency_key_length = 200

-- isPrintableASCII, over bytes: a code point above ASCII has bytes above 0x7e.
pub is_printable_ascii : Text → Bool
unfolding all_codes
is_printable_ascii value = all_codes (λ c. leb 0x21 c && leb c 0x7e) value

decision_known : String → Bool
decision_known d = d == "accepted" || d == "rejected"

writeback_known : String → Bool
writeback_known w = w == "not_attempted" || w == "succeeded" || w == "failed"

-- The tests of ReportReview after the one on the client: the first that fails refuses the review.
unfoldable pub review_refused : String → String → String → String → Text → Bool
unfolding decision_known writeback_known byte_length is_printable_ascii
review_refused request_id decision recording_id writeback_status code =
    if request_id == "" || not (decision_known decision) || not (writeback_known writeback_status)
    then true
    else if decision == "accepted" && recording_id == ""
    then true
    else if decision == "rejected" && not (writeback_status == "not_attempted")
    then true
    else if writeback_status == "failed"
    then code == [] || ltb 64 (byte_length code) || not (is_printable_ascii code)
    else not (code == [])

-- The request that CreateRequest asks the store for.
new_request : String → String → String → String → ℕ → ResolutionRequest
new_request client_id observation_id idempotency_key id now = record {
  id = id;
  client_id = client_id;
  observation_id = observation_id;
  idempotency_key = idempotency_key;
  status = queued;
  last_error_code = "";
  created_at = now;
  started_at = none;
  finished_at = none;
}

module _ {Num : Type 0} (faults : Faults) where
  found_request : Option ResolutionRequest → Exec Error (Database Num) ResolutionRequest
  found_request none = raise resolution_not_found
  found_request (some r) = pure r

  -- GetRequest
  unfoldable pub get_request : String → String → Exec Error (Database Num) ResolutionRequest
  unfolding found_request
  get_request client_id request_id =
      if client_id == ""
      then raise client_identity_required
      else if request_id == ""
      then raise resolution_not_found
      else do
        found ← call (faults 0) store_failed (get_resolution_request client_id request_id)
        found_request found

  -- CompleteRequest
  unfoldable pub complete_request :
      (Num → Num → Bool)
      → (ℕ → String)
      → String
      → String
      → List (Candidate Num)
      → ℕ
      → Exec Error (Database Num) (Unit {0})
  complete_request lt new_id client_id request_id candidates now =
      if client_id == "" then raise client_identity_required else do
        found ← call (faults 0) store_failed (
            save_resolution_candidates client_id request_id
              (number_candidates new_id 0 (sort_candidates lt candidates)) now)
        if found then pure tt else raise resolution_not_found

  found_review : Option ResolutionReview → Exec Error (Database Num) ResolutionReview
  found_review none = raise resolution_not_found
  found_review (some r) = pure r

  -- ReportReview. `spell` makes the stored string of a text.
  unfoldable pub report_review :
      (Text → String)
      → String
      → String
      → String
      → String
      → String
      → Text
      → ℕ
      → Exec Error (Database Num) ResolutionReview
  unfolding review_refused found_review
  report_review spell client_id request_id decision recording_id writeback_status code now =
      if client_id == ""
      then raise client_identity_required
      else if review_refused request_id decision recording_id writeback_status code
      then raise review_invalid
      else do
        found ← call (faults 0) store_failed (
            save_resolution_review (record {
              request_id = request_id;
              client_id = client_id;
              decision = decision;
              recording_id = recording_id;
              writeback_status = writeback_status;
              writeback_error_code = spell code;
              reviewed_at = now;
              writeback_at = if writeback_status == "not_attempted" then none else some now;
            }))
        found_review found

  -- CreateRequest
  unfoldable pub create_request :
      String → String → String → String → ℕ → Exec Error (Database Num) (ResolutionRequest × Bool)
  unfolding byte_length trim_space is_printable_ascii new_request
  create_request client_id observation_id idempotency_key id now =
      if client_id == ""
      then raise client_identity_required
      else if idempotency_key == ""
      then raise idempotency_key_required
      else if ltb max_idempotency_key_length (byte_length (codes idempotency_key))
          || not (trim_space (codes idempotency_key) == codes idempotency_key)
          || not (is_printable_ascii (codes idempotency_key))
      then raise idempotency_key_invalid
      else if observation_id == ""
      then raise observation_id_required
      else call (faults 0) store_failed
          (create_resolution_request (new_request client_id observation_id idempotency_key id now))

  -- UpsertObservation
  unfoldable pub upsert_observation :
      (TrackObservation → Bool)
      → (TrackObservation → String)
      → String
      → TrackObservation
      → String
      → ℕ
      → Exec Error (Database Num) StoredTrackObservation
  upsert_observation valid observation_hash client_id observation id now =
      if client_id == ""
      then raise client_identity_required
      else if not (valid observation)
      then raise observation_invalid
      else call (faults 0) store_failed (
          upsert_track_observation (record {
            id = id;
            client_id = client_id;
            observation = observation;
            payload_hash = observation_hash observation;
            created_at = now;
            updated_at = now;
          }))
