-- ===== src/Http/Resolutions.antt =====
-- The resource of resolutions: internal/httpserver/resolutions.go. A handler has the id of the client that
-- the middleware left in the context. The schedules of failures are one for each call of a service.
pub mod Served
pub mod Retry
use wildman_service.Base.{
  ℕ, String, Bool, not, Option, none, some, List, [], ◌∷◌, map, if◌then◌else◌, Result, Faults, call,
  int_eq, string_eq, nat_eq, ◌==◌, list_eq, Text, ok, err,
}
use wildman_service.Catalog.{
  TrackObservation, StoredTrackObservation, ResolutionRequest, ResolutionStatus, Candidate, Artist,
  Release, TagPatchOperation, ResolutionReview,
}
use wildman_service.Account.Support.{Environment, quota_exceeded}
use wildman_service.Account.Support as Support
use wildman_service.Account.Service.{consume_quota}
use wildman_service.Resolution.Service.{
  Error, observation_invalid, resolution_not_found, review_invalid, upsert_observation,
  create_request, report_review,
}
use wildman_service.Resolution.Listing.{get_result}
use wildman_service.Http.{
  Request, Response, reply, refuse, Server, Handler, write_api_error, write_internal_api_error,
  write_json, on_database,
}
use wildman_service.Http.Guards.{
  KeyError, key_required, key_invalid, request_is_json, request_idempotency_key,
}
use wildman_service.Http.Middleware.{write_client_authentication_error}

-- createResolutionResponse
pub record CreatedResponse : Type 0 where
  pub request_id : String
  pub status : ResolutionStatus

-- resolutionCandidateResponse
pub record CandidateResponse (Num : Type 0) : Type 0 where
  pub recording_id : String
  pub score : Num
  pub title : Text
  pub artists : List Text
  pub release : Text
  pub source : String
  pub sources : List String
  pub evidence : List String
  pub conflicts : List String
  pub tag_patch : List TagPatchOperation

-- resolutionResponse
pub record ResultResponse (Num : Type 0) : Type 0 where
  pub request_id : String
  pub status : ResolutionStatus
  pub candidates : List (CandidateResponse Num)

-- resolutionReviewRequest
pub record ReviewInput : Type 0 where
  pub decision : String
  pub recording_id : String
  pub writeback_status : String
  pub writeback_error_code : Text

-- What the process has beside the request: the services' environment, the clock, the random ids.
pub record Context : Type 0 where
  pub fold : ℕ → ℕ
  pub parse_media_type : Text → Option Text
  pub spell : Text → String
  pub valid : TrackObservation → Bool
  pub observation_hash : TrackObservation → String
  -- the account service, which may be absent
  pub accounts : Option Environment
  pub now : ℕ
  pub observation_id : String
  pub request_id : String
  pub observing : Faults
  pub charging : Faults
  pub creating : Faults

module _ {Num : Type 0} (c : Context) where
  after_creation : Result Error (ResolutionRequest × Bool) → Handler Num CreatedResponse
  after_creation (err _) = write_internal_api_error
  after_creation (ok (r, created)) =
      write_json 202 (record { request_id = r.id; status = r.status })

  pub create_for : String → String → String → Handler Num CreatedResponse
  unfolding after_creation
  create_for client_id observation_id key =
      on_database (create_request c.creating client_id observation_id key c.request_id c.now)
        after_creation

  after_charge :
      Handler Num CreatedResponse → Result Support.Error (Unit {0}) → Handler Num CreatedResponse
  after_charge next (ok _) = next
  after_charge next (err quota_exceeded) = write_api_error 429 "ACCOUNT_QUOTA_EXCEEDED"
  after_charge next (err _) = write_internal_api_error

  -- `if accountService != nil`
  charge_for :
      Option Environment
      → String
      → String
      → Handler Num CreatedResponse
      → Handler Num CreatedResponse
  unfolding after_charge
  charge_for none client_id key next = next
  charge_for (some env) client_id key next =
      on_database (consume_quota env c.charging client_id key c.now) (after_charge next)

  after_observation :
      String → String → Result Error StoredTrackObservation → Handler Num CreatedResponse
  unfolding charge_for create_for
  after_observation client_id key (ok o) =
      charge_for c.accounts client_id key (create_for client_id o.id key)
  after_observation client_id key (err observation_invalid) =
      write_api_error 422 "OBSERVATION_INVALID"
  after_observation client_id key (err _) = write_internal_api_error

  with_body : String → String → Option TrackObservation → Handler Num CreatedResponse
  unfolding after_observation
  with_body client_id key none = write_api_error 400 "INVALID_REQUEST_BODY"
  with_body client_id key (some input) =
      on_database
        (upsert_observation c.observing c.valid c.observation_hash client_id input c.observation_id
          c.now)
        (after_observation client_id key)

  with_key : String → Option TrackObservation → Result KeyError Text → Handler Num CreatedResponse
  unfolding with_body
  with_key client_id body (err key_required) = write_api_error 400 "IDEMPOTENCY_KEY_REQUIRED"
  with_key client_id body (err key_invalid) = write_api_error 400 "IDEMPOTENCY_KEY_INVALID"
  with_key client_id body (ok key) = with_body client_id (c.spell key) body

  -- POST /resolutions. A body without a fingerprint has the empty one.
  unfoldable pub post_resolution :
      String → Request → Option TrackObservation → Handler Num CreatedResponse
  unfolding with_key request_is_json request_idempotency_key
  post_resolution client_id r body =
      if client_id == ""
      then write_client_authentication_error "CLIENT_AUTH_REQUIRED"
      else if not (request_is_json c.fold c.parse_media_type r)
      then write_api_error 415 "CONTENT_TYPE_UNSUPPORTED"
      else with_key client_id body (request_idempotency_key r)

artist_names : List Artist → List Text
artist_names [] = []
artist_names (a ∷ more) = a.name ∷ artist_names more

release_title : Option Release → Text
release_title none = []
release_title (some v) = v.title

-- The body of the loop over the candidates.
unfoldable pub candidate_response : {Num : Type 0} → Candidate Num → CandidateResponse Num
unfolding artist_names release_title
candidate_response c = record {
  recording_id = c.recording.id;
  score = c.score;
  title = c.recording.title;
  artists = artist_names c.recording.artists;
  release = release_title c.release;
  source = c.source;
  sources = c.sources;
  evidence = c.evidence;
  conflicts = c.conflicts;
  tag_patch = c.tag_patch;
}

module _ {Num : Type 0} where
  after_reading :
      Result Error (ResolutionRequest × List (Candidate Num)) → Handler Num (ResultResponse Num)
  unfolding candidate_response
  after_reading (ok (r, candidates)) = write_json 200 (record {
    request_id = r.id;
    status = r.status;
    candidates = map candidate_response candidates;
  })
  after_reading (err resolution_not_found) = write_api_error 404 "RESOLUTION_NOT_FOUND"
  after_reading (err _) = write_internal_api_error

  -- GET /resolutions/{requestId}
  unfoldable pub get_resolution : Faults → String → String → Handler Num (ResultResponse Num)
  unfolding after_reading
  get_resolution faults client_id request_id =
      if client_id == ""
      then write_client_authentication_error "CLIENT_AUTH_REQUIRED"
      else on_database (get_result faults client_id request_id) after_reading

  after_review : Result Error ResolutionReview → Handler Num ResolutionReview
  after_review (ok v) = write_json 200 v
  after_review (err review_invalid) = write_api_error 422 "REVIEW_INVALID"
  after_review (err resolution_not_found) = write_api_error 404 "RESOLUTION_NOT_FOUND"
  after_review (err _) = write_internal_api_error

  review_with_body : Context → String → String → Option ReviewInput → Handler Num ResolutionReview
  unfolding after_review
  review_with_body c client_id request_id none = write_api_error 400 "INVALID_REQUEST_BODY"
  review_with_body c client_id request_id (some input) =
      on_database
        (report_review c.creating c.spell client_id request_id input.decision input.recording_id
          input.writeback_status input.writeback_error_code c.now)
        after_review

  -- POST /resolutions/{requestId}/review; of the review the response has the fields that were sent.
  unfoldable pub post_review :
      Context → String → String → Request → Option ReviewInput → Handler Num ResolutionReview
  unfolding review_with_body request_is_json
  post_review c client_id request_id r body =
      if client_id == ""
      then write_client_authentication_error "CLIENT_AUTH_REQUIRED"
      else if not (request_is_json c.fold c.parse_media_type r)
      then write_api_error 415 "CONTENT_TYPE_UNSUPPORTED"
      else review_with_body c client_id request_id body
