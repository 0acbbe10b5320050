-- ===== src/Resolution/Tables.antt =====
-- The rows that the SQL statements of internal/infra/database/observation_store.go, resolution_store.go,
-- candidate_store.go, review_store.go and worker_store.go select, write and insert.
use wildman_service.Base.{
  ℕ, String, Bool, true, not, ◌&&◌, ◌||◌, Option, none, some, List, [], ◌∷◌, ◌++◌, if◌then◌else◌,
  length, exists_where, int_eq, string_eq, nat_eq, ◌==◌, list_eq, Text,
}
use wildman_service.Catalog.{
  StoredTrackObservation, ResolutionRequest, ResolutionStatus, queued, matching, matched, no_match,
  failed, status_beq, Candidate, ResolutionReview,
}
use wildman_service.Database.{Database, CandidateRow}

unfoldable pub is_observation_of : String → Text → StoredTrackObservation → Bool
is_observation_of client_id client_track_id o =
    o.client_id == client_id && o.observation.client_track_id == client_track_id

-- The SET clause of the upsert: the id, the owner and the time of creation stay.
unfoldable pub refresh_observation :
    StoredTrackObservation → StoredTrackObservation → StoredTrackObservation
refresh_observation new old = record old {
  observation = record new.observation { client_track_id = old.observation.client_track_id };
  payload_hash = new.payload_hash;
  updated_at = new.updated_at;
}

unfoldable pub is_request_of : String → String → ResolutionRequest → Bool
is_request_of client_id idempotency_key r =
    r.client_id == client_id && r.idempotency_key == idempotency_key

unfoldable pub is_request : String → String → ResolutionRequest → Bool
is_request client_id id r = r.id == id && r.client_id == client_id

unfoldable pub finish_row : ResolutionStatus → ℕ → ResolutionRequest → ResolutionRequest
finish_row status at r = record r { status = status; finished_at = some at; last_error_code = "" }

unfoldable pub claim_row : ℕ → ResolutionRequest → ResolutionRequest
claim_row now r = record r { status = matching; started_at = some now }

unfoldable pub fail_row : String → ℕ → ResolutionRequest → ResolutionRequest
fail_row error_code at r = record r {
  status = failed;
  last_error_code = error_code;
  finished_at = some at;
}

unfoldable pub in_progress : String → String → ResolutionRequest → Bool
unfolding is_request status_beq
in_progress client_id id r = is_request client_id id r && status_beq r.status matching

unfoldable pub is_candidate_of : {Num : Type 0} → String → String → CandidateRow Num → Bool
is_candidate_of request_id recording_id c =
    c.request_id == request_id && c.candidate.recording.id == recording_id

-- The SET clause of the upsert of a review: the time of the review and the client stay.
unfoldable pub revise_review : ResolutionReview → ResolutionReview → ResolutionReview
revise_review new old = record old {
  decision = new.decision;
  recording_id = new.recording_id;
  writeback_status = new.writeback_status;
  writeback_error_code = new.writeback_error_code;
  writeback_at = new.writeback_at;
}

unfoldable pub has_status : ResolutionStatus → ResolutionRequest → Bool
unfolding status_beq
has_status s r = status_beq r.status s

unfoldable pub sooner_of :
    (ResolutionRequest → ResolutionRequest → Bool)
    → ResolutionRequest
    → Option ResolutionRequest
    → ResolutionRequest
sooner_of sooner r none = r
sooner_of sooner r (some q) = if sooner q r then q else r

-- `ORDER BY created_at, id LIMIT 1` over the rows of a status, in the order of the texts.
unfoldable pub oldest_queued :
    (ResolutionRequest → ResolutionRequest → Bool)
    → List ResolutionRequest
    → Option ResolutionRequest
unfolding has_status sooner_of
oldest_queued sooner [] = none
oldest_queued sooner (r ∷ rs) =
    let rest = oldest_queued sooner rs in
    if has_status queued r then some (sooner_of sooner r rest) else rest

-- The sources of a candidate as they are stored.
unfoldable pub stored_candidate : {Num : Type 0} → Candidate Num → Candidate Num
stored_candidate c = if length c.sources == 0 then record c { sources = c.source ∷ [] } else c

-- The rows inserted for a request.
unfoldable pub candidate_rows :
    {Num : Type 0} → String → List (Candidate Num) → List (CandidateRow Num)
unfolding stored_candidate
candidate_rows request_id [] = []
candidate_rows request_id (c ∷ cs) =
    record { request_id = request_id; candidate = stored_candidate c }
    ∷ candidate_rows request_id cs

-- The unique constraints of resolution_candidates: the id, and in a request the rank and the recording.
unfoldable pub candidate_fits : {Num : Type 0} → CandidateRow Num → List (CandidateRow Num) → Bool
candidate_fits c rows = not (
    exists_where
      (λ d.
        d.candidate.id == c.candidate.id
        || (d.request_id == c.request_id
            && (d.candidate.rank == c.candidate.rank
                || d.candidate.recording.id == c.candidate.recording.id)))
      rows)

-- The rows after the insertions; `none` where one of them breaks a constraint.
unfoldable pub insert_candidates :
    {Num : Type 0}
    → List (CandidateRow Num)
    → List (CandidateRow Num)
    → Option (List (CandidateRow Num))
unfolding candidate_fits
insert_candidates [] rows = some rows
insert_candidates (c ∷ cs) rows =
    let rest = insert_candidates cs (rows ++ (c ∷ [])) in
    if candidate_fits c rows then rest else none

-- The foreign keys of a candidate: its recording, its release and the observation of its source.
unfoldable pub has_referents : {Num : Type 0} → Database Num → Candidate Num → Bool
has_referents db c =
    exists_where (λ r. r.id == c.recording.id) db.catalog.recordings
    && (elim c.release [
      | none ↦ true
      | some v ↦ exists_where (λ r. r.id == v.id) db.catalog.releases
    ])
    && (c.source_observation_id == ""
        || exists_where (λ s. s.id == c.source_observation_id) db.sources)

unfoldable pub have_referents : {Num : Type 0} → Database Num → List (Candidate Num) → Bool
unfolding has_referents
have_referents db [] = true
have_referents db (c ∷ cs) = has_referents db c && have_referents db cs

-- The status of a request that ends with these candidates.
unfoldable pub outcome : {Num : Type 0} → List (Candidate Num) → ResolutionStatus
outcome [] = no_match
outcome (_ ∷ _) = matched
