-- ===== src/Resolution/Store.antt =====
-- ObservationStore and WorkerStore: internal/infra/database/observation_store.go,
-- resolution_store.go, candidate_store.go, review_store.go and worker_store.go. A row of
-- resolution_candidates keeps a recording and a release, of which the code stores and reads the ids.
use wildman_service.Base.{
  ℕ, String, Bool, true, false, not, ◌&&◌, ◌||◌, Option, none, some, List, [], ◌∷◌, ◌++◌,
  if◌then◌else◌, Exec, StoreError, first_where, exists_where, update_where, delete_where, int_eq,
  string_eq, nat_eq, ◌==◌, list_eq, ok, err, constraint_violation, row_missing,
}
use wildman_service.Catalog.{
  StoredTrackObservation, ResolutionRequest, ResolutionStatus, Candidate, ResolutionReview,
}
use wildman_service.Database.{Database, CandidateRow}
use wildman_service.Resolution.Tables.{
  is_observation_of, refresh_observation, is_request_of, is_request, finish_row, claim_row,
  fail_row, in_progress, is_candidate_of, revise_review, oldest_queued, candidate_rows,
  insert_candidates, outcome, have_referents,
}

module _ {Num : Type 0} where
  read_observation :
      Option StoredTrackObservation → Exec StoreError (Database Num) StoredTrackObservation
  read_observation none db = (err row_missing, db)
  read_observation (some o) db = (ok o, db)

  read_request : Option ResolutionRequest → Exec StoreError (Database Num) ResolutionRequest
  read_request none db = (err row_missing, db)
  read_request (some r) db = (ok r, db)

  -- UpsertTrackObservation: INSERT ... ON CONFLICT (client_id, client_track_id) DO UPDATE ... RETURNING
  unfoldable pub upsert_track_observation :
      StoredTrackObservation → Exec StoreError (Database Num) StoredTrackObservation
  unfolding is_observation_of refresh_observation read_observation
  upsert_track_observation o db =
      let own = is_observation_of o.client_id o.observation.client_track_id in
      if exists_where own db.observations
      then (let rows = update_where own (refresh_observation o) db.observations in
          read_observation (first_where own rows) (record db { observations = rows }))
      else if exists_where (λ p. p.id == o.id) db.observations
          || not (exists_where (λ i. i.id == o.client_id) db.clients)
      then (err constraint_violation, db)
      else (ok o, record db { observations = db.observations ++ (o ∷ []) })

  -- The foreign keys and the primary key of a new request.
  unfoldable pub request_insertable : ResolutionRequest → Database Num → Bool
  request_insertable r db =
      not (exists_where (λ q. q.id == r.id) db.requests)
      && exists_where (λ i. i.id == r.client_id) db.clients
      && exists_where (λ o. o.id == r.observation_id) db.observations

  -- The row that the transaction reads after its insertion, and whether it inserted it.
  unfoldable pub answer_creation :
      Bool
      → Option ResolutionRequest
      → Database Num
      → Exec StoreError (Database Num) (ResolutionRequest × Bool)
  answer_creation inserted none new db = (err row_missing, db)
  answer_creation inserted (some r) new db = (ok (r, inserted), new)

  -- CreateResolutionRequest: ON CONFLICT (client_id, idempotency_key) DO NOTHING, then SELECT
  unfoldable pub create_resolution_request :
      ResolutionRequest → Exec StoreError (Database Num) (ResolutionRequest × Bool)
  unfolding is_request_of request_insertable answer_creation
  create_resolution_request r db =
      let own = is_request_of r.client_id r.idempotency_key in
      if exists_where own db.requests
      then answer_creation false (first_where own db.requests) db db
      else if not (request_insertable r db)
      then (err constraint_violation, db)
      else let rows = db.requests ++ (r ∷ []) in
        answer_creation true (first_where own rows) (record db { requests = rows }) db

  -- GetResolutionRequest
  unfoldable pub get_resolution_request :
      String → String → Exec StoreError (Database Num) (Option ResolutionRequest)
  unfolding is_request
  get_resolution_request client_id id db =
      (ok (first_where (is_request client_id id) db.requests), db)

  -- The rows after the insertions, where the foreign keys hold.
  abbrev pub only_if : Bool → Option (List (CandidateRow Num)) → Option (List (CandidateRow Num))
  only_if true rows = rows
  only_if false rows = none

  -- The end of SaveResolutionCandidates, from the rows after the insertions.
  unfoldable pub keep_candidates :
      String
      → String
      → ResolutionStatus
      → ℕ
      → Option (List (CandidateRow Num))
      → Exec StoreError (Database Num) Bool
  unfolding is_request finish_row
  keep_candidates client_id request_id status at none db = (err constraint_violation, db)
  keep_candidates client_id request_id status at (some rows) db = (
    ok true,
    record db {
      requests = update_where (is_request client_id request_id) (finish_row status at) db.requests;
      candidates = rows;
    },
  )

  -- SaveResolutionCandidates
  unfoldable pub save_resolution_candidates :
      String → String → List (Candidate Num) → ℕ → Exec StoreError (Database Num) Bool
  unfolding is_request have_referents outcome candidate_rows insert_candidates keep_candidates
  save_resolution_candidates client_id request_id candidates at db =
      if not (exists_where (is_request client_id request_id) db.requests)
      then (ok false, db)
      else keep_candidates client_id request_id (outcome candidates) at
          (only_if (have_referents db candidates) (
            insert_candidates (candidate_rows request_id candidates)
              (delete_where (λ c. c.request_id == request_id) db.candidates)))
          db

  answer_review :
      Option ResolutionReview
      → Database Num
      → Exec StoreError (Database Num) (Option ResolutionReview)
  answer_review none new db = (err row_missing, db)
  answer_review (some r) new db = (ok (some r), new)

  -- SaveResolutionReview
  unfoldable pub save_resolution_review :
      ResolutionReview → Exec StoreError (Database Num) (Option ResolutionReview)
  unfolding is_request is_candidate_of revise_review answer_review
  save_resolution_review v db =
      if not (exists_where (is_request v.client_id v.request_id) db.requests)
      then (ok none, db)
      else if not (v.recording_id == "")
          && not (exists_where (is_candidate_of v.request_id v.recording_id) db.candidates)
      then (ok none, db)
      else let of_request = (λ (w : ResolutionReview). w.request_id == v.request_id) in
        let rows =
          (if exists_where of_request db.reviews
            then update_where of_request (revise_review v) db.reviews
            else db.reviews ++ (v ∷ [])) in
        answer_review
          (first_where (λ w. w.request_id == v.request_id && w.client_id == v.client_id) rows)
          (record db { reviews = rows }) db

  unfoldable pub claim_found :
      Option ResolutionRequest
      → ℕ
      → Exec StoreError (Database Num) (Option (ResolutionRequest × StoredTrackObservation))
  unfolding claim_row
  claim_found none now db = (ok none, db)
  claim_found (some r) now db =
      elim (first_where (λ o. o.id == r.observation_id && o.client_id == r.client_id)
        db.observations) [
          | none ↦ (err row_missing, db)
          | some o ↦ (
            ok (some (claim_row now r, o)),
            record db { requests = update_where (λ q. q.id == r.id) (claim_row now) db.requests },
          )
        ]

  -- ClaimResolution: `sooner` orders the rows by the texts of created_at and id.
  unfoldable pub claim_resolution :
      (ResolutionRequest → ResolutionRequest → Bool)
      → ℕ
      → Exec StoreError (Database Num) (Option (ResolutionRequest × StoredTrackObservation))
  unfolding oldest_queued claim_found
  claim_resolution sooner now db = claim_found (oldest_queued sooner db.requests) now db

  -- FailResolution
  unfoldable pub fail_resolution :
      String → String → String → ℕ → Exec StoreError (Database Num) (Unit {0})
  unfolding in_progress fail_row
  fail_resolution client_id request_id error_code at db = (
    ok tt,
    record db {
      requests =
          update_where (in_progress client_id request_id) (fail_row error_code at) db.requests;
    },
  )
