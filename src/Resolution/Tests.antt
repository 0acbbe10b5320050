-- ===== src/Resolution/Tests.antt =====
-- One client with one observation and its requests, and the theorems at them.
use wildman_service.Base.{
  ℕ, String, ◌≡◌, refl, ◌≢◌, ◌↔◌, Bool, true, false, none, some, List, [], ◌∷◌, ltb, if◌then◌else◌,
  no_faults, first_where, exists_where, update_where, delete_where, int_eq, string_eq, nat_eq, ◌==◌,
  list_beq, list_eq, codes, ok, pos,
}
use wildman_service.Client
use wildman_service.Catalog.{
  TrackObservation, StoredTrackObservation, ResolutionRequest, queued, Candidate, Recording,
  ResolutionReview,
}
use wildman_service.Catalog.Rows.{no_tables, recording_row}
use wildman_service.Resolution.Tables.{
  claim_row, oldest_queued, has_status, sooner_of, is_request_of, insert_candidates, candidate_rows,
  have_referents, has_referents,
}
use wildman_service.Resolution.Store.{
  claim_found, request_insertable, answer_creation, create_resolution_request, keep_candidates,
  save_resolution_candidates, save_resolution_review, claim_resolution,
}
use wildman_service.Resolution.Ranking.{sort_candidates, number_candidates}
use wildman_service.Resolution.Service.{
  create_request, complete_request, report_review, review_refused,
}
use wildman_service.Resolution.Service.Idempotence.{create_request-again}
use wildman_service.Resolution.Service.Reviews.{IsReview, review_refused_iff}
use wildman_service.Resolution.Rows.{AreSound}
use wildman_service.Resolution.Claims.{claim_resolution-again}
use wildman_service.Resolution.Lifecycle.{Steps, start, step, creates, claims, Steps-AreSound}
use wildman_service.Database.{Database, CandidateRow, empty}

abbrev pub nas : Client.Installation
nas = record {
  id = "c1";
  name = codes "NAS";
  token_prefix = [];
  token_hash = "h";
  status = Client.active;
  created_by_user_id = "u";
  account_id = none;
  last_seen_at = none;
  revoked_at = none;
  created_at = 5;
}

abbrev pub song : TrackObservation
song = record {
  client_track_id = codes "t";
  file_name = codes "t.flac";
  title = codes "Song";
  artists = codes "Band" ∷ [];
  album = [];
  disc_number = none;
  track_number = none;
  duration_ms = some (pos 180000);
  format = codes "flac";
  fingerprint = [];
  observed_at = 7;
}

abbrev pub stored : StoredTrackObservation
stored = record {
  id = "o";
  client_id = "c1";
  observation = song;
  payload_hash = "p";
  created_at = 8;
  updated_at = 8;
}

abbrev pub db : Database ℕ
db = record empty { clients = nas ∷ []; observations = stored ∷ [] }

abbrev pub request : ResolutionRequest
request = record {
  id = "r";
  client_id = "c1";
  observation_id = "o";
  idempotency_key = "k";
  status = queued;
  last_error_code = "";
  created_at = 9;
  started_at = none;
  finished_at = none;
}

created : (create_request {Num = ℕ} no_faults "c1" "o" "k" "r" 9 db).0 ≡ ok (request, true)
unfolding create_request create_resolution_request request_insertable is_request_of answer_creation
    exists_where first_where list_beq
created = refl

create_request-again_example :
    let after = (create_request {Num = ℕ} no_faults "c1" "o" "k" "r" 9 db).1 in
    create_request no_faults "c1" "other" "k" "r2" 20 after ≡ (ok (request, false), after)
create_request-again_example =
    create_request-again no_faults no_faults "c1" "o" "other" "k" "r" "r2" 9 20 request true db
      created refl refl

abbrev pub recording_named : String → Recording
recording_named id = record {
  id = id;
  title = codes "Song";
  normalized_title = codes "song";
  artists = [];
  duration_ms = none;
  isrc = [];
}

abbrev pub scored : String → ℕ → Candidate ℕ
scored id score = record {
  id = "";
  rank = 0;
  source = "";
  sources = [];
  source_observation_id = "";
  recording = recording_named id;
  release = none;
  score = score;
  evidence = [];
  conflicts = [];
  tag_patch = [];
}

abbrev pub candidates : List (Candidate ℕ)
candidates = scored "a" 500 ∷ scored "b" 900 ∷ []

abbrev pub new_id : ℕ → String
new_id n = if n == 0 then "n0" else "n1"

abbrev pub with_request : Database ℕ
with_request = record db {
  requests = request ∷ [];
  catalog = record no_tables {
    recordings = recording_row 1 (recording_named "a") ∷ recording_row 1 (recording_named "b") ∷ [];
  };
}

pub completed :
    (complete_request no_faults ltb new_id "c1" "r" candidates 30 with_request).0 ≡ ok tt
unfolding complete_request save_resolution_candidates insert_candidates keep_candidates
    candidate_rows sort_candidates number_candidates delete_where exists_where have_referents
    has_referents recording_row
completed = refl

review_refused_iff_example :
    (review_refused "r" "accepted" "b" "failed" (codes "E_WRITE") ≡ false)
    ↔ IsReview "r" "accepted" "b" "failed" (codes "E_WRITE")
review_refused_iff_example = review_refused_iff "r" "accepted" "b" "failed" (codes "E_WRITE")

abbrev row : CandidateRow ℕ
row = record { request_id = "r"; candidate = scored "b" 900 }

abbrev with_candidate : Database ℕ
with_candidate = record with_request { candidates = row ∷ [] }

abbrev review : ResolutionReview
review = record {
  request_id = "r";
  client_id = "c1";
  decision = "accepted";
  recording_id = "b";
  writeback_status = "succeeded";
  writeback_error_code = "";
  reviewed_at = 40;
  writeback_at = some 40;
}

reported :
    (report_review {Num = ℕ} no_faults
      (λ _. "")
      "c1"
      "r"
      "accepted"
      "b"
      "succeeded"
      []
      40
      with_candidate).0
    ≡ ok review
unfolding report_review save_resolution_review review_refused exists_where first_where list_beq
reported = refl

abbrev sooner : ResolutionRequest → ResolutionRequest → Bool
sooner r q = ltb r.created_at q.created_at

abbrev claimed : Database ℕ
claimed = (claim_resolution sooner 15 (create_resolution_request request db).1).1

run : Steps db claimed
run = step (step start (creates request refl)) (claims sooner 15)

Steps-AreSound_example : AreSound claimed.requests
Steps-AreSound_example = Steps-AreSound run tt

abbrev second_request : ResolutionRequest
second_request = record request { id = "r2"; idempotency_key = "k2"; created_at = 10 }

abbrev two_requests : Database ℕ
two_requests = record db { requests = request ∷ second_request ∷ [] }

first_claim : (claim_resolution sooner 15 two_requests).0 ≡ ok (some (claim_row 15 request, stored))
unfolding claim_resolution claim_found claim_row oldest_queued has_status sooner_of first_where
first_claim = refl

second_claim :
    (claim_resolution sooner 16 (claim_resolution sooner 15 two_requests).1).0
    ≡ ok (some (claim_row 16 second_request, stored))
unfolding claim_resolution claim_found claim_row oldest_queued has_status sooner_of first_where
    update_where
second_claim = refl

claim_resolution-again_example : (claim_row 16 second_request).id ≢ (claim_row 15 request).id
claim_resolution-again_example =
    claim_resolution-again sooner sooner 15 16 (claim_row 15 request) (claim_row 16 second_request)
      stored stored two_requests first_claim second_claim
