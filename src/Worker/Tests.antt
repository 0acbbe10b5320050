-- ===== src/Worker/Tests.antt =====
-- One queued request and no provider, and the theorem at them.
use wildman_service.Base.{
  ℕ, ◌≡◌, refl, true, false, none, some, [], ◌∷◌, ltb, no_faults, first_where, int_eq, string_eq,
  nat_eq, list_eq, codes, ok, pos,
}
use wildman_service.Unicode.{ascii}
use wildman_service.Catalog.{
  TrackObservation, StoredTrackObservation, ResolutionRequest, queued, matching,
}
use wildman_service.Catalog.Arithmetic.{thousandths}
use wildman_service.Resolution.Tables.{claim_row, oldest_queued, has_status, sooner_of}
use wildman_service.Resolution.Store.{claim_resolution, claim_found}
use wildman_service.Worker.Model.{Environment, WorkerFaults, Repository}
use wildman_service.Worker.Run.{run_once}
use wildman_service.Worker.Settles.{IsSettled, run_once-settles}
use wildman_service.Database.{Database, empty}

abbrev song : TrackObservation
song = record {
  client_track_id = codes "t";
  file_name = codes "t.flac";
  title = codes "Song";
  artists = codes "Band" ∷ [];
  album = [];
  disc_number = none;
  track_number = none;
  duration_ms = some (pos 180000);
  format = codes "flac";
  fingerprint = [];
  observed_at = 7;
}

abbrev stored : StoredTrackObservation
stored = record {
  id = "o";
  client_id = "c1";
  observation = song;
  payload_hash = "p";
  created_at = 8;
  updated_at = 8;
}

abbrev request : ResolutionRequest
request = record {
  id = "r";
  client_id = "c1";
  observation_id = "o";
  idempotency_key = "k";
  status = queued;
  last_error_code = "";
  created_at = 9;
  started_at = none;
  finished_at = none;
}

abbrev taken : ResolutionRequest
taken = record request { status = matching; started_at = some 15 }

abbrev db : Database ℕ
db = record empty { observations = stored ∷ []; requests = request ∷ [] }

abbrev catalogue : Repository
catalogue = record {
  find_recordings = λ _. none;
  save_artist = λ _. true;
  save_recording = λ _. true;
  save_release = λ _. true;
}

abbrev env : Environment ℕ
env = record {
  unicode = ascii;
  num = thousandths;
  repository = catalogue;
  providers = [];
  records_sources = false;
  valid_json = λ _. true;
  payload_digest = λ _. "h";
  source_fault = λ _. false;
  source_row_id = λ _. "s";
  digest = λ _. [];
  spell = λ _. "";
  sooner = λ r q. ltb r.created_at q.created_at;
  candidate_id = λ _. "id";
}

abbrev calm : WorkerFaults
calm = record { claim = false; metrics = false; fail = false; service = no_faults }

claimed : (claim_resolution env.sooner 15 db).0 ≡ ok (some (taken, stored))
unfolding claim_resolution claim_found claim_row oldest_queued has_status sooner_of first_where
claimed = refl

run_once-settles_example : IsSettled env calm 15 refl taken (run_once env calm 15 db).1
run_once-settles_example = run_once-settles env calm 15 refl refl refl taken stored db claimed
