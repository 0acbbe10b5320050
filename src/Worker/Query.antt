-- ===== src/Worker/Query.antt =====
-- Candidates of the catalog and of the providers: internal/app/worker/service.go.
use wildman_service.Base.{
  ℕ, ◌*◌, String, Bool, true, not, ◌&&◌, ◌||◌, Option, none, some, List, [], ◌∷◌, ◌++◌, ltb,
  if◌then◌else◌, is_some, Exec, length, take, map_option, int_eq, ◌==◌, nat_eq, string_eq, list_eq,
  Text, codes, ok, err,
}
use wildman_service.Base64.{url, encode}
use wildman_service.Time.{day}
use wildman_service.Catalog.{
  TrackObservation, StoredTrackObservation, ResolutionRequest, Artist, Recording, Release,
  Candidate,
}
use wildman_service.Catalog
use wildman_service.Catalog.Normalization.{normalize_text}
use wildman_service.Catalog.Scoring.{score_candidate}
use wildman_service.Catalog.TagPatch.{generate_tag_patch}
use wildman_service.Provider.{RecordingQuery, RecordingCandidate, Provider}
use wildman_service.Provider.Sources.{record_source}
use wildman_service.Database.{Database}
use wildman_service.Worker.Model.{WorkerError, provider_query_failed, Environment}

module _ {Num : Type 0} (env : Environment Num) where
  -- sourceEntityID
  source_entity_id : String → String → Text → String
  unfolding encode
  source_entity_id provider entity_type external_id = env.spell (
      codes "source:"
      ++ encode url (
          take 16 (
            env.digest
              (codes provider ++ codes ":" ++ codes entity_type ++ codes ":" ++ external_id))))

  -- The loop over the names of the artists; `none` where one is not saved.
  save_artists : String → List Text → Option (List Artist)
  unfolding source_entity_id normalize_text
  save_artists provider [] = some []
  save_artists provider (name ∷ names) =
      let artist : Artist = record {
        id = source_entity_id provider "artist" name;
        name = name;
        normalized_name = normalize_text env.unicode name;
        sort_name = [];
      } in
      let rest = save_artists provider names in
      if env.repository.save_artist artist
      then map_option (λ artists. artist ∷ artists) rest
      else none

  release_of : String → RecordingCandidate → List Artist → Option Release
  unfolding source_entity_id normalize_text
  release_of provider source artists =
      if source.release_external_id == ""
      then none
      else some (record {
        id = source_entity_id provider "release" (codes source.release_external_id);
        title = source.release_title;
        normalized_title = normalize_text env.unicode source.release_title;
        artists = artists;
        release_date = "";
        barcode = "";
      })

  release_saved : Option Release → Bool
  release_saved none = true
  release_saved (some r) = env.repository.save_release r

  recording_of : String → RecordingCandidate → List Artist → Recording
  unfolding source_entity_id normalize_text
  recording_of provider source artists = record {
    id = source_entity_id provider "recording" (codes source.external_id);
    title = source.title;
    normalized_title = normalize_text env.unicode source.title;
    artists = artists;
    duration_ms = source.duration_ms;
    isrc = source.isrc;
  }

  -- The id of the recorded payload, empty where none is recorded.
  source_id : Provider → RecordingCandidate → Recording → ℕ → Exec WorkerError (Database Num) String
  unfolding record_source
  source_id p source recording now db =
      if env.records_sources && ltb 0 (length source.raw_payload)
      then (let (stored, db') =
            record_source (env.source_fault source) env.valid_json env.payload_digest p.name
              p.adapter_version Catalog.recording source.external_id recording.id source.raw_payload
              (7 * day) (env.source_row_id source) now db in
          elim stored [
            | ok (o, created) ↦ (ok o.id, db')
            | err _ ↦ (err provider_query_failed, db')
          ])
      else (ok "", db)

  -- The candidate of persistProviderCandidate, once everything is saved.
  provider_candidate :
      Provider → TrackObservation → Recording → Option Release → String → Candidate Num
  unfolding score_candidate generate_tag_patch
  provider_candidate p o recording release id =
      let candidate = record (score_candidate env.unicode env.num o recording release) {
        source = p.name;
        sources = p.name ∷ [];
        source_observation_id = id;
      } in
      record candidate { tag_patch = generate_tag_patch env.unicode o candidate none }

  -- persistProviderCandidate
  persist_provider_candidate :
      Provider
      → TrackObservation
      → RecordingCandidate
      → ℕ
      → Exec WorkerError (Database Num) (Candidate Num)
  unfolding save_artists release_of release_saved recording_of source_id provider_candidate
  persist_provider_candidate p o source now db = elim (save_artists p.name source.artists) [
    | none ↦ (err provider_query_failed, db)
    | some artists ↦
        let recording = recording_of p.name source artists in
        let release = release_of p.name source artists in
        if not (env.repository.save_recording recording) || not (release_saved release)
        then (err provider_query_failed, db)
        else let (id, db') = source_id p source recording now db in
          elim id [
            | ok id ↦ (ok (provider_candidate p o recording release id), db')
            | err e ↦ (err e, db')
          ]
  ]

  -- The test of a score, `>= 0.45`.
  good_enough : Candidate Num → Bool
  good_enough c = not (env.num.lt c.score (env.num.ratio 45 100))

  -- The loop over what a provider found, after the candidates that there are.
  persist_all :
      Provider
      → TrackObservation
      → ℕ
      → List RecordingCandidate
      → List (Candidate Num)
      → Exec WorkerError (Database Num) (List (Candidate Num))
  unfolding persist_provider_candidate good_enough
  persist_all p o now [] candidates db = (ok candidates, db)
  persist_all p o now (source ∷ sources) candidates db =
      let (r, db') = persist_provider_candidate p o source now db in
      elim r [
        | err e ↦ (err e, db')
        | ok c ↦
            persist_all p o now sources
              (if good_enough c then candidates ++ (c ∷ []) else candidates) db'
      ]

  -- The provider acoustid needs a fingerprint and a duration.
  skipped : Provider → RecordingQuery → Bool
  skipped p q = p.name == "acoustid" && (q.fingerprint == [] || not (is_some q.duration_ms))

  -- queryProviders, from the candidates and the success so far.
  unfoldable pub query_providers :
      TrackObservation
      → ℕ
      → List Provider
      → List (Candidate Num)
      → Bool
      → Exec WorkerError (Database Num) (List (Candidate Num) × Bool)
  unfolding persist_all skipped
  query_providers o now [] candidates successful db = (ok (candidates, successful), db)
  query_providers o now (p ∷ providers) candidates successful db =
      let query : RecordingQuery = record {
        title = o.title;
        artists = o.artists;
        album = o.album;
        duration_ms = o.duration_ms;
        fingerprint = o.fingerprint;
      } in
      let skip = query_providers o now providers candidates successful db in
      if skipped p query then skip else elim (p.search_recordings query) [
        | err _ ↦ skip
        | ok found ↦
            let (r, db') = persist_all p o now found candidates db in
            elim r [
              | err e ↦ (err e, db')
              | ok candidates' ↦ query_providers o now providers candidates' true db'
            ]
      ]

  -- The loop over the recordings of the catalog.
  unfoldable pub local_candidates : TrackObservation → List Recording → List (Candidate Num)
  unfolding score_candidate generate_tag_patch good_enough
  local_candidates o [] = []
  local_candidates o (r ∷ recordings) =
      let rest = local_candidates o recordings in
      let candidate = record (score_candidate env.unicode env.num o r none) {
        source = "catalog";
        sources = "catalog" ∷ [];
      } in
      if good_enough candidate
      then record candidate { tag_patch = generate_tag_patch env.unicode o candidate none } ∷ rest
      else rest
