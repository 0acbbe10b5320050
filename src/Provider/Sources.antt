-- ===== src/Provider/Sources.antt =====
-- What providers answered: internal/app/provider/source_recorder.go and
-- internal/infra/database/source_observation_store.go. `valid_json` is json.Valid, `digest` SHA-256
-- with its encoding; the id and the clock are arguments.
pub mod Once
use wildman_service.Base.{
  ℕ, ◌+◌, String, Bool, true, false, not, ◌&&◌, ◌||◌, Option, none, some, List, [], ◌∷◌, ◌++◌, ltb,
  if◌then◌else◌, Exec, raise, StoreError, call, first_where, exists_where, int_eq, ◌==◌, nat_eq,
  string_eq, list_eq, codes, trim_space, ok, err, constraint_violation, row_missing,
}
use wildman_service.Catalog.{SourceObservation, SourceEntityType}
use wildman_service.Catalog
use wildman_service.Database.{Database}

pub data SourceError : Type 0 where
  source_observation_invalid store_failed : SourceError

entity_beq : SourceEntityType → SourceEntityType → Bool
entity_beq Catalog.artist Catalog.artist = true
entity_beq Catalog.release Catalog.release = true
entity_beq Catalog.recording Catalog.recording = true
entity_beq _ _ = false

-- The unique constraint of source_observations.
unfoldable pub same_source : SourceObservation → SourceObservation → Bool
unfolding entity_beq
same_source o p =
    p.provider == o.provider
    && entity_beq p.entity_type o.entity_type
    && p.external_id == o.external_id
    && p.payload_hash == o.payload_hash

-- The row that Record asks the store for.
unfoldable pub new_source :
    (List ℕ → String)
    → String
    → String
    → SourceEntityType
    → String
    → String
    → List ℕ
    → ℕ
    → String
    → ℕ
    → SourceObservation
new_source digest provider version entity external_id canonical_id payload ttl id now = record {
  id = id;
  provider = provider;
  entity_type = entity;
  external_id = external_id;
  canonical_entity_id = canonical_id;
  payload_json = payload;
  payload_hash = digest payload;
  fetched_at = now;
  expires_at = if ltb 0 ttl then some (now + ttl) else none;
  adapter_version = version;
}

module _ {Num : Type 0} where
  answer_source :
      Bool
      → Option SourceObservation
      → Database Num
      → Exec StoreError (Database Num) (SourceObservation × Bool)
  answer_source inserted none new db = (err row_missing, db)
  answer_source inserted (some o) new db = (ok (o, inserted), new)

  -- CreateSourceObservation: ON CONFLICT ... DO NOTHING, then SELECT
  unfoldable pub create_source_observation :
      SourceObservation → Exec StoreError (Database Num) (SourceObservation × Bool)
  unfolding same_source answer_source
  create_source_observation o db =
      if exists_where (same_source o) db.sources
      then answer_source false (first_where (same_source o) db.sources) db db
      else if exists_where (λ p. p.id == o.id) db.sources
      then (err constraint_violation, db)
      else let rows = db.sources ++ (o ∷ []) in
        answer_source true (first_where (same_source o) rows) (record db { sources = rows }) db

  -- Record. The entity types that the test of the code lets through are those of SourceEntityType; a
  -- time to live is not negative here.
  unfoldable pub record_source :
      Bool
      → (List ℕ → Bool)
      → (List ℕ → String)
      → String
      → String
      → SourceEntityType
      → String
      → String
      → List ℕ
      → ℕ
      → String
      → ℕ
      → Exec SourceError (Database Num) (SourceObservation × Bool)
  unfolding trim_space new_source
  record_source fault valid_json digest provider version entity external_id canonical_id payload ttl
        id now =
      if trim_space (codes provider) == []
        || trim_space (codes version) == []
        || trim_space (codes external_id) == []
        || not (valid_json payload)
      then raise source_observation_invalid
      else call fault store_failed (
          create_source_observation
            (new_source digest provider version entity external_id canonical_id payload ttl id now))
