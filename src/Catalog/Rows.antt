-- ===== src/Catalog/Rows.antt =====
-- The tables of the catalog in internal/infra/database/migrations: a column that may be NULL holds an
-- option. The times of creation and of the last change are kept, though nothing reads them.
use wildman_service.Base.{
  ℕ, String, ◌≡◌, refl, sym, inl, inr, Option, none, some, List, [], if◌then◌else◌, Bool-cases, ℤ,
  int_eq, Comparable, string_eq, nat_eq, list_eq, Text,
}
use wildman_service.Catalog.{Artist, Recording, Release, Track}

-- catalog_artists
pub record ArtistRow : Type 0 where
  pub id : String
  pub name : Text
  pub normalized_name : Text
  pub sort_name : Option Text
  pub created_at : ℕ
  pub updated_at : ℕ

-- catalog_releases
pub record ReleaseRow : Type 0 where
  pub id : String
  pub title : Text
  pub normalized_title : Text
  pub release_date : Option String
  pub barcode : Option String
  pub created_at : ℕ
  pub updated_at : ℕ

-- catalog_recordings
pub record RecordingRow : Type 0 where
  pub id : String
  pub title : Text
  pub normalized_title : Text
  pub duration_ms : Option ℤ
  pub isrc : Option Text
  pub created_at : ℕ
  pub updated_at : ℕ

-- catalog_release_artists and catalog_recording_artists: the entity is the release or the recording.
pub record RelationRow : Type 0 where
  pub entity_id : String
  pub artist_id : String
  pub position : ℕ

-- catalog_tracks
pub record TrackRow : Type 0 where
  pub track : Track
  pub created_at : ℕ
  pub updated_at : ℕ

pub record Tables : Type 0 where
  pub artists : List ArtistRow
  pub releases : List ReleaseRow
  pub recordings : List RecordingRow
  pub release_artists : List RelationRow
  pub recording_artists : List RelationRow
  pub tracks : List TrackRow

abbrev pub no_tables : Tables
no_tables = record {
  artists = [];
  releases = [];
  recordings = [];
  release_artists = [];
  recording_artists = [];
  tracks = [];
}

module _ {A : Type 0} ⦃e : Comparable A⦄ where
  -- nullableString, at a type with its empty value: that value is stored as NULL.
  unfoldable pub nullable : A → A → Option A
  nullable nothing a = if e.same a nothing then none else some a

  -- The field String of a NullString.
  unfoldable pub null_string : A → Option A → A
  null_string nothing none = nothing
  null_string nothing (some a) = a

  pub null_string-nullable : (nothing a : A) → null_string nothing (nullable nothing a) ≡ a
  unfolding nullable null_string
  null_string-nullable nothing a = elim (Bool-cases (e.same a nothing)) [
    | inl same ↦ rw same (sym ((e.same_iff a nothing).0 same))
    | inr differs ↦ rw differs refl
  ]

-- The columns of a row that is inserted at a time.
unfoldable pub artist_row : ℕ → Artist → ArtistRow
unfolding nullable
artist_row now a = record {
  id = a.id;
  name = a.name;
  normalized_name = a.normalized_name;
  sort_name = nullable [] a.sort_name;
  created_at = now;
  updated_at = now;
}

unfoldable pub release_row : ℕ → Release → ReleaseRow
unfolding nullable
release_row now r = record {
  id = r.id;
  title = r.title;
  normalized_title = r.normalized_title;
  release_date = nullable "" r.release_date;
  barcode = nullable "" r.barcode;
  created_at = now;
  updated_at = now;
}

unfoldable pub recording_row : ℕ → Recording → RecordingRow
unfolding nullable
recording_row now r = record {
  id = r.id;
  title = r.title;
  normalized_title = r.normalized_title;
  duration_ms = r.duration_ms;
  isrc = nullable [] r.isrc;
  created_at = now;
  updated_at = now;
}

-- The SET clauses of the upserts: the time of the creation stays, and so does the id, which is that
-- of the conflict.
unfoldable pub renew_artist : ArtistRow → ArtistRow → ArtistRow
renew_artist new old = record new { id = old.id; created_at = old.created_at }

unfoldable pub renew_release : ReleaseRow → ReleaseRow → ReleaseRow
renew_release new old = record new { id = old.id; created_at = old.created_at }

unfoldable pub renew_recording : RecordingRow → RecordingRow → RecordingRow
renew_recording new old = record new { id = old.id; created_at = old.created_at }

-- scanArtist
unfoldable pub scan_artist : ArtistRow → Artist
unfolding null_string
scan_artist r = record {
  id = r.id;
  name = r.name;
  normalized_name = r.normalized_name;
  sort_name = null_string [] r.sort_name;
}

-- scanRelease: the artists are read afterwards.
unfoldable pub scan_release : ReleaseRow → List Artist → Release
unfolding null_string
scan_release r artists = record {
  id = r.id;
  title = r.title;
  normalized_title = r.normalized_title;
  artists = artists;
  release_date = null_string "" r.release_date;
  barcode = null_string "" r.barcode;
}

-- scanRecording
unfoldable pub scan_recording : RecordingRow → List Artist → Recording
unfolding null_string
scan_recording r artists = record {
  id = r.id;
  title = r.title;
  normalized_title = r.normalized_title;
  artists = artists;
  duration_ms = r.duration_ms;
  isrc = null_string [] r.isrc;
}
