-- ===== src/Catalog/Store.antt =====
-- CatalogStore: internal/infra/database/catalog_store.go. Each method is a function of the tables; a
-- statement that breaks a constraint of the schema fails, and its transaction changes nothing.
pub mod Relations
pub mod Saved
pub mod Others
pub mod Tests
use wildman_service.Base.{
  ℕ, ◌+◌, String, Bool, not, ◌&&◌, ◌||◌, Option, none, some, List, [], ◌∷◌, ◌++◌, map, ltb,
  if◌then◌else◌, Exec, StoreError, map_option, first_where, exists_where, delete_where, int_eq,
  string_eq, nat_eq, ◌==◌, list_eq, Text, select_where, upsert_where, order_by, ok, err,
  constraint_violation,
}
use wildman_service.Catalog.{Artist, Recording, Release, Track}
use wildman_service.Catalog.Rows.{
  ArtistRow, ReleaseRow, RecordingRow, RelationRow, TrackRow, Tables, artist_row, release_row,
  recording_row, renew_artist, renew_release, renew_recording, scan_artist, scan_release,
  scan_recording,
}

-- SaveArtist
unfoldable pub save_artist : ℕ → Artist → Exec StoreError Tables (Unit {0})
unfolding artist_row renew_artist
save_artist now a t = (
  ok tt,
  record t {
    artists =
        upsert_where (λ r. r.id == a.id) (renew_artist (artist_row now a)) (artist_row now a)
          t.artists;
  },
)

-- PRIMARY KEY (entity, artist) and UNIQUE (entity, position)
unfoldable pub clashes : String → String → ℕ → RelationRow → Bool
clashes entity_id artist_id position r =
    r.entity_id == entity_id && (r.artist_id == artist_id || r.position == position)

-- The loop over the artists, from a position on; `none` where an INSERT fails.
unfoldable pub insert_relations :
    List ArtistRow → String → ℕ → List Artist → List RelationRow → Option (List RelationRow)
unfolding clashes
insert_relations known entity_id position [] rows = some rows
insert_relations known entity_id position (a ∷ more) rows =
    let added =
      rows ++ (record { entity_id = entity_id; artist_id = a.id; position = position } ∷ []) in
    let rest = insert_relations known entity_id (position + 1) more added in
    if exists_where (λ r. r.id == a.id) known
      && not (exists_where (clashes entity_id a.id position) rows)
    then rest
    else none

-- replaceReleaseArtists and replaceRecordingArtists, which differ in the table.
unfoldable pub replace_artists :
    List ArtistRow → String → List Artist → List RelationRow → Option (List RelationRow)
unfolding insert_relations
replace_artists known entity_id artists rows =
    insert_relations known entity_id 0 artists (delete_where (λ r. r.entity_id == entity_id) rows)

unfoldable pub commit_or_fail :
    {A : Type 0} → Option A → (A → Tables) → Exec StoreError Tables (Unit {0})
commit_or_fail none f t = (err constraint_violation, t)
commit_or_fail (some a) f t = (ok tt, f a)

-- SaveRelease
unfoldable pub save_release : ℕ → Release → Exec StoreError Tables (Unit {0})
unfolding release_row renew_release replace_artists commit_or_fail
save_release now v t =
    let saved =
      upsert_where (λ r. r.id == v.id) (renew_release (release_row now v)) (release_row now v)
        t.releases in
    commit_or_fail (replace_artists t.artists v.id v.artists t.release_artists)
      (λ rows. record t { releases = saved; release_artists = rows }) t

-- SaveRecording
unfoldable pub save_recording : ℕ → Recording → Exec StoreError Tables (Unit {0})
unfolding recording_row renew_recording replace_artists commit_or_fail
save_recording now v t =
    let saved =
      upsert_where (λ r. r.id == v.id) (renew_recording (recording_row now v)) (recording_row now v)
        t.recordings in
    commit_or_fail (replace_artists t.artists v.id v.artists t.recording_artists)
      (λ rows. record t { recordings = saved; recording_artists = rows }) t

-- UNIQUE (release_id, disc_number, track_number), at another row.
unfoldable pub takes_place : Track → TrackRow → Bool
takes_place v r =
    not (r.track.id == v.id)
    && (r.track.release_id == v.release_id)
    && (r.track.disc_number == v.disc_number)
    && (r.track.track_number == v.track_number)

-- SaveTrack
unfoldable pub save_track : ℕ → Track → Exec StoreError Tables (Unit {0})
unfolding takes_place
save_track now v t =
    if exists_where (λ r. r.id == v.release_id) t.releases
      && exists_where (λ r. r.id == v.recording_id) t.recordings
      && not (exists_where (takes_place v) t.tracks)
    then (
      ok tt,
      record t {
        tracks =
            upsert_where (λ r. r.track.id == v.id) (λ r. record r { track = v; updated_at = now })
              (record { track = v; created_at = now; updated_at = now }) t.tracks;
      },
    )
    else (err constraint_violation, t)

-- GetArtist
unfoldable pub get_artist : Tables → String → Option Artist
unfolding scan_artist
get_artist t id = map_option scan_artist (first_where (λ r. r.id == id) t.artists)

abbrev joined : Option Artist → List Artist → List Artist
joined none rest = rest
joined (some a) rest = a ∷ rest

-- The JOIN, for relations that are in order.
unfoldable pub join_artists : Tables → List RelationRow → List Artist
unfolding get_artist
join_artists t [] = []
join_artists t (r ∷ rs) = joined (get_artist t r.artist_id) (join_artists t rs)

unfoldable pub later_position : RelationRow → RelationRow → Bool
later_position a b = ltb b.position a.position

-- relatedArtists
unfoldable pub related_artists : Tables → String → List RelationRow → List Artist
unfolding join_artists later_position
related_artists t entity_id rows =
    join_artists t (order_by later_position (select_where (λ r. r.entity_id == entity_id) rows))

-- GetRelease
unfoldable pub get_release : Tables → String → Option Release
unfolding scan_release related_artists
get_release t id =
    map_option (λ r. scan_release r (related_artists t r.id t.release_artists))
      (first_where (λ r. r.id == id) t.releases)

-- GetRecording
unfoldable pub get_recording : Tables → String → Option Recording
unfolding scan_recording related_artists
get_recording t id =
    map_option (λ r. scan_recording r (related_artists t r.id t.recording_artists))
      (first_where (λ r. r.id == id) t.recordings)

-- GetTrack
unfoldable pub get_track : Tables → String → Option Track
get_track t id = map_option (λ r. r.track) (first_where (λ r. r.track.id == id) t.tracks)

-- The order of two texts in the database is an argument, `after`, of the queries that sort by it:
-- the left row goes after the right one in `ORDER BY name, id`.
module _ (after : Text × String → Text × String → Bool) where
  -- FindArtists
  unfoldable pub find_artists : Tables → Text → List Artist
  unfolding scan_artist
  find_artists t normalized_name = map scan_artist (
      order_by (λ a b. after (a.name, a.id) (b.name, b.id))
        (select_where (λ r. r.normalized_name == normalized_name) t.artists))

  -- FindReleases
  unfoldable pub find_releases : Tables → Text → List Release
  unfolding scan_release related_artists
  find_releases t normalized_title =
      map (λ r. scan_release r (related_artists t r.id t.release_artists))
        (order_by (λ a b. after (a.title, a.id) (b.title, b.id))
          (select_where (λ r. r.normalized_title == normalized_title) t.releases))

  -- FindRecordings
  unfoldable pub find_recordings : Tables → Text → List Recording
  unfolding scan_recording related_artists
  find_recordings t normalized_title =
      map (λ r. scan_recording r (related_artists t r.id t.recording_artists))
        (order_by (λ a b. after (a.title, a.id) (b.title, b.id))
          (select_where (λ r. r.normalized_title == normalized_title) t.recordings))
