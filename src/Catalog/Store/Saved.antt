-- ===== src/Catalog/Store/Saved.antt =====
-- What is saved in the catalog is what is read from it.
use wildman_service.Base.{
  ℕ, ◌≡◌, refl, ap, ◌∙◌, true, Option, none, some, ◌++◌, eq_iff, first_where, delete_where,
  first_where-true, int_eq, string_eq, nat_eq, ◌==◌, eq_self, list_eq, upsert_where, upserted,
  first_where-upsert, ok,
}
use wildman_service.Catalog.{Recording, Release}
use wildman_service.Catalog.Rows.{
  RecordingRow, ReleaseRow, Tables, recording_row, renew_recording, release_row, renew_release,
  scan_release, null_string-nullable,
}
use wildman_service.Catalog.Store.{
  save_recording, save_release, get_release, get_artist, commit_or_fail, related_artists,
}
use wildman_service.Catalog.Store.Relations.{
  AreKnown, AreDistinct, replace_artists_lem, related_artists-relations, relations, is_of,
}

-- The row that an upsert leaves, read with the artists.
module _ (now : ℕ) where
  abbrev recording_saved : Recording → Option RecordingRow → RecordingRow
  recording_saved v old = upserted (renew_recording (recording_row now v)) (recording_row now v) old

  abbrev release_saved : Release → Option ReleaseRow → ReleaseRow
  release_saved v old = upserted (renew_release (release_row now v)) (release_row now v) old

  release_saved_lem :
      (v : Release) (old : Option ReleaseRow)
      → ((r : ReleaseRow) → old ≡ some r → (r.id == v.id) ≡ true)
      → ((release_saved v old).id ≡ v.id) × (scan_release (release_saved v old) v.artists ≡ v)
  unfolding scan_release renew_release release_row
  release_saved_lem v none k =
      (refl, rw (null_string-nullable "" v.release_date, null_string-nullable "" v.barcode) refl)
  release_saved_lem v (some r) k =
      let same = (eq_iff r.id v.id).0 (k r refl) in
      (
        same,
        rw (same, null_string-nullable "" v.release_date, null_string-nullable "" v.barcode) refl,
      )

module _ (now : ℕ) (t : Tables) where
  abbrev recording_after : Recording → Tables
  recording_after v = record t {
    recordings =
        upsert_where (λ r. r.id == v.id) (renew_recording (recording_row now v))
          (recording_row now v) t.recordings;
    recording_artists = delete_where (is_of v.id) t.recording_artists ++ relations v.id 0 v.artists;
  }

  pub saved_recording :
      (v : Recording)
      → AreKnown t v.artists
      → AreDistinct v.artists
      → save_recording now v t ≡ (ok tt, recording_after v)
  unfolding save_recording commit_or_fail
  saved_recording v known distinct =
      rw (replace_artists_lem t v.id v.artists t.recording_artists known distinct) refl

  abbrev release_after : Release → Tables
  release_after v = record t {
    releases =
        upsert_where (λ r. r.id == v.id) (renew_release (release_row now v)) (release_row now v)
          t.releases;
    release_artists = delete_where (is_of v.id) t.release_artists ++ relations v.id 0 v.artists;
  }

  pub saved_release :
      (v : Release)
      → AreKnown t v.artists
      → AreDistinct v.artists
      → save_release now v t ≡ (ok tt, release_after v)
  unfolding save_release commit_or_fail
  saved_release v known distinct =
      rw (replace_artists_lem t v.id v.artists t.release_artists known distinct) refl

  get_release_after :
      (v : Release) → AreKnown t v.artists → get_release (release_after v) v.id ≡ some v
  unfolding get_release get_artist release_row renew_release
  get_release_after v known =
      let old = first_where (λ r. r.id == v.id) t.releases in
      let (same, read) =
        release_saved_lem now v old (first_where-true (λ r. r.id == v.id) t.releases) in
      let saved =
        first_where-upsert (renew_release (release_row now v)) (release_row now v)
          (λ r. r.id == v.id) t.releases (eq_self v.id) (λ r. refl) in
      rw saved (
        ap some (
          ap
            (λ id.
              scan_release (release_saved now v old)
                (related_artists (release_after v) id (release_after v).release_artists))
            same
          ∙ ap (scan_release (release_saved now v old))
              (related_artists-relations (release_after v) v.id v.artists t.release_artists known)
          ∙ read))

  -- A release whose artists stand in the catalog, each named once, is saved, whatever was saved
  -- under its id before; it is then read as it was given, its artists in their order.
  pub save_release-get :
      (v : Release)
      → AreKnown t v.artists
      → AreDistinct v.artists
      → ((save_release now v t).0 ≡ ok tt) × (get_release (save_release now v t).1 v.id ≡ some v)
  save_release-get v known distinct =
      rw (saved_release v known distinct) (refl, get_release_after v known)
