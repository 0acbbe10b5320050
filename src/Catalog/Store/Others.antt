-- ===== src/Catalog/Store/Others.antt =====
-- What a save in the catalog leaves alone.
use wildman_service.Base.{
  ℕ, String, ◌≡◌, refl, sym, ap, ◌∙◌, ◌≢◌, inl, inr, true, false, Option, none, some, List, [], ◌∷◌,
  arith, eq_iff, Option-cases, map_option, first_where, first_where-true, int_eq, string_eq, nat_eq,
  ◌==◌, list_eq, select_where, upsert_where, order_by, first_where-upsert_other,
}
use wildman_service.Catalog.{Recording}
use wildman_service.Catalog.Rows.{
  RecordingRow, RelationRow, Tables, recording_row, renew_recording, scan_recording,
}
use wildman_service.Catalog.Store.{
  save_recording, get_recording, get_artist, replace_artists, commit_or_fail, join_artists,
  related_artists, later_position,
}
use wildman_service.Catalog.Store.Relations.{replace_artists-others, is_of}

-- The artists of relations are read from the table of artists only.
join_artists_frame :
    (t u : Tables) (rows : List RelationRow)
    → t.artists ≡ u.artists
    → join_artists t rows ≡ join_artists u rows
unfolding join_artists get_artist
join_artists_frame t u [] e = refl
join_artists_frame t u (r ∷ rows) e = rw (e, join_artists_frame t u rows e) refl

module _ (now : ℕ) (t : Tables) where
  others_of :
      (v : Recording) (id : String) (rows : List RelationRow) (r : Option RecordingRow)
      → id ≢ v.id
      → replace_artists t.artists v.id v.artists t.recording_artists ≡ some rows
      → ((a : RecordingRow) → r ≡ some a → (a.id == id) ≡ true)
      → (u : Tables) → u.artists ≡ t.artists
      → map_option (λ a. scan_recording a (related_artists u a.id rows)) r
        ≡ map_option (λ a. scan_recording a (related_artists t a.id t.recording_artists)) r
  unfolding related_artists
  others_of v id rows none apart h k u e = refl
  others_of v id rows (some a) apart h k u e =
      let away : a.id ≢ v.id = λ p. apart (sym ((eq_iff a.id id).0 (k a refl)) ∙ p) in
      ap (λ artists. some (scan_recording a artists))
        (join_artists_frame u t (order_by later_position (select_where (is_of a.id) rows)) e
          ∙ ap (λ chosen. join_artists t (order_by later_position chosen))
              (replace_artists-others t v.id a.id away v.artists t.recording_artists rows h))

  -- Saving a recording, also where it fails, leaves what is read under every other id.
  pub save_recording-others :
      (v : Recording) (id : String)
      → id ≢ v.id
      → get_recording (save_recording now v t).1 id ≡ get_recording t id
  unfolding save_recording get_recording commit_or_fail recording_row renew_recording
  save_recording-others v id apart =
      elim (Option-cases (replace_artists t.artists v.id v.artists t.recording_artists)) [
        | inl refused ↦ rw refused refl
        | inr (rows, h) ↦
            let unsaved : (v.id == id) ≡ false = ground (arith, eq_iff v.id id, apart) in
            let chosen = (λ (r : RecordingRow). r.id == id) in
            let same =
              first_where-upsert_other (renew_recording (recording_row now v)) (recording_row now v)
                (λ r. r.id == v.id) chosen t.recordings unsaved (λ r. refl)
                (λ r e. ground (arith, eq_iff r.id id, eq_iff r.id v.id, e, apart)) in
            let u : Tables = record t {
              recordings =
                  upsert_where (λ r. r.id == v.id) (renew_recording (recording_row now v))
                    (recording_row now v) t.recordings;
              recording_artists = rows;
            } in
            rw (h, same)
              (others_of v id rows (first_where chosen t.recordings) apart h
                (first_where-true chosen t.recordings) u refl)
      ]
