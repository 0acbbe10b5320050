-- ===== src/Catalog/Validation/Accepts.antt =====
-- What a valid observation is.
use wildman_service.Base.{
  ℕ, ◌≤◌, ◌≡◌, refl, ◌≢◌, ◌↔◌, false, Option, none, some, List, [], ◌∷◌, arith, Result, length, All,
  ℤ, int_eq, nat_eq, string_eq, list_beq_iff, list_eq, Text, byte_length, trim_space, ok, pos,
  negsuc,
}
use wildman_service.Catalog.{TrackObservation}
use wildman_service.Catalog.Validation.{
  max_duration_ms, bad_file_name, out_of_range, validate_artists, validate_rest, validate,
}

abbrev Within : ℕ → ℕ → Option ℤ → Type 0
Within low high none = Unit
Within low high (some n) = (m : ℕ) × (n ≡ pos m) × (low ≤ m) × (m ≤ high)

-- The bounds of the interface's documentation, field by field.
pub record IsValid (o : TrackObservation) : Type 0 where
  pub client_track_id : (trim_space o.client_track_id ≢ []) × (length o.client_track_id ≤ 200)
  pub file_name : (length o.file_name ≤ 255) × (bad_file_name o.file_name ≡ false)
  pub title : length o.title ≤ 500
  pub artists :
      (length o.artists ≤ 32) × All (λ a. (trim_space a ≢ []) × (length a ≤ 200)) o.artists
  pub album : length o.album ≤ 500
  pub disc_number : Within 1 999 o.disc_number
  pub track_number : Within 1 999 o.track_number
  pub duration_ms : Within 0 max_duration_ms o.duration_ms
  pub format : length o.format ≤ 32
  pub fingerprint : byte_length o.fingerprint ≤ 16384
  pub observed_at : o.observed_at ≢ 0

in_range_iff :
    (low high : ℕ) (o : Option ℤ)
    → (out_of_range (pos low) (pos high) o ≡ false) ↔ Within low high o
unfolding out_of_range
in_range_iff low high none = (λ _. tt, λ _. refl)
in_range_iff low high (some (pos m)) =
    (λ h. (m, refl, ground (arith, h), ground (arith, h)), λ (m', e, a, b). ground (arith, e, a, b))
in_range_iff low high (some (negsuc m)) = (λ h. absurd (ground (arith, h)), λ (m', e, a, b). cc)

artists_iff :
    (names : List Text) (rest : Result _ (Unit {0}))
    → (validate_artists names rest ≡ ok tt)
      ↔ (All (λ a. (trim_space a ≢ []) × (length a ≤ 200)) names × (rest ≡ ok tt))
unfolding validate_artists
artists_iff [] rest = (λ h. (tt, h), λ h. h.1)
artists_iff (a ∷ names) rest =
    ground (arith, artists_iff names rest, list_beq_iff (trim_space a) [])

rest_iff :
    (o : TrackObservation)
    → (validate_rest o ≡ ok tt) ↔ (
        (length o.album ≤ 500)
        × (out_of_range (pos 1) (pos 999) o.disc_number ≡ false)
        × (out_of_range (pos 1) (pos 999) o.track_number ≡ false)
        × (out_of_range (pos 0) (pos max_duration_ms) o.duration_ms ≡ false)
        × (length o.format ≤ 32)
        × (byte_length o.fingerprint ≤ 16384)
        × (o.observed_at ≢ 0))
unfolding validate_rest
rest_iff o = ground arith

-- An observation is accepted exactly when every field is in the documented bounds.
pub validate_iff : (o : TrackObservation) → (validate o ≡ ok tt) ↔ IsValid o
unfolding validate
validate_iff o = (forth, back)
  where
    steps : (validate o ≡ ok tt) ↔ (
        (trim_space o.client_track_id ≢ [])
        × (length o.client_track_id ≤ 200)
        × (length o.file_name ≤ 255)
        × (bad_file_name o.file_name ≡ false)
        × (length o.title ≤ 500)
        × (length o.artists ≤ 32)
        × (validate_artists o.artists (validate_rest o) ≡ ok tt))
    steps = ground (arith, list_beq_iff (trim_space o.client_track_id) [])

    forth : validate o ≡ ok tt → IsValid o
    forth h =
        let (id, id_short, name_short, name, title, few, more) = steps.0 h in
        let (names, after) = (artists_iff o.artists (validate_rest o)).0 more in
        let (album, disc, track, duration, format, fingerprint, seen) = (rest_iff o).0 after in
        record {
          client_track_id = (id, id_short);
          file_name = (name_short, name);
          title = title;
          artists = (few, names);
          album = album;
          disc_number = (in_range_iff 1 999 o.disc_number).0 disc;
          track_number = (in_range_iff 1 999 o.track_number).0 track;
          duration_ms = (in_range_iff 0 max_duration_ms o.duration_ms).0 duration;
          format = format;
          fingerprint = fingerprint;
          observed_at = seen;
        }

    back : IsValid o → validate o ≡ ok tt
    back v =
        let rest = (rest_iff o).1 (
          v.album,
          (in_range_iff 1 999 o.disc_number).1 v.disc_number,
          (in_range_iff 1 999 o.track_number).1 v.track_number,
          (in_range_iff 0 max_duration_ms o.duration_ms).1 v.duration_ms,
          v.format,
          v.fingerprint,
          v.observed_at,
        ) in
        steps.1 (
          v.client_track_id.0,
          v.client_track_id.1,
          v.file_name.0,
          v.file_name.1,
          v.title,
          v.artists.0,
          (artists_iff o.artists (validate_rest o)).1 (v.artists.1, rest),
        )
