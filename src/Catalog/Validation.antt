-- ===== src/Catalog/Validation.antt =====
-- The validation of an observation: internal/domain/catalog/observation_validation.go. The zero time is
-- the instant 0.
pub mod Accepts
use wildman_service.Base.{
  ℕ, zero, Bool, false, ◌||◌, Option, none, some, List, [], ◌∷◌, ltb, if◌then◌else◌, Result, length,
  ℤ, ltb_ℤ, int_eq, ◌==◌, nat_eq, string_eq, list_eq, Text, codes, byte_length, any_code,
  trim_space, ok, err, pos,
}
use wildman_service.Catalog.{TrackObservation}

-- The errors are the fields and reasons of ObservationValidationError.
pub data Invalid : Type 0 where
  client_track_id_required client_track_id_too_long file_name_too_long must_be_file_name : Invalid
  title_too_long too_many_artists artist_empty artist_too_long album_too_long : Invalid
  disc_number_out_of_range track_number_out_of_range duration_out_of_range : Invalid
  format_too_long fingerprint_too_long observed_at_required : Invalid

abbrev max_duration_ms : ℕ
max_duration_ms = 604800000

is_separator : ℕ → Bool
is_separator c = c == b'/' || c == 92

-- The test of the file name.
pub bad_file_name : Text → Bool
unfolding any_code is_separator
bad_file_name name = name == codes "." || name == codes ".." || any_code is_separator name

-- A number that is present and outside its bounds.
out_of_range : ℤ → ℤ → Option ℤ → Bool
out_of_range low high none = false
out_of_range low high (some n) = ltb_ℤ n low || ltb_ℤ high n

-- The loop over the artists, then the code after it.
validate_artists : List Text → Result Invalid (Unit {0}) → Result Invalid (Unit {0})
unfolding trim_space
validate_artists [] rest = rest
validate_artists (a ∷ names) rest =
    let later = validate_artists names rest in
    if trim_space a == []
    then err artist_empty
    else if ltb 200 (length a)
    then err artist_too_long
    else later

-- The second switch.
validate_rest : TrackObservation → Result Invalid (Unit {0})
unfolding out_of_range byte_length
validate_rest o =
    if ltb 500 (length o.album)
    then err album_too_long
    else if out_of_range (pos 1) (pos 999) o.disc_number
    then err disc_number_out_of_range
    else if out_of_range (pos 1) (pos 999) o.track_number
    then err track_number_out_of_range
    else if out_of_range (pos 0) (pos max_duration_ms) o.duration_ms
    then err duration_out_of_range
    else if ltb 32 (length o.format)
    then err format_too_long
    else if ltb 16384 (byte_length o.fingerprint)
    then err fingerprint_too_long
    else if o.observed_at == 0
    then err observed_at_required
    else ok tt

-- Validate
pub validate : TrackObservation → Result Invalid (Unit {0})
unfolding validate_artists validate_rest bad_file_name trim_space
validate o =
    if trim_space o.client_track_id == []
    then err client_track_id_required
    else if ltb 200 (length o.client_track_id)
    then err client_track_id_too_long
    else if ltb 255 (length o.file_name)
    then err file_name_too_long
    else if bad_file_name o.file_name
    then err must_be_file_name
    else if ltb 500 (length o.title)
    then err title_too_long
    else if ltb 32 (length o.artists)
    then err too_many_artists
    else validate_artists o.artists (validate_rest o)
