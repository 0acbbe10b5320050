-- ===== src/Catalog/Tests.antt =====
-- One observation, recordings that do and do not fit it, and the theorems at them.
use wildman_service.Base.{
  ℕ, ◌≤◌, String, ◌≡◌, refl, ◌≢◌, ◌↔◌, true, false, none, some, [], ◌∷◌, reverse, int_eq, string_eq,
  nat_eq, list_beq, list_eq, codes, trim_space, ok, pos,
}
use wildman_service.Unicode.{ascii}
use wildman_service.Catalog.{TrackObservation, Artist, Recording, Candidate}
use wildman_service.Catalog.Arithmetic.{thousandths}
use wildman_service.Catalog.EditDistance.{edit_distance}
use wildman_service.Catalog.EditDistance.Least.{Edits, edit_distance-Edits}
use wildman_service.Catalog.Validation.{validate}
use wildman_service.Catalog.Validation.Accepts.{IsValid, validate_iff}
use wildman_service.Catalog.Normalization.{normalize_text, normalized_artists}
use wildman_service.Catalog.Normalization.Words.{well_spaced, normalize_text-well_spaced}
use wildman_service.Catalog.Scoring.{score_candidate, artist_names}
use wildman_service.Catalog.Scoring.Agreement.{score_candidate-agrees}

abbrev song : TrackObservation
song = record {
  client_track_id = codes "t";
  file_name = codes "t.flac";
  title = codes "The Song";
  artists = codes "Band" ∷ [];
  album = [];
  disc_number = none;
  track_number = none;
  duration_ms = some (pos 180000);
  format = codes "flac";
  fingerprint = [];
  observed_at = 7;
}

abbrev band : Artist
band = record { id = "a"; name = codes "Band"; normalized_name = codes "band"; sort_name = [] }

abbrev recorded : Recording
recorded = record {
  id = "r";
  title = codes "The Song";
  normalized_title = codes "the song";
  artists = band ∷ [];
  duration_ms = some (pos 180000);
  isrc = codes "x1";
}

kitten : edit_distance (codes "kitten") (codes "sitting") ≡ 3
unfolding edit_distance
kitten = refl

edit_distance-Edits_example :
    Edits
      (reverse (codes "kitten"))
      (reverse (codes "sitting"))
      (edit_distance (codes "kitten") (codes "sitting"))
    × ((n : ℕ)
        → Edits (reverse (codes "kitten")) (reverse (codes "sitting")) n
        → edit_distance (codes "kitten") (codes "sitting") ≤ n)
edit_distance-Edits_example = edit_distance-Edits (codes "kitten") (codes "sitting")

validate_iff_example : (validate song ≡ ok tt) ↔ IsValid song
validate_iff_example = validate_iff song

normal : normalize_text ascii (codes "  The   SONG! ") ≡ codes "the song"
unfolding normalize_text trim_space
normal = refl

normalize_text-well_spaced_example :
    well_spaced ascii false (normalize_text ascii (codes "  The   SONG! ")) ≡ true
normalize_text-well_spaced_example = normalize_text-well_spaced ascii (codes "  The   SONG! ")

title_word : normalize_text ascii song.title ≢ []
unfolding normalize_text trim_space
title_word h = cc

same_artists : normalized_artists ascii song.artists ≡ artist_names ascii recorded.artists
unfolding normalized_artists artist_names normalize_text trim_space list_beq
same_artists = refl

score_candidate-agrees_example :
    (score_candidate ascii thousandths song recorded none).conflicts ≡ []
score_candidate-agrees_example =
    score_candidate-agrees ascii thousandths song recorded (pos 180000) refl refl title_word
      same_artists refl refl

abbrev candidate_from : String → Candidate ℕ
candidate_from source = record {
  id = "";
  rank = 0;
  source = source;
  sources = [];
  source_observation_id = "";
  recording = recorded;
  release = none;
  score = 700;
  evidence = [];
  conflicts = [];
  tag_patch = [];
}
