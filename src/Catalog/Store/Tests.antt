-- ===== src/Catalog/Store/Tests.antt =====
-- A catalog with two artists, and the theorems at it.
use wildman_service.Base.{
  String, ◌≡◌, some, List, [], ◌∷◌, arith, eq_iff, int_eq, string_eq, nat_eq, list_eq, codes, pos,
}
use wildman_service.Catalog.{Artist, Recording, Release}
use wildman_service.Catalog.Rows.{Tables, no_tables, artist_row}
use wildman_service.Catalog.Store.{save_recording, get_recording}
use wildman_service.Catalog.Store.Others.{save_recording-others}

abbrev artist_named : String → Artist
artist_named id = record {
  id = id;
  name = codes "Band";
  normalized_name = codes "band";
  sort_name = [];
}

abbrev catalog : Tables
catalog = record no_tables {
  artists = artist_row 1 (artist_named "a") ∷ artist_row 2 (artist_named "b") ∷ [];
}

abbrev duet : List Artist
duet = artist_named "b" ∷ artist_named "a" ∷ []

abbrev song : Recording
song = record {
  id = "s";
  title = codes "Song";
  normalized_title = codes "song";
  artists = duet;
  duration_ms = some (pos 180000);
  isrc = [];
}

abbrev album : Release
album = record {
  id = "l";
  title = codes "Album";
  normalized_title = codes "album";
  artists = duet;
  release_date = "2001";
  barcode = "";
}

save_recording-others_example :
    get_recording (save_recording 5 song catalog).1 "other" ≡ get_recording catalog "other"
save_recording-others_example =
    save_recording-others 5 catalog song "other" (λ e. ground (arith, eq_iff "other" "s", e))
