-- ===== src/Catalog/TagPatch.antt =====
-- The suggested changes of the tags: internal/domain/catalog/tag_patch.go.
pub mod Fields
use wildman_service.Base.{
  String, Bool, true, not, ◌&&◌, Option, none, some, List, [], ◌∷◌, ◌++◌, ltb, if◌then◌else◌,
  length, ℤ, int_eq, ◌==◌, nat_eq, string_eq, list_eq, Text,
}
use wildman_service.Unicode.{Unicode}
use wildman_service.Catalog.{
  TrackObservation, Artist, Release, Track, TagValue, TagPatchOperation, Candidate,
}
use wildman_service.Catalog.Normalization.{normalize_text, normalized_artists}
use wildman_service.Catalog.Scoring.{same_string_set, artist_names}

-- textPatch
text_patch : String → Text → Text → String → TagPatchOperation
text_patch field current suggested source = record {
  field = field;
  current = record { text = some current; texts = []; number = none };
  suggested = record { text = some suggested; texts = []; number = none };
  source = source;
}

-- numberPatch
number_patch : String → Option ℤ → ℤ → String → TagPatchOperation
number_patch field current suggested source = record {
  field = field;
  current = record { text = none; texts = []; number = current };
  suggested = record { text = none; texts = []; number = some suggested };
  source = source;
}

artists_patch : List Text → List Text → String → TagPatchOperation
artists_patch current suggested source = record {
  field = "artists";
  current = record { text = none; texts = current; number = none };
  suggested = record { text = none; texts = suggested; number = none };
  source = source;
}

names_of : List Artist → List Text
names_of [] = []
names_of (a ∷ artists) = a.name ∷ names_of artists

-- A title that is suggested and differs in its normal form.
pub differs : Unicode → Text → Text → Bool
unfolding normalize_text
differs u current suggested =
    not (suggested == []) && not (normalize_text u current == normalize_text u suggested)

pub artists_differ : Unicode → List Text → List Artist → Bool
unfolding same_string_set normalized_artists artist_names
artists_differ u current artists =
    ltb 0 (length artists)
    && not (same_string_set (normalized_artists u current) (artist_names u artists))

pub number_differs : Option ℤ → ℤ → Bool
number_differs none n = true
number_differs (some m) n = not (m == n)

optional : Bool → TagPatchOperation → List TagPatchOperation
optional b op = if b then op ∷ [] else []

album_patch : Unicode → Text → Option Release → String → List TagPatchOperation
unfolding differs text_patch optional
album_patch u current none source = []
album_patch u current (some r) source =
    optional (differs u current r.title) (text_patch "album" current r.title source)

position_patch : TrackObservation → Option Track → String → List TagPatchOperation
unfolding number_differs number_patch optional
position_patch o none source = []
position_patch o (some t) source =
    optional (number_differs o.disc_number t.disc_number)
      (number_patch "discNumber" o.disc_number t.disc_number source)
    ++ optional (number_differs o.track_number t.track_number)
        (number_patch "trackNumber" o.track_number t.track_number source)

-- GenerateTagPatch
unfoldable pub generate_tag_patch :
    {Num : Type 0}
    → Unicode
    → TrackObservation
    → Candidate Num
    → Option Track
    → List TagPatchOperation
unfolding differs artists_differ text_patch artists_patch names_of optional album_patch
    position_patch
generate_tag_patch u o c track =
    optional (differs u o.title c.recording.title)
      (text_patch "title" o.title c.recording.title c.source)
    ++ optional (artists_differ u o.artists c.recording.artists)
        (artists_patch o.artists (names_of c.recording.artists) c.source)
    ++ album_patch u o.album c.release c.source
    ++ position_patch o track c.source
    ++ optional (not (c.recording.isrc == [])) (text_patch "isrc" [] c.recording.isrc c.source)
