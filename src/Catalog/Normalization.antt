-- ===== src/Catalog/Normalization.antt =====
-- Normal forms of texts: internal/domain/catalog/normalization.go.
pub mod Words
use wildman_service.Base.{
  ℕ, String, Bool, true, false, ◌&&◌, ◌||◌, Option, List, [], ◌∷◌, ◌++◌, map, if◌then◌else◌, ℤ,
  int_eq, ◌==◌, nat_eq, string_eq, list_eq, Text, codes, has_prefix, has_suffix, has_infix,
  trim_space,
}
use wildman_service.Unicode.{Unicode, to_lower}
use wildman_service.Catalog.{TrackObservation}

is_word : Unicode → ℕ → Bool
is_word u c = u.is_letter c || u.is_number c

-- The loop, from the two facts that it keeps: whether a space is pending and whether something was
-- written.
write_words : Unicode → Bool → Bool → Text → Text
unfolding is_word
write_words u pending written [] = []
write_words u pending written (c ∷ s) =
    let word = write_words u false true s in
    let gap = write_words u (if written then true else pending) written s in
    if is_word u c then (if pending && written then b' ' ∷ c ∷ word else c ∷ word) else gap

-- NormalizeText
unfoldable pub normalize_text : Unicode → Text → Text
unfolding write_words trim_space
normalize_text u value = write_words u false false (to_lower u (trim_space value))

-- containsNormalizedPhrase
contains_phrase : Text → Text → Bool
unfolding has_prefix has_suffix has_infix
contains_phrase value phrase =
    if value == phrase
    then true
    else has_prefix value (phrase ++ (b' ' ∷ []))
      || has_suffix value (b' ' ∷ phrase)
      || has_infix value (b' ' ∷ phrase ++ (b' ' ∷ []))

-- An entry of versionKeywords.
pub record Keyword : Type 0 where
  pub canonical : Text
  pub aliases : List Text

abbrev keyword : String → List String → Keyword
keyword name others = record { canonical = codes name; aliases = codes name ∷ map codes others }

version_keywords : List Keyword
version_keywords =
    keyword "live" ("现场" ∷ "演唱会" ∷ [])
    ∷ keyword "remaster" ("remastered" ∷ "重制" ∷ "重制版" ∷ [])
    ∷ keyword "deluxe" ("豪华" ∷ "豪华版" ∷ [])
    ∷ keyword "acoustic" ("不插电" ∷ [])
    ∷ keyword "instrumental" ("伴奏" ∷ "纯音乐" ∷ [])
    ∷ keyword "karaoke" ("卡拉ok" ∷ [])
    ∷ keyword "mono" ("单声道" ∷ [])
    ∷ keyword "stereo" ("立体声" ∷ [])
    ∷ []

any_alias : Unicode → Text → List Text → Bool
unfolding normalize_text contains_phrase
any_alias u title [] = false
any_alias u title (a ∷ names) =
    contains_phrase title (normalize_text u a) || any_alias u title names

found_keywords : Unicode → Text → List Keyword → List Text
unfolding any_alias
found_keywords u title [] = []
found_keywords u title (k ∷ ks) =
    let rest = found_keywords u title ks in
    if any_alias u title k.aliases then k.canonical ∷ rest else rest

-- ExtractVersionKeywords
unfoldable pub extract_version_keywords : Unicode → Text → List Text
unfolding found_keywords normalize_text version_keywords
extract_version_keywords u title = found_keywords u (normalize_text u title) version_keywords

pub record NormalizedTrackFields : Type 0 where
  pub title : Text
  pub artists : List Text
  pub album : Text
  pub duration_ms : Option ℤ
  pub disc_number : Option ℤ
  pub track_number : Option ℤ
  pub version_keywords : List Text

-- The names that have a normal form.
unfoldable pub normalized_artists : Unicode → List Text → List Text
unfolding normalize_text
normalized_artists u [] = []
normalized_artists u (a ∷ names) =
    let rest = normalized_artists u names in
    if normalize_text u a == [] then rest else normalize_text u a ∷ rest

-- NormalizeTrackObservation
unfoldable pub normalize_track_observation : Unicode → TrackObservation → NormalizedTrackFields
unfolding normalize_text normalized_artists extract_version_keywords
normalize_track_observation u o = record {
  title = normalize_text u o.title;
  artists = normalized_artists u o.artists;
  album = normalize_text u o.album;
  duration_ms = o.duration_ms;
  disc_number = o.disc_number;
  track_number = o.track_number;
  version_keywords = extract_version_keywords u o.title;
}
