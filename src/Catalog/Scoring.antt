-- ===== src/Catalog/Scoring.antt =====
-- The score of a candidate: internal/domain/catalog/scoring.go.
pub mod Agreement
use wildman_service.Base.{
  ◌-◌, ◌^◌, max, String, Bool, false, not, ◌&&◌, ◌||◌, Option, none, some, List, [], ◌∷◌, ◌++◌, ltb,
  if◌then◌else◌, length, ℤ, ltb_ℤ, dist_ℤ, int_eq, ◌==◌, nat_eq, string_eq, contains, list_eq, Text,
  text_after, pos, negsuc,
}
use wildman_service.Unicode.{Unicode}
use wildman_service.Catalog.{TrackObservation, Artist, Recording, Release, Candidate}
use wildman_service.Catalog.Arithmetic.{Arithmetic, lesser, greater, at_least}
use wildman_service.Catalog.EditDistance.{edit_distance}
use wildman_service.Catalog.Normalization.{
  NormalizedTrackFields, normalize_text, extract_version_keywords, normalize_track_observation,
}

-- slices.Sort on strings.
insert_text : Text → List Text → List Text
unfolding text_after
insert_text a [] = a ∷ []
insert_text a (b ∷ bs) =
    let rest = insert_text a bs in if text_after a b then b ∷ rest else a ∷ b ∷ bs

unfoldable pub sort_texts : List Text → List Text
unfolding insert_text
sort_texts [] = []
sort_texts (a ∷ texts) = insert_text a (sort_texts texts)

-- sameStringSet
unfoldable pub same_string_set : List Text → List Text → Bool
unfolding sort_texts
same_string_set left right =
    if not (length left == length right) then false else sort_texts left == sort_texts right

-- setsOverlap
sets_overlap : List Text → List Text → Bool
unfolding contains
sets_overlap [] right = false
sets_overlap (a ∷ left) right = contains right a || sets_overlap left right

-- absInt64 of the difference of two int64 values, which wraps around.
wrapped_difference : ℤ → ℤ → ℤ
wrapped_difference a b =
    let d = dist_ℤ a b in
    if ltb d (2 ^ 63) then pos d else if d == 2 ^ 63 then negsuc (2 ^ 63 - 1) else pos (2 ^ 64 - d)

unfoldable pub artist_names : Unicode → List Artist → List Text
unfolding normalize_text
artist_names u [] = []
artist_names u (a ∷ artists) = normalize_text u a.name ∷ artist_names u artists

-- The running score, evidence and conflicts.
pub record Tally (Num : Type 0) : Type 0 where
  pub score : Num
  pub evidence : List String
  pub conflicts : List String

module _ {Num : Type 0} (u : Unicode) (num : Arithmetic Num) where
  -- textSimilarity
  text_similarity : Text → Text → Num
  unfolding edit_distance
  text_similarity left right =
      if left == right && not (left == [])
      then num.ratio 1 1
      else let maximum = max (length left) (length right) in
        if maximum == 0
        then num.ratio 0 1
        else num.sub (num.ratio 1 1) (num.ratio (edit_distance left right) maximum)

  gain : Num → String → Tally Num → Tally Num
  gain points note t = record t {
    score = num.add t.score points;
    evidence = t.evidence ++ (note ∷ []);
  }

  object : String → Tally Num → Tally Num
  object note t = record t { conflicts = t.conflicts ++ (note ∷ []) }

  tally_title : NormalizedTrackFields → Recording → Tally Num → Tally Num
  unfolding text_similarity gain object
  tally_title fields recording t =
      let similarity = text_similarity fields.title (normalize_text u recording.title) in
      let points = num.mul (num.ratio 40 100) similarity in
      if num.eq similarity (num.ratio 1 1)
      then gain points "标题完全一致" t
      else if at_least num similarity (num.ratio 75 100)
      then gain points "标题高度相似" t
      else let scored = record t { score = num.add t.score points } in
        if not (fields.title == []) && not (recording.title == [])
        then object "标题不一致" scored
        else scored

  tally_artists : NormalizedTrackFields → Recording → Tally Num → Tally Num
  unfolding same_string_set sets_overlap gain object artist_names
  tally_artists fields recording t =
      let names = artist_names u recording.artists in
      if ltb 0 (length fields.artists) && ltb 0 (length names)
      then (if same_string_set fields.artists names
          then gain (num.ratio 30 100) "歌手完全一致" t
          else if sets_overlap fields.artists names
          then gain (num.ratio 15 100) "部分歌手一致" t
          else object "歌手不一致" t)
      else t

  tally_album : NormalizedTrackFields → Option Release → Tally Num → Tally Num
  unfolding text_similarity gain object
  tally_album fields none t = t
  tally_album fields (some r) t =
      if not (fields.album == []) && not (r.title == [])
      then (let similarity = text_similarity fields.album (normalize_text u r.title) in
          if num.eq similarity (num.ratio 1 1)
          then gain (num.ratio 15 100) "专辑完全一致" t
          else if at_least num similarity (num.ratio 75 100)
          then gain (num.ratio 75 1000) "专辑高度相似" t
          else object "专辑不一致" t)
      else t

  tally_duration : Option ℤ → Option ℤ → Tally Num → Tally Num
  unfolding wrapped_difference gain object
  tally_duration none _ t = t
  tally_duration (some a) none t = t
  tally_duration (some a) (some b) t =
      let difference = wrapped_difference a b in
      if not (ltb_ℤ (pos 2000) difference)
      then gain (num.ratio 10 100) "时长误差不超过 2 秒" t
      else if not (ltb_ℤ (pos 10000) difference)
      then gain (num.ratio 5 100) "时长接近" t
      else object "时长差异超过 10 秒" t

  tally_versions : NormalizedTrackFields → Recording → Tally Num → Tally Num
  unfolding extract_version_keywords same_string_set gain object
  tally_versions fields recording t =
      let versions = extract_version_keywords u recording.title in
      if same_string_set fields.version_keywords versions
      then (if ltb 0 (length versions)
          then gain (num.ratio 5 100) "版本关键词一致" t
          else record t { score = num.add t.score (num.ratio 5 100) })
      else object "版本关键词不一致" t

  tally : NormalizedTrackFields → Recording → Option Release → Tally Num
  unfolding tally_title tally_artists tally_album tally_duration tally_versions
  tally fields recording release = tally_versions fields recording (
      tally_duration fields.duration_ms recording.duration_ms (
        tally_album fields release (
          tally_artists fields recording (
            tally_title fields recording
              (record { score = num.ratio 0 1; evidence = []; conflicts = [] })))))

  -- ScoreCandidate
  unfoldable pub score_candidate : TrackObservation → Recording → Option Release → Candidate Num
  unfolding tally normalize_track_observation
  score_candidate observation recording release =
      let t = tally (normalize_track_observation u observation) recording release in
      record {
        id = "";
        rank = 0;
        source = "";
        sources = [];
        source_observation_id = "";
        recording = recording;
        release = release;
        score = greater num (num.ratio 0 1) (lesser num (num.ratio 1 1) t.score);
        evidence = t.evidence;
        conflicts = t.conflicts;
        tag_patch = [];
      }
