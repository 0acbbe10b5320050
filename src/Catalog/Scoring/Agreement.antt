-- ===== src/Catalog/Scoring/Agreement.antt =====
-- Observations that agree with a recording.
use wildman_service.Base.{
  ◌≡◌, refl, ap, subst, ◌∙◌, ◌≢◌, inl, inr, true, false, ◌&&◌, Option, none, some, List, [], arith,
  ltb, Bool-cases, length, ℤ, dist_ℤ, int_eq, ◌==◌, nat_eq, string_eq, list_beq_iff, eq_self,
  list_eq, Text, pos, negsuc,
}
use wildman_service.Unicode.{Unicode}
use wildman_service.Catalog.{TrackObservation, Recording}
use wildman_service.Catalog.Arithmetic.{Arithmetic}
use wildman_service.Catalog.Normalization.{
  NormalizedTrackFields, normalize_text, normalized_artists, extract_version_keywords,
  normalize_track_observation,
}
use wildman_service.Catalog.Scoring.{
  Tally, sort_texts, same_string_set, artist_names, wrapped_difference, text_similarity, gain,
  tally_title, tally_artists, tally_album, tally_duration, tally_versions, tally, score_candidate,
}

same_string_set_self : (texts : List Text) → same_string_set texts texts ≡ true
unfolding same_string_set
same_string_set_self texts = rw (eq_self (length texts), eq_self (sort_texts texts)) refl

dist_ℤ-self : (a : ℤ) → dist_ℤ a a ≡ 0
dist_ℤ-self (pos n) = ground arith
dist_ℤ-self (negsuc n) = ground arith

module _ {Num : Type 0} (u : Unicode) (num : Arithmetic Num) where
  title_clear :
      (fields : NormalizedTrackFields) (r : Recording) (t : Tally Num)
      → num.eq (num.ratio 1 1) (num.ratio 1 1) ≡ true
      → fields.title ≡ normalize_text u r.title
      → fields.title ≢ []
      → (tally_title u num fields r t).conflicts ≡ t.conflicts
  unfolding tally_title gain text_similarity
  title_clear fields r t one same word =
      let equal = (list_beq_iff fields.title (normalize_text u r.title)).1 same in
      let full : (fields.title == []) ≡ false =
        ground (arith, word, list_beq_iff fields.title []) in
      rw (equal, full, one) refl

  artists_clear :
      (fields : NormalizedTrackFields) (r : Recording) (t : Tally Num)
      → fields.artists ≡ artist_names u r.artists
      → (tally_artists u num fields r t).conflicts ≡ t.conflicts
  unfolding tally_artists gain
  artists_clear fields r t same =
      let set : same_string_set fields.artists (artist_names u r.artists) ≡ true =
        subst (λ names. same_string_set fields.artists names ≡ true) same
          (same_string_set_self fields.artists) in
      elim (Bool-cases
        (ltb 0 (length fields.artists) && ltb 0 (length (artist_names u r.artists)))) [
          | inl e ↦ rw (e, set) refl
          | inr e ↦ rw e refl
        ]

  duration_clear :
      (d : ℤ) (t : Tally Num) → (tally_duration u num (some d) (some d) t).conflicts ≡ t.conflicts
  unfolding tally_duration gain wrapped_difference
  duration_clear d t = rw (dist_ℤ-self d) refl

  versions_clear :
      (fields : NormalizedTrackFields) (r : Recording) (t : Tally Num)
      → fields.version_keywords ≡ extract_version_keywords u r.title
      → (tally_versions u num fields r t).conflicts ≡ t.conflicts
  unfolding tally_versions gain
  versions_clear fields r t same =
      let set : same_string_set fields.version_keywords (extract_version_keywords u r.title)
          ≡ true =
        subst (λ names. same_string_set fields.version_keywords names ≡ true) same
          (same_string_set_self fields.version_keywords) in
      elim (Bool-cases (ltb 0 (length (extract_version_keywords u r.title)))) [
        | inl e ↦ rw (set, e) refl
        | inr e ↦ rw (set, e) refl
      ]

  -- A recording without release that has the title, the artists and the duration of the
  -- observation has no conflict with it, if the title has a normal form, the names of the artists
  -- have the same normal forms, and the equality of scores holds of 1 and itself.
  pub score_candidate-agrees :
      (o : TrackObservation) (r : Recording) (d : ℤ)
      → num.eq (num.ratio 1 1) (num.ratio 1 1) ≡ true
      → o.title ≡ r.title
      → normalize_text u o.title ≢ []
      → normalized_artists u o.artists ≡ artist_names u r.artists
      → o.duration_ms ≡ some d
      → r.duration_ms ≡ some d
      → (score_candidate u num o r none).conflicts ≡ []
  unfolding score_candidate tally tally_album normalize_track_observation
  score_candidate-agrees o r d one title word artists mine yours =
      let fields = normalize_track_observation u o in
      let start : Tally Num = record { score = num.ratio 0 1; evidence = []; conflicts = [] } in
      let first = tally_title u num fields r start in
      let second = tally_artists u num fields r first in
      let third = tally_duration u num fields.duration_ms r.duration_ms second in
      versions_clear fields r third (ap (extract_version_keywords u) title)
      ∙ timed (fields.duration_ms) (r.duration_ms) second mine yours
      ∙ artists_clear fields r first artists
      ∙ title_clear fields r start one (ap (normalize_text u) title) word
    where
      timed :
          (a b : Option ℤ) (t : Tally Num)
          → a ≡ some d
          → b ≡ some d
          → (tally_duration u num a b t).conflicts ≡ t.conflicts
      timed a b t h k = rw (h, k) (duration_clear d t)
