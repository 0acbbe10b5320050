-- ===== src/Catalog/ReleaseContext.antt =====
-- The context of a release: internal/domain/catalog/release_context.go.
pub mod Notes
use wildman_service.Base.{
  ℕ, String, Bool, true, false, not, Option, none, some, List, [], ◌∷◌, ◌++◌, if◌then◌else◌, ℤ,
  int_eq, string_eq, nat_eq, ◌==◌, list_eq,
}
use wildman_service.Catalog.{TrackObservation, Release, Track, Candidate}
use wildman_service.Catalog.Arithmetic.{Arithmetic, lesser, greater}

-- What the context changes, and whether a position matched.
pub record Position (Num : Type 0) : Type 0 where
  pub score : Num
  pub conflicts : List String
  pub matched : Bool

module _ {Num : Type 0} (num : Arithmetic Num) where
  -- A number of the observation against that of the track, with the penalty in hundredths.
  check_position : Option ℤ → ℤ → ℕ → String → Position Num → Position Num
  check_position none n penalty note p = p
  check_position (some m) n penalty note p =
      if m == n then record p { matched = true } else record p {
        conflicts = p.conflicts ++ (note ∷ []);
        score = greater num (num.ratio 0 1) (num.sub p.score (num.ratio penalty 100));
      }

  -- The test of the release.
  pub other_release : Option Release → Track → Bool
  other_release none track = false
  other_release (some r) track = not (track.release_id == r.id)

  finish_context : Candidate Num → Position Num → Candidate Num
  finish_context c p =
      if p.matched
      then record c {
        conflicts = p.conflicts;
        evidence = c.evidence ++ ("发行内曲目顺序一致" ∷ []);
        score = lesser num (num.ratio 1 1) (num.add p.score (num.ratio 5 100));
      }
      else record c { conflicts = p.conflicts; score = p.score }

  -- ApplyReleaseContext
  pub apply_release_context : Candidate Num → TrackObservation → Option Track → Candidate Num
  unfolding check_position other_release finish_context
  apply_release_context c o none = c
  apply_release_context c o (some t) =
      if other_release c.release t
      then record c {
        conflicts = c.conflicts ++ ("候选曲目不属于候选发行" ∷ []);
        score = greater num (num.ratio 0 1) (num.sub c.score (num.ratio 10 100));
      }
      else finish_context c (
          check_position o.track_number t.track_number 10 "曲号不一致" (
            check_position o.disc_number t.disc_number 5 "碟号不一致"
              (record { score = c.score; conflicts = c.conflicts; matched = false })))
