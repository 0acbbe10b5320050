-- ===== src/Catalog/ReleaseContext/Notes.antt =====
-- The conflicts that the context of a release adds.
use wildman_service.Base.{
  ℕ, String, ◌≡◌, refl, ap, ◌∙◌, inl, inr, Bool, true, false, Option, none, some, List, [], ◌∷◌,
  ◌++◌, if◌then◌else◌, Bool-cases, ℤ, int_eq, string_eq, nat_eq, ◌==◌, list_eq,
}
use wildman_service.Catalog.{TrackObservation, Track, Candidate}
use wildman_service.Catalog.Arithmetic.{Arithmetic}
use wildman_service.Catalog.ReleaseContext.{
  Position, check_position, other_release, finish_context, apply_release_context,
}

abbrev note_if : Option ℤ → ℤ → String → List String
note_if none n note = []
note_if (some m) n note = if m == n then [] else note ∷ []

-- The notes on a track: that it belongs to another release, or which of its numbers differ.
abbrev pub notes : Bool → TrackObservation → Track → List String
notes true o t = "候选曲目不属于候选发行" ∷ []
notes false o t =
    note_if o.disc_number t.disc_number "碟号不一致" ++ note_if o.track_number t.track_number "曲号不一致"

append_none : (xs : List String) → xs ≡ xs ++ []
append_none [] = refl
append_none (x ∷ xs) = ap (λ t. x ∷ t) (append_none xs)

append_twice : (xs ys zs : List String) → (xs ++ ys) ++ zs ≡ xs ++ (ys ++ zs)
append_twice [] ys zs = refl
append_twice (x ∷ xs) ys zs = ap (λ t. x ∷ t) (append_twice xs ys zs)

module _ {Num : Type 0} (num : Arithmetic Num) where
  check_position-conflicts :
      (o : Option ℤ) (n : ℤ) (penalty : ℕ) (note : String) (p : Position Num)
      → (check_position num o n penalty note p).conflicts ≡ p.conflicts ++ note_if o n note
  unfolding check_position
  check_position-conflicts none n penalty note p = append_none p.conflicts
  check_position-conflicts (some m) n penalty note p = elim (Bool-cases (m == n)) [
    | inl e ↦ rw e (append_none p.conflicts)
    | inr e ↦ rw e refl
  ]

  finish_context-conflicts :
      (c : Candidate Num) (p : Position Num) → (finish_context num c p).conflicts ≡ p.conflicts
  unfolding finish_context
  finish_context-conflicts c p = elim (Bool-cases p.matched) [
    | inl e ↦ rw e refl
    | inr e ↦ rw e refl
  ]

  -- The context of a track adds one conflict if the track is of another release than the candidate,
  -- and else one for each of the disc number and the track number that the observation has and that
  -- differs, in this order, and no other.
  pub apply_release_context-conflicts :
      (c : Candidate Num) (o : TrackObservation) (t : Track)
      → (apply_release_context num c o (some t)).conflicts
        ≡ c.conflicts ++ notes (other_release num c.release t) o t
  unfolding apply_release_context
  apply_release_context-conflicts c o t = elim (Bool-cases (other_release num c.release t)) [
    | inl e ↦ rw e refl
    | inr e ↦
        let start : Position Num = record {
          score = c.score;
          conflicts = c.conflicts;
          matched = false;
        } in
        let disc = check_position num o.disc_number t.disc_number 5 "碟号不一致" start in
        let both = check_position num o.track_number t.track_number 10 "曲号不一致" disc in
        rw e (
          finish_context-conflicts c both
          ∙ check_position-conflicts o.track_number t.track_number 10 "曲号不一致" disc
          ∙ ap (λ l. l ++ note_if o.track_number t.track_number "曲号不一致")
              (check_position-conflicts o.disc_number t.disc_number 5 "碟号不一致" start)
          ∙ append_twice c.conflicts (note_if o.disc_number t.disc_number "碟号不一致")
              (note_if o.track_number t.track_number "曲号不一致"))
  ]
