-- ===== src/Resolution/Ranking/Order.antt =====
-- The candidates that are saved are in the order of their ranks, which count from one, and the order
-- is that of the comparison.
use wildman_service.Base.{
  ℕ, ◌+◌, String, ◌≡◌, refl, ◌∙◌, inl, inr, Bool, true, false, List, [], ◌∷◌, arith, Bool-cases,
  count_where, int_eq, nat_eq, string_eq, list_eq, Text, codes, text_after,
}
use wildman_service.Catalog.{Candidate}
use wildman_service.Resolution.Ranking.{
  goes_after, insert_candidate, sort_candidates, number_candidate, number_candidates,
}

text_after_asym : (a b : Text) → text_after a b ≡ true → text_after b a ≡ false
unfolding text_after
text_after_asym [] b h = absurd (ground (arith, h))
text_after_asym (x ∷ a) [] h = refl
text_after_asym (x ∷ a) (y ∷ b) h = ground (arith, text_after_asym a b)

-- No candidate goes after its successor.
abbrev pub IsSorted : {Num : Type 0} → (Num → Num → Bool) → List (Candidate Num) → Type 0
IsSorted lt [] = Unit
IsSorted lt (c ∷ []) = Unit
IsSorted lt (c ∷ d ∷ ds) = (goes_after lt c d ≡ false) × IsSorted lt (d ∷ ds)

-- Ranks that count up from an index.
abbrev pub IsRanked : {Num : Type 0} → ℕ → List (Candidate Num) → Type 0
IsRanked n [] = Unit
IsRanked n (c ∷ cs) = (c.rank ≡ n + 1) × IsRanked (n + 1) cs

module _ {Num : Type 0} (lt : Num → Num → Bool)
    (asym : (x y : Num) → lt x y ≡ true → lt y x ≡ false) where
  goes_after_asym : (c d : Candidate Num) → goes_after lt c d ≡ true → goes_after lt d c ≡ false
  unfolding goes_after
  goes_after_asym c d h = ground (
    arith,
    asym c.score d.score,
    asym d.score c.score,
    text_after_asym (codes c.recording.id) (codes d.recording.id),
  )

  insert_candidate-IsSorted :
      (c : Candidate Num) (cs : List (Candidate Num))
      → IsSorted lt cs
      → IsSorted lt (insert_candidate lt c cs)
  unfolding insert_candidate
  insert_candidate-IsSorted c [] s = tt
  insert_candidate-IsSorted c (d ∷ []) s = elim (Bool-cases (goes_after lt c d)) [
    | inl e ↦ rw e (goes_after_asym c d e, tt)
    | inr e ↦ rw e (e, tt)
  ]
  insert_candidate-IsSorted c (d ∷ f ∷ ds) s = elim (Bool-cases (goes_after lt c d)) [
    | inr e ↦ rw e (e, s)
    | inl e ↦
        let tail = insert_candidate-IsSorted c (f ∷ ds) s.1 in
        elim (Bool-cases (goes_after lt c f)) [
          | inl e' ↦ rw (e, e') (s.0, rw e' at tail)
          | inr e' ↦ rw (e, e') (goes_after_asym c d e, rw e' at tail)
        ]
  ]

  pub sort_candidates-IsSorted : (cs : List (Candidate Num)) → IsSorted lt (sort_candidates lt cs)
  unfolding sort_candidates
  sort_candidates-IsSorted [] = tt
  sort_candidates-IsSorted (c ∷ cs) =
      insert_candidate-IsSorted c (sort_candidates lt cs) (sort_candidates-IsSorted cs)

  pub number_candidates-IsSorted :
      (new_id : ℕ → String) (n : ℕ) (cs : List (Candidate Num))
      → IsSorted lt cs
      → IsSorted lt (number_candidates new_id n cs)
  unfolding number_candidates number_candidate goes_after
  number_candidates-IsSorted new_id n [] s = tt
  number_candidates-IsSorted new_id n (c ∷ []) s = tt
  number_candidates-IsSorted new_id n (c ∷ d ∷ ds) s =
      (s.0, number_candidates-IsSorted new_id (n + 1) (d ∷ ds) s.1)

pub number_candidates-IsRanked :
    {Num : Type 0} (new_id : ℕ → String) (n : ℕ) (cs : List (Candidate Num))
    → IsRanked n (number_candidates new_id n cs)
unfolding number_candidates number_candidate
number_candidates-IsRanked new_id n [] = tt
number_candidates-IsRanked new_id n (c ∷ cs) = (refl, number_candidates-IsRanked new_id (n + 1) cs)

-- Each candidate occurs as often after the insertion, under any test, as before.
count-insert_candidate :
    {Num : Type 0} (lt : Num → Num → Bool) (p : Candidate Num → Bool) (c : Candidate Num)
    (cs : List (Candidate Num))
    → count_where p (insert_candidate lt c cs) ≡ count_where p (c ∷ cs)
unfolding insert_candidate count_where
count-insert_candidate lt p c [] = refl
count-insert_candidate lt p c (d ∷ ds) = ground (arith, count-insert_candidate lt p c ds)

pub count-sort_candidates :
    {Num : Type 0} (lt : Num → Num → Bool) (p : Candidate Num → Bool) (cs : List (Candidate Num))
    → count_where p (sort_candidates lt cs) ≡ count_where p cs
unfolding sort_candidates count_where
count-sort_candidates lt p [] = refl
count-sort_candidates lt p (c ∷ cs) =
    count-insert_candidate lt p c (sort_candidates lt cs)
    ∙ ground (arith, count-sort_candidates lt p cs)
