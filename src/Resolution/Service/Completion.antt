-- ===== src/Resolution/Service/Completion.antt =====
-- What CompleteRequest saves, and which reviews are taken.
use wildman_service.Base.{
  ℕ, String, ◌≡◌, refl, ap, ◌∙◌, inl, inr, Bool, some, List, [], ◌∷◌, if◌then◌else◌, Bool-cases,
  Result, Faults, map_option, first_where, count_where, first_where-true, first_where-update_where,
  int_eq, string_eq, nat_eq, list_eq, ok,
}
use wildman_service.Catalog.{
  ResolutionRequest, ResolutionStatus, matched, no_match, Candidate, Recording,
}
use wildman_service.Resolution.Tables.{is_request, finish_row, outcome}
use wildman_service.Resolution.Ranking.{
  goes_after, insert_candidate, sort_candidates, number_candidates,
}
use wildman_service.Resolution.Ranking.Order.{IsSorted, IsRanked}
use wildman_service.Resolution.Service.{Error, complete_request}
use wildman_service.Resolution.Service.Saved.{complete_request-saves}
use wildman_service.Database.{Database}

-- Candidates as a completed request has them: in the order of the comparison, with the ranks 1, 2,
-- and so on, and the recordings of the list that was handed in.
pub record IsRanking {Num : Type 0} (lt : Num → Num → Bool) (given ranked : List (Candidate Num))
    : Type 0 where
  pub sorted : IsSorted lt ranked
  pub numbered : IsRanked 0 ranked
  pub same_recordings :
      (p : Recording → Bool)
      → count_where (λ c. p c.recording) ranked ≡ count_where (λ c. p c.recording) given

abbrev pub expected_status : {Num : Type 0} → List (Candidate Num) → ResolutionStatus
expected_status [] = no_match
expected_status (_ ∷ _) = matched

outcome-rank :
    {Num : Type 0} (lt : Num → Num → Bool) (new_id : ℕ → String) (cs : List (Candidate Num))
    → outcome (number_candidates new_id 0 (sort_candidates lt cs)) ≡ expected_status cs
unfolding outcome number_candidates sort_candidates insert_candidate
outcome-rank lt new_id [] = refl
outcome-rank lt new_id (c ∷ cs) = inserted (sort_candidates lt cs)
  where
    inserted :
        (ds : List (Candidate _))
        → outcome (number_candidates new_id 0 (insert_candidate lt c ds)) ≡ matched
    inserted [] = refl
    inserted (d ∷ ds) = elim (Bool-cases (goes_after lt c d)) [
      | inl e ↦ rw e refl
      | inr e ↦ rw e refl
    ]

module _ {Num : Type 0} (faults : Faults) (lt : Num → Num → Bool) (new_id : ℕ → String)
    (client_id request_id : String) (cs : List (Candidate Num)) (now : ℕ) (db : Database Num) where
  abbrev pub completed : Result Error (Unit {0}) × Database Num
  completed = complete_request faults lt new_id client_id request_id cs now db

  pub status_after :
      (r : ResolutionRequest)
      → first_where (is_request client_id request_id) db.requests ≡ some r
      → completed.0 ≡ ok tt
      → map_option
          (λ q. q.status)
          (first_where (is_request client_id request_id) completed.1.requests)
        ≡ some (expected_status cs)
  unfolding is_request finish_row
  status_after r found h =
      let rows = (complete_request-saves faults lt new_id client_id request_id cs now db h).0 in
      ap
        (λ rs.
          map_option (λ (q : ResolutionRequest). q.status)
            (first_where (is_request client_id request_id) rs))
        rows
      ∙ (ap (map_option (λ (q : ResolutionRequest). q.status)) (
            first_where-update_where (is_request client_id request_id)
              (is_request client_id request_id) (finish_row _ now) db.requests (λ q. refl)
            ∙ ap
                (map_option (λ (q : ResolutionRequest).
                  if is_request client_id request_id q
                  then finish_row (outcome (number_candidates new_id 0 (sort_candidates lt cs))) now
                      q
                  else q))
                found)
          ∙ rw (first_where-true (is_request client_id request_id) db.requests r found)
              (ap some (outcome-rank lt new_id cs)))
