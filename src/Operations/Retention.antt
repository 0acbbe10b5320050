-- ===== src/Operations/Retention.antt =====
-- A purge leaves no row that names a row which is gone.
use wildman_service.Base.{
  ℕ, ◌-◌, ◌*◌, ◌≡◌, ◌⊎◌, Bool, true, ◌&&◌, All, exists_where, int_eq, string_eq, nat_eq, ◌==◌,
  list_eq,
}
use wildman_service.Time.{day}
use wildman_service.Catalog.{ResolutionRequest, StoredTrackObservation, ResolutionReview}
use wildman_service.Database.{Database, CandidateRow}
use wildman_service.Operations.{is_unused_observation, purged}

-- The foreign keys between the tables that a purge deletes from.
pub record IsIntact {Num : Type 0} (db : Database Num) : Type 0 where
  pub of_requests :
      All
        (λ (r : ResolutionRequest).
          exists_where (λ o. o.id == r.observation_id) db.observations ≡ true)
        db.requests
  pub of_candidates :
      All
        (λ (c : CandidateRow Num). exists_where (λ r. r.id == c.request_id) db.requests ≡ true)
        db.candidates
  pub of_sources :
      All
        (λ (c : CandidateRow Num).
          (c.candidate.source_observation_id ≡ "")
          ⊎ (exists_where (λ v. v.id == c.candidate.source_observation_id) db.sources ≡ true))
        db.candidates
  pub of_reviews :
      All
        (λ (v : ResolutionReview). exists_where (λ r. r.id == v.request_id) db.requests ≡ true)
        db.reviews

module _ {Num : Type 0} (text_lt : ℕ → ℕ → Bool) (year_before : ℕ → ℕ) (now : ℕ)
    (db : Database Num) where
  abbrev after : Database Num
  after = purged text_lt year_before now db

  abbrev cutoff : ℕ
  cutoff = now - 180 * day

  abbrev is_used : ResolutionRequest → StoredTrackObservation → Bool
  is_used r o = o.id == r.observation_id && is_unused_observation text_lt cutoff after.requests o
