-- ===== src/Resolution/Service/Reviews.antt =====
-- Which reviews ReportReview takes, and for which requests.
use wildman_service.Base.{
  ℕ, ◌≤◌, String, ◌≡◌, refl, sym, subst, ◌≢◌, ◌↔◌, ◌⊎◌, inl, inr, true, false, [], arith, eq_iff,
  Bool-cases, Faults, exists_where, int_eq, ◌==◌, nat_eq, string_eq, list_beq_iff, list_eq, Text,
  byte_length, ok,
}
use wildman_service.Catalog.{ResolutionReview}
use wildman_service.Resolution.Tables.{is_request, is_candidate_of}
use wildman_service.Resolution.Store.{save_resolution_review}
use wildman_service.Resolution.Service.{
  is_printable_ascii, review_refused, decision_known, writeback_known, report_review,
}
use wildman_service.Database.{Database}

-- What a review must be: an accepted recording, or a rejection without writeback; with an error code
-- for a failed writeback and for nothing else.
abbrev pub IsReview : String → String → String → String → Text → Type 0
IsReview request_id decision recording_id writeback_status code =
    (request_id ≢ "")
    × (((decision ≡ "accepted") × (recording_id ≢ ""))
        ⊎ ((decision ≡ "rejected") × (writeback_status ≡ "not_attempted")))
    × (((writeback_status ≡ "failed")
          × (code ≢ [])
          × (byte_length code ≤ 64)
          × (is_printable_ascii code ≡ true))
        ⊎ (((writeback_status ≡ "not_attempted") ⊎ (writeback_status ≡ "succeeded")) × (code ≡ [])))

-- Two literals that differ are not both equal to a string.
apart : (s a b : String) → (a == b) ≡ false → (s == a) ≡ true → (s == b) ≡ false
apart s a b different h = subst (λ x. (x == b) ≡ false) (sym ((eq_iff s a).0 h)) different

-- The tests of ReportReview let a review through exactly if it names a request and is an accepted
-- recording, or a rejection without writeback, with an error code of at most 64 printable bytes
-- for a failed writeback and none for another.
pub review_refused_iff :
    (request_id decision recording_id writeback_status : String) (code : Text)
    → (review_refused request_id decision recording_id writeback_status code ≡ false)
      ↔ IsReview request_id decision recording_id writeback_status code
unfolding review_refused decision_known writeback_known
review_refused_iff request_id decision recording_id writeback_status code = ground (
  arith,
  eq_iff request_id "",
  eq_iff recording_id "",
  eq_iff decision "accepted",
  eq_iff decision "rejected",
  eq_iff writeback_status "failed",
  eq_iff writeback_status "not_attempted",
  eq_iff writeback_status "succeeded",
  list_beq_iff code [],
  apart decision "accepted" "rejected" refl,
  apart writeback_status "failed" "not_attempted" refl,
  apart writeback_status "failed" "succeeded" refl,
  apart writeback_status "not_attempted" "succeeded" refl,
)

module _ {Num : Type 0} (faults : Faults) (spell : Text → String) where
  -- A review that is saved is one of those described, of a request of the client; the recording that it
  -- names is a candidate of that request.
  pub report_review_ok :
      (client_id request_id decision recording_id writeback_status : String) (code : Text) (now : ℕ)
      (v : ResolutionReview) (db : Database Num)
      → (report_review {Num = Num} faults spell client_id request_id decision recording_id
          writeback_status code now db).0
        ≡ ok v
      → IsReview request_id decision recording_id writeback_status code
        × (exists_where (is_request client_id request_id) db.requests ≡ true)
        × ((recording_id ≢ "")
            → exists_where (is_candidate_of request_id recording_id) db.candidates ≡ true)
  unfolding report_review save_resolution_review
  report_review_ok client_id request_id decision recording_id writeback_status code now v db h =
      elim (Bool-cases (review_refused request_id decision recording_id writeback_status code)) [
        | inl refused ↦ absurd (ground (arith, h, refused))
        | inr taken ↦ (
          (review_refused_iff request_id decision recording_id writeback_status code).0 taken,
          ground (arith, h, taken),
          ground (arith, h, taken, eq_iff recording_id ""),
        )
      ]
