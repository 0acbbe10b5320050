-- ===== src/Worker/Settles.antt =====
-- The worker settles what it claims.
use wildman_service.Base.{
  ℕ, String, ◌≡◌, refl, ap, ◌∙◌, inl, inr, false, not, ◌&&◌, some, List, [], ◌∷◌, arith, ltb,
  Bool-cases, Option-cases, Result-cases, length, exists_where, update_where, int_eq, string_eq,
  nat_eq, ◌==◌, list_eq, ok,
}
use wildman_service.Catalog.{
  StoredTrackObservation, TrackObservation, ResolutionRequest, ResolutionStatus, matching,
  status_beq, Candidate,
}
use wildman_service.Catalog.CrossSource.{merge_cross_source_candidates}
use wildman_service.Catalog.Normalization.{normalize_text}
use wildman_service.Resolution.Tables.{is_request, in_progress, finish_row, fail_row, outcome}
use wildman_service.Resolution.Store.{claim_resolution, fail_resolution}
use wildman_service.Resolution.Service.{complete_request}
use wildman_service.Resolution.Ranking.{sort_candidates, number_candidates}
use wildman_service.Resolution.Service.Saved.{complete_request-saves}
use wildman_service.Worker.Model.{
  WorkerError, catalog_query_failed, provider_query_failed, all_providers_failed,
  candidates_not_saved, Environment, WorkerFaults,
}
use wildman_service.Worker.Query.{query_providers, local_candidates}
use wildman_service.Worker.Run.{give_up, complete, ask_providers, work, run_once}
use wildman_service.Database.{Database}

fail-settles :
    (client_id id code : String) (at : ℕ) (rs : List ResolutionRequest)
    → exists_where
        (in_progress client_id id)
        (update_where (in_progress client_id id) (fail_row code at) rs)
      ≡ false
unfolding exists_where update_where in_progress fail_row status_beq
fail-settles client_id id code at [] = refl
fail-settles client_id id code at (r ∷ rs) = elim (Bool-cases (in_progress client_id id r)) [
  | inl hit ↦ ground (arith, hit, fail-settles client_id id code at rs)
  | inr miss ↦ ground (arith, miss, fail-settles client_id id code at rs)
]

finish-settles :
    (client_id id : String) (s : ResolutionStatus) (at : ℕ) (rs : List ResolutionRequest)
    → status_beq s matching ≡ false
    → exists_where
        (in_progress client_id id)
        (update_where (is_request client_id id) (finish_row s at) rs)
      ≡ false
unfolding exists_where update_where in_progress finish_row
finish-settles client_id id s at [] h = refl
finish-settles client_id id s at (r ∷ rs) h = elim (Bool-cases (is_request client_id id r)) [
  | inl hit ↦ ground (arith, hit, h, finish-settles client_id id s at rs)
  | inr miss ↦ ground (arith, miss, finish-settles client_id id s at rs)
]

outcome-ends : {Num : Type 0} (cs : List (Candidate Num)) → status_beq (outcome cs) matching ≡ false
unfolding outcome status_beq
outcome-ends [] = refl
outcome-ends (c ∷ cs) = refl

module _ {Num : Type 0} (env : Environment Num) (faults : WorkerFaults) (now : ℕ)
    (calm : faults.fail ≡ false) where
  -- No request of that client with that id is being matched.
  abbrev pub IsSettled : ResolutionRequest → Database Num → Type 0
  IsSettled r db = exists_where (in_progress r.client_id r.id) db.requests ≡ false

  give_up-settles :
      (r : ResolutionRequest) (code : String) (e : WorkerError) (db : Database Num)
      → IsSettled r (give_up env faults now r code e db).1
  unfolding give_up fail_resolution
  give_up-settles r code e db = rw calm (fail-settles r.client_id r.id code now db.requests)

  completed-settles :
      (r : ResolutionRequest) (cs : List (Candidate Num)) (db : Database Num)
      → (complete_request faults.service env.num.lt env.candidate_id r.client_id r.id cs now db).0
        ≡ ok tt
      → IsSettled r
          (complete_request faults.service env.num.lt env.candidate_id r.client_id r.id cs now db).1
  completed-settles r cs db h =
      let ranked = number_candidates env.candidate_id 0 (sort_candidates env.num.lt cs) in
      let rows =
        (complete_request-saves faults.service env.num.lt env.candidate_id r.client_id r.id cs now
          db h).0 in
      ap (exists_where (in_progress r.client_id r.id)) rows
      ∙ finish-settles r.client_id r.id (outcome ranked) now db.requests (outcome-ends ranked)

  complete-settles :
      (r : ResolutionRequest) (cs : List (Candidate Num)) (db : Database Num)
      → IsSettled r (complete env faults now r cs db).1
  unfolding complete
  complete-settles r cs db =
      let answer =
        complete_request faults.service env.num.lt env.candidate_id r.client_id r.id cs now db in
      elim (Result-cases answer.0) [
        | inl (done, e) ↦ rw (complete, e) (completed-settles r cs db e)
        | inr (bad, e) ↦
            rw (complete, e)
              (give_up-settles r "CANDIDATE_SAVE_FAILED" candidates_not_saved answer.1)
      ]

  ask-settles :
      faults.metrics ≡ false
      → (r : ResolutionRequest) (o : TrackObservation) (db : Database Num)
      → IsSettled r (ask_providers env faults now r o db).1
  unfolding ask_providers
  ask-settles saved r o db =
      let answer = query_providers env o now env.providers [] false db in
      elim (Result-cases answer.0) [
        | inr (bad, e) ↦
            rw (ask_providers, e)
              (give_up-settles r "PROVIDER_QUERY_FAILED" provider_query_failed answer.1)
        | inl ((candidates, successful), e) ↦
            elim (Bool-cases (not successful && length candidates == 0)) [
              | inl empty ↦
                  rw (ask_providers, e, saved, empty)
                    (give_up-settles r "PROVIDER_UNAVAILABLE" all_providers_failed answer.1)
              | inr some_found ↦
                  rw (ask_providers, e, saved, some_found)
                    (complete-settles r
                      (merge_cross_source_candidates env.unicode env.num candidates) answer.1)
            ]
      ]

  work-settles :
      faults.metrics ≡ false
      → (r : ResolutionRequest) (o : StoredTrackObservation) (db : Database Num)
      → IsSettled r (work env faults now (some (r, o)) db).1
  unfolding work
  work-settles saved r o db =
      elim (Option-cases
        (env.repository.find_recordings (normalize_text env.unicode o.observation.title))) [
          | inl e ↦ rw (work, e) (give_up-settles r "CATALOG_QUERY_FAILED" catalog_query_failed db)
          | inr (recordings, e) ↦
              let candidates = local_candidates env o.observation recordings in
              elim (Bool-cases (length candidates == 0 && ltb 0 (length env.providers))) [
                | inl ask ↦ rw (work, e, ask) (ask-settles saved r o.observation db)
                | inr local ↦ rw (work, e, local) (complete-settles r candidates db)
              ]
        ]

  -- A request that the worker claims is not being matched when RunOnce returns, whatever fails:
  -- the catalog, the providers, what is saved of their answers, the candidates. Only the claim,
  -- the write of the metrics and the write of the failure are assumed to succeed.
  pub run_once-settles :
      faults.metrics ≡ false
      → faults.claim ≡ false
      → (r : ResolutionRequest) (o : StoredTrackObservation) (db : Database Num)
      → (claim_resolution env.sooner now db).0 ≡ ok (some (r, o))
      → IsSettled r (run_once env faults now db).1
  unfolding run_once
  run_once-settles saved reached r o db h =
      rw (reached, h) (work-settles saved r o (claim_resolution env.sooner now db).1)
