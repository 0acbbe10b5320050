-- ===== src/Worker/Run.antt =====
-- RunOnce: internal/app/worker/service.go.
use wildman_service.Base.{
  ℕ, String, Bool, true, false, not, ◌&&◌, Option, none, some, List, [], ltb, if◌then◌else◌, Exec,
  call_quietly, length, int_eq, ◌==◌, nat_eq, string_eq, list_eq, ok, err,
}
use wildman_service.Catalog.{TrackObservation, StoredTrackObservation, ResolutionRequest, Candidate}
use wildman_service.Catalog.Normalization.{normalize_text}
use wildman_service.Catalog.CrossSource.{merge_cross_source_candidates}
use wildman_service.Resolution.Store.{claim_resolution, fail_resolution}
use wildman_service.Resolution.Service.{complete_request}
use wildman_service.Database.{Database}
use wildman_service.Worker.Model.{
  WorkerError, claim_failed, catalog_query_failed, provider_query_failed, metrics_not_saved,
  all_providers_failed, candidates_not_saved, Environment, WorkerFaults,
}
use wildman_service.Worker.Query.{query_providers, local_candidates}

module _ {Num : Type 0} (env : Environment Num) (faults : WorkerFaults) (now : ℕ) where
  -- `_ = FailResolution(...)`, then the error.
  unfoldable pub give_up :
      ResolutionRequest → String → WorkerError → Exec WorkerError (Database Num) Bool
  give_up r code e db =
      (err e, call_quietly faults.fail (fail_resolution r.client_id r.id code now) db)

  -- The end of RunOnce.
  unfoldable pub complete :
      ResolutionRequest → List (Candidate Num) → Exec WorkerError (Database Num) Bool
  unfolding give_up
  complete r candidates db =
      let (done, db') =
        complete_request faults.service env.num.lt env.candidate_id r.client_id r.id candidates now
          db in
      elim done [
        | ok _ ↦ (ok true, db')
        | err _ ↦ give_up r "CANDIDATE_SAVE_FAILED" candidates_not_saved db'
      ]

  unfoldable pub ask_providers :
      ResolutionRequest → TrackObservation → Exec WorkerError (Database Num) Bool
  unfolding give_up complete
  ask_providers r o db =
      let (answer, db') = query_providers env o now env.providers [] false db in
      elim answer [
        | err _ ↦ give_up r "PROVIDER_QUERY_FAILED" provider_query_failed db'
        | ok (candidates, successful) ↦
            if faults.metrics
            then (err metrics_not_saved, db')
            else if not successful && length candidates == 0
            then give_up r "PROVIDER_UNAVAILABLE" all_providers_failed db'
            else complete r (merge_cross_source_candidates env.unicode env.num candidates) db'
      ]

  -- The code after the claim.
  unfoldable pub work :
      Option (ResolutionRequest × StoredTrackObservation) → Exec WorkerError (Database Num) Bool
  unfolding give_up complete ask_providers normalize_text
  work none db = (ok false, db)
  work (some (r, stored)) db =
      elim (env.repository.find_recordings (normalize_text env.unicode stored.observation.title)) [
        | none ↦ give_up r "CATALOG_QUERY_FAILED" catalog_query_failed db
        | some recordings ↦
            let candidates = local_candidates env stored.observation recordings in
            if length candidates == 0 && ltb 0 (length env.providers)
            then ask_providers r stored.observation db
            else complete r candidates db
      ]

  -- RunOnce
  unfoldable pub run_once : Exec WorkerError (Database Num) Bool
  unfolding work
  run_once db =
      let (claimed, db') = claim_resolution env.sooner now db in
      if faults.claim
      then (err claim_failed, db)
      else elim claimed [ err _ ↦ (err claim_failed, db') | ok found ↦ work found db' ]
