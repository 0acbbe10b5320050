-- ===== src/Resolution/Service/Frames.antt =====
-- What the operations on observations and requests leave alone.
use wildman_service.Base.{
  ℕ, String, ◌≡◌, Bool, false, arith, Faults, int_eq, string_eq, nat_eq, ◌==◌, list_eq, ok,
}
use wildman_service.Catalog.{TrackObservation, ResolutionRequest}
use wildman_service.Resolution.Store.{
  upsert_track_observation, create_resolution_request, answer_creation,
}
use wildman_service.Resolution.Service.{create_request, upsert_observation}
use wildman_service.Database.{Database}

module _ {Num : Type 0} (faults : Faults) (client_id : String) (now : ℕ) (db : Database Num) where
  pub upsert_observation-frame :
      (valid : TrackObservation → Bool) (observation_hash : TrackObservation → String)
      (observation : TrackObservation) (id : String)
      → let after =
          (upsert_observation faults valid observation_hash client_id observation id now db).1 in
        (after.clients ≡ db.clients)
        × (after.consumptions ≡ db.consumptions)
        × (after.usages ≡ db.usages)
        × (after.requests ≡ db.requests)
  unfolding upsert_observation upsert_track_observation
  upsert_observation-frame valid observation_hash observation id =
      (ground arith, ground arith, ground arith, ground arith)

  pub create_request-frame :
      (observation_id key id : String)
      → let after = (create_request faults client_id observation_id key id now db).1 in
        (after.clients ≡ db.clients)
        × (after.consumptions ≡ db.consumptions)
        × (after.usages ≡ db.usages)
  unfolding create_request create_resolution_request answer_creation
  create_request-frame observation_id key id = (ground arith, ground arith, ground arith)

  -- A request is returned only where the observation is named and the database is reached.
  pub create_request-reached :
      (observation_id key id : String) (r : ResolutionRequest) (b : Bool)
      → (create_request faults client_id observation_id key id now db).0 ≡ ok (r, b)
      → ((observation_id == "") ≡ false) × (faults 0 ≡ false)
  unfolding create_request
  create_request-reached observation_id key id r b h = (ground (arith, h), ground (arith, h))
