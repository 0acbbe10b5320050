-- ===== src/Resolution/Service/Idempotence.antt =====
-- A request is created once for an idempotency key of a client.
use wildman_service.Base.{
  ℕ, String, ◌≡◌, refl, inl, inr, Bool, false, some, [], ◌∷◌, ◌++◌, arith, Bool-cases, Option-cases,
  Faults, first_where, exists_where, exists-first_where, int_eq, string_eq, nat_eq, ◌==◌, list_eq,
  ok,
}
use wildman_service.Catalog.{ResolutionRequest}
use wildman_service.Resolution.Tables.{is_request_of}
use wildman_service.Resolution.Store.{answer_creation, create_resolution_request}
use wildman_service.Resolution.Service.{new_request, create_request}
use wildman_service.Database.{Database}

module _ {Num : Type 0} where
  created_found :
      (r s : ResolutionRequest) (b : Bool) (db : Database Num)
      → (create_resolution_request r db).0 ≡ ok (s, b)
      → first_where
          (is_request_of r.client_id r.idempotency_key)
          (create_resolution_request r db).1.requests
        ≡ some s
  unfolding create_resolution_request answer_creation
  created_found r s b db h =
      let own = is_request_of r.client_id r.idempotency_key in
      elim (Bool-cases (exists_where own db.requests)) [
        | inl old ↦ elim (Option-cases (first_where own db.requests)) [
          | inl e ↦ absurd (ground (arith, old, e))
          | inr (q, e) ↦ ground (arith, old, e)
        ]
        | inr new ↦ elim (Option-cases (first_where own (db.requests ++ (r ∷ [])))) [
          | inl e ↦ absurd (ground (arith, new, e))
          | inr (q, e) ↦ ground (arith, new, e)
        ]
      ]

  found_again :
      (r s : ResolutionRequest) (db : Database Num)
      → first_where (is_request_of r.client_id r.idempotency_key) db.requests ≡ some s
      → create_resolution_request r db ≡ (ok (s, false), db)
  unfolding create_resolution_request answer_creation
  found_again r s db h =
      rw (exists-first_where (is_request_of r.client_id r.idempotency_key) db.requests s h, h)

  -- The request of a key is found by every later state that has kept the requests.
  pub create_request-later :
      (faults faults' : Faults) (client_id observation_id observation_id' key id id' : String)
      (now later : ℕ) (r : ResolutionRequest) (b : Bool) (db after : Database Num)
      → (create_request faults client_id observation_id key id now db).0 ≡ ok (r, b)
      → after.requests ≡ (create_request faults client_id observation_id key id now db).1.requests
      → (observation_id' == "") ≡ false
      → faults' 0 ≡ false
      → create_request faults' client_id observation_id' key id' later after
        ≡ (ok (r, false), after)
  unfolding create_request new_request
  create_request-later faults faults' client_id observation_id observation_id' key id id' now later
        r b db after h kept named calm =
      let made = new_request client_id observation_id key id now in
      let asked = new_request client_id observation_id' key id' later in
      ground (arith, created_found made r b db, found_again asked r after, kept)

  -- A client that repeats an idempotency key gets the request that the key created, marked as not
  -- created, and nothing changes, whichever observation it names, whenever it asks, and whichever
  -- id was drawn. The observation must be named, and the second call must reach the database.
  pub create_request-again :
      (faults faults' : Faults) (client_id observation_id observation_id' key id id' : String)
      (now later : ℕ) (r : ResolutionRequest) (b : Bool) (db : Database Num)
      → (create_request faults client_id observation_id key id now db).0 ≡ ok (r, b)
      → (observation_id' == "") ≡ false
      → faults' 0 ≡ false
      → let after = (create_request faults client_id observation_id key id now db).1 in
        create_request faults' client_id observation_id' key id' later after
        ≡ (ok (r, false), after)
  create_request-again faults faults' client_id observation_id observation_id' key id id' now later
        r b db h named calm =
      create_request-later faults faults' client_id observation_id observation_id' key id id' now
        later r b db _ h refl named calm
