-- ===== src/Resolution/Lifecycle.antt =====
-- The states of a request, over every order of the operations of the stores
-- (internal/infra/database/resolution_store.go, candidate_store.go, worker_store.go).
use wildman_service.Base.{
  ℕ, String, ◌≡◌, refl, inl, inr, Bool, true, ◌&&◌, Option, none, some, List, [], ◌∷◌, ◌++◌, arith,
  Bool-cases, Option-cases, first_where, exists_where, int_eq, string_eq, nat_eq, ◌==◌, list_eq,
}
use wildman_service.Catalog.{ResolutionRequest, Candidate}
use wildman_service.Resolution.Tables.{
  is_request_of, is_request, finish_row, claim_row, fail_row, in_progress, oldest_queued, outcome,
}
use wildman_service.Resolution.Store.{
  answer_creation, request_insertable, create_resolution_request, keep_candidates,
  save_resolution_candidates, claim_found, claim_resolution, fail_resolution,
}
use wildman_service.Database.{Database, CandidateRow}
use wildman_service.Resolution.Rows.{
  row_holds, AreSound, update-AreSound, All-rows, snoc-AreSound, claimed_rows, claim-All,
  finish_row_holds, fail_row_holds,
}

-- One operation of a client or of the worker, with what it was called with.
pub data Step {Num : Type 0} : Database Num → Database Num → Type 0 where
  creates :
      (r : ResolutionRequest) {db : Database Num}
      → row_holds r ≡ true
      → Step db (create_resolution_request r db).1
  claims :
      (sooner : ResolutionRequest → ResolutionRequest → Bool) (now : ℕ) {db : Database Num}
      → Step db (claim_resolution sooner now db).1
  fails :
      (client_id request_id error_code : String) (at : ℕ) {db : Database Num}
      → Step db (fail_resolution client_id request_id error_code at db).1
  completes :
      (client_id request_id : String) (cs : List (Candidate Num)) (at : ℕ) {db : Database Num}
      → Step db (save_resolution_candidates client_id request_id cs at db).1

pub data Steps {Num : Type 0} : Database Num → Database Num → Type 0 where
  start : {db : Database Num} → Steps db db
  step : {a b c : Database Num} → Steps a b → Step b c → Steps a c

module _ {Num : Type 0} where
  create-AreSound :
      (r : ResolutionRequest) (db : Database Num)
      → row_holds r ≡ true
      → AreSound db.requests
      → AreSound (create_resolution_request r db).1.requests
  unfolding create_resolution_request request_insertable answer_creation
  create-AreSound r db h s =
      let own = is_request_of r.client_id r.idempotency_key in
      elim (Bool-cases (exists_where own db.requests)) [
        | inl old ↦ elim (Option-cases (first_where own db.requests)) [
          | inl e ↦ rw (create_resolution_request, old, answer_creation, e) s
          | inr (q, e) ↦ rw (create_resolution_request, old, answer_creation, e) s
        ]
        | inr new ↦ elim (Bool-cases (request_insertable r db)) [
          | inr bad ↦ rw (create_resolution_request, new, bad) s
          | inl good ↦ elim (Option-cases (first_where own (db.requests ++ (r ∷ [])))) [
            | inl e ↦ rw (create_resolution_request, new, good, answer_creation, e) s
            | inr (q, e) ↦
                rw (create_resolution_request, new, good, answer_creation, e)
                  (snoc-AreSound r db.requests h (unfold request_insertable in ground (arith, good))
                    s)
          ]
        ]
      ]

  claim-AreSound :
      (sooner : ResolutionRequest → ResolutionRequest → Bool) (now : ℕ) (db : Database Num)
      → AreSound db.requests
      → AreSound (claim_resolution sooner now db).1.requests
  unfolding claim_resolution claim_found claim_row
  claim-AreSound sooner now db s = elim (Option-cases (oldest_queued sooner db.requests)) [
    | inl e ↦ rw e s
    | inr (r, e) ↦
        elim (Option-cases (
          first_where (λ o. o.id == r.observation_id && o.client_id == r.client_id)
            db.observations)) [
              | inl gone ↦ rw (e, claim_found, gone) s
              | inr (o, found) ↦
                  rw (e, claim_found, found)
                    (update-AreSound (λ q. q.id == r.id) (claim_row now) (λ q. refl) db.requests
                      (claim-All (λ q. q.id == r.id) now db.requests
                        (claimed_rows sooner r db.requests s e))
                      s)
            ]
  ]

  fail-AreSound :
      (client_id request_id error_code : String) (at : ℕ) (db : Database Num)
      → AreSound db.requests
      → AreSound (fail_resolution client_id request_id error_code at db).1.requests
  unfolding fail_resolution fail_row
  fail-AreSound client_id request_id error_code at db s =
      update-AreSound (in_progress client_id request_id) (fail_row error_code at) (λ q. refl)
        db.requests (All-rows db.requests (fail_row_holds client_id request_id error_code at)) s

  complete-AreSound :
      (client_id request_id : String) (cs : List (Candidate Num)) (at : ℕ) (db : Database Num)
      → AreSound db.requests
      → AreSound (save_resolution_candidates client_id request_id cs at db).1.requests
  unfolding save_resolution_candidates finish_row
  complete-AreSound client_id request_id cs at db s =
      elim (Bool-cases (exists_where (is_request client_id request_id) db.requests)) [
        | inr gone ↦ rw gone s
        | inl there ↦ rw there (by_rows _)
      ]
    where
      by_rows :
          (o : Option (List (CandidateRow Num)))
          → AreSound (keep_candidates client_id request_id (outcome cs) at o db).1.requests
      by_rows none = unfold keep_candidates in s
      by_rows (some rows) =
          unfold keep_candidates in
          update-AreSound (is_request client_id request_id) (finish_row (outcome cs) at) (λ q. refl)
            db.requests (All-rows db.requests (λ q _ _. finish_row_holds cs at q)) s

  Step-AreSound : {a b : Database Num} → Step a b → AreSound a.requests → AreSound b.requests
  Step-AreSound (creates r {db} h) s = create-AreSound r db h s
  Step-AreSound (claims sooner now {db}) s = claim-AreSound sooner now db s
  Step-AreSound (fails client_id request_id error_code at {db}) s =
      fail-AreSound client_id request_id error_code at db s
  Step-AreSound (completes client_id request_id cs at {db}) s =
      complete-AreSound client_id request_id cs at db s

  -- Whatever creations, claims, failures and completions follow each other, in whatever order and
  -- with whatever arguments: if it was so before, the ids of the requests are different, a queued
  -- request is neither started nor finished, one that is being matched is started and not
  -- finished, one that is matched or without match is finished, a failed one is both, and only a
  -- failed one has an error code. A request that is created must be so by itself.
  pub Steps-AreSound : {a b : Database Num} → Steps a b → AreSound a.requests → AreSound b.requests
  Steps-AreSound start s = s
  Steps-AreSound (step more last) s = Step-AreSound last (Steps-AreSound more s)
