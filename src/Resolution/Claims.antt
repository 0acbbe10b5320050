-- ===== src/Resolution/Claims.antt =====
-- Workers do not claim a request twice: ClaimResolution of internal/infra/database/worker_store.go.
use wildman_service.Base.{
  ℕ, String, ◌≡◌, refl, sym, ap, subst, ◌≢◌, inl, inr, Bool, true, false, ◌&&◌, some, List, [], ◌∷◌,
  arith, Bool-cases, Option-cases, All, first_where, update_where, int_eq, string_eq, nat_eq, ◌==◌,
  eq_self, list_eq, ok,
}
use wildman_service.Catalog.{StoredTrackObservation, ResolutionRequest, queued, status_beq}
use wildman_service.Resolution.Tables.{claim_row, has_status, sooner_of, oldest_queued}
use wildman_service.Resolution.Store.{claim_found, claim_resolution}
use wildman_service.Database.{Database}

-- The rows with an id that was claimed are not queued.
update-claimed :
    (id : String) (now : ℕ) (rs : List ResolutionRequest)
    → All
        (λ q. (q.id == id) ≡ true → has_status queued q ≡ false)
        (update_where (λ q. q.id == id) (claim_row now) rs)
unfolding update_where claim_row has_status status_beq
update-claimed id now [] = tt
update-claimed id now (r ∷ rs) = elim (Bool-cases (r.id == id)) [
  | inl hit ↦ rw hit (λ _. refl, update-claimed id now rs)
  | inr miss ↦ rw miss (λ h. absurd (ground (arith, h, miss)), update-claimed id now rs)
]

-- The oldest queued row is not one of them.
oldest-other :
    (sooner : ResolutionRequest → ResolutionRequest → Bool) (id : String) (r : ResolutionRequest)
    (rs : List ResolutionRequest)
    → All (λ q. (q.id == id) ≡ true → has_status queued q ≡ false) rs
    → oldest_queued sooner rs ≡ some r
    → (r.id == id) ≡ false
unfolding oldest_queued sooner_of
oldest-other sooner id r [] k h = absurd (ground (arith, h))
oldest-other sooner id r (q ∷ rs) k h = elim (Bool-cases (has_status queued q)) [
  | inr other ↦ oldest-other sooner id r rs k.1 (ground (arith, other, h))
  | inl waiting ↦
      let apart : (q.id == id) ≡ false = ground (arith, k.0, waiting) in
      elim (Option-cases (oldest_queued sooner rs)) [
        | inl e ↦ ground (arith, waiting, e, h, apart)
        | inr (p, e) ↦
            let rest = oldest-other sooner id p rs k.1 e in
            ground (arith, waiting, e, h, apart, rest)
      ]
]

module _ {Num : Type 0} (sooner : ResolutionRequest → ResolutionRequest → Bool) (now : ℕ) where
  claim-row :
      (r : ResolutionRequest) (o : StoredTrackObservation) (db : Database Num)
      → (claim_resolution sooner now db).0 ≡ ok (some (r, o))
      → (claim_resolution sooner now db).1.requests
        ≡ update_where (λ q. q.id == r.id) (claim_row now) db.requests
  unfolding claim_resolution claim_found claim_row
  claim-row r o db h = elim (Option-cases (oldest_queued sooner db.requests)) [
    | inl e ↦ absurd (ground (arith, h, e))
    | inr (q, e) ↦
        elim (Option-cases (
          first_where (λ p. p.id == q.observation_id && p.client_id == q.client_id)
            db.observations)) [
              | inl gone ↦ absurd (ground (arith, h, e, gone))
              | inr (p, found) ↦
                  let id : q.id ≡ r.id = ground (arith, h, e, found) in
                  rw (e, claim_found, found)
                    (ap (λ i. update_where (λ x. x.id == i) (claim_row now) db.requests) id)
            ]
  ]

  claim-oldest :
      (r : ResolutionRequest) (o : StoredTrackObservation) (db : Database Num)
      → (claim_resolution sooner now db).0 ≡ ok (some (r, o))
      → (q : ResolutionRequest) × (oldest_queued sooner db.requests ≡ some q) × (r.id ≡ q.id)
  unfolding claim_resolution claim_found claim_row
  claim-oldest r o db h = elim (Option-cases (oldest_queued sooner db.requests)) [
    | inl e ↦ absurd (ground (arith, h, e))
    | inr (q, e) ↦
        elim (Option-cases (
          first_where (λ p. p.id == q.observation_id && p.client_id == q.client_id)
            db.observations)) [
              | inl gone ↦ absurd (ground (arith, h, e, gone))
              | inr (p, found) ↦ (q, e, ground (arith, h, e, found))
            ]
  ]

-- Two claims, one after the other, by the same worker or by two, never return the same request.
pub claim_resolution-again :
    {Num : Type 0} (sooner sooner' : ResolutionRequest → ResolutionRequest → Bool) (now later : ℕ)
    (r r' : ResolutionRequest) (o o' : StoredTrackObservation) (db : Database Num)
    → (claim_resolution sooner now db).0 ≡ ok (some (r, o))
    → (claim_resolution sooner' later (claim_resolution sooner now db).1).0 ≡ ok (some (r', o'))
    → r'.id ≢ r.id
claim_resolution-again sooner sooner' now later r r' o o' db h k same =
    let after = claim_resolution sooner now db in
    let (q, oldest, e) = claim-oldest sooner' later r' o' after.1 k in
    let rows : All (λ q. (q.id == r.id) ≡ true → has_status queued q ≡ false) after.1.requests =
      subst (λ rs. All (λ q. (q.id == r.id) ≡ true → has_status queued q ≡ false) rs)
        (sym (claim-row sooner now r o db h)) (update-claimed r.id now db.requests) in
    let other = oldest-other sooner' r.id q after.1.requests rows oldest in
    absurd (ground (arith, other, eq_self r.id, e, same))
