-- ===== src/Provider/Sources/Once.antt =====
-- An answer of a provider is recorded once.
use wildman_service.Base.{
  ℕ, String, ◌≡◌, inl, inr, Bool, false, some, List, [], ◌∷◌, ◌++◌, arith, Bool-cases, Option-cases,
  first_where, exists_where, exists-first_where, int_eq, nat_eq, string_eq, list_eq, ok,
}
use wildman_service.Catalog.{SourceObservation, SourceEntityType}
use wildman_service.Provider.Sources.{
  same_source, answer_source, new_source, create_source_observation, record_source,
}
use wildman_service.Database.{Database}

module _ {Num : Type 0} where
  recorded_found :
      (o p : SourceObservation) (b : Bool) (db : Database Num)
      → (create_source_observation o db).0 ≡ ok (p, b)
      → first_where (same_source o) (create_source_observation o db).1.sources ≡ some p
  unfolding create_source_observation answer_source
  recorded_found o p b db h = elim (Bool-cases (exists_where (same_source o) db.sources)) [
    | inl old ↦ elim (Option-cases (first_where (same_source o) db.sources)) [
      | inl e ↦ absurd (ground (arith, old, e))
      | inr (q, e) ↦ ground (arith, old, e)
    ]
    | inr new ↦ elim (Option-cases (first_where (same_source o) (db.sources ++ (o ∷ [])))) [
      | inl e ↦ absurd (ground (arith, new, e))
      | inr (q, e) ↦ ground (arith, new, e)
    ]
  ]

  recorded_again :
      (o p : SourceObservation) (db : Database Num)
      → first_where (same_source o) db.sources ≡ some p
      → create_source_observation o db ≡ (ok (p, false), db)
  unfolding create_source_observation answer_source
  recorded_again o p db h = rw (exists-first_where (same_source o) db.sources p h, h)

  -- The same payload of the same entity of a provider is recorded once: recording it again gives the
  -- row that is there, marked as not created, and nothing changes, whatever its canonical entity and
  -- its time to live are; the second call must reach the database.
  pub record_source-again :
      (fault : Bool) (valid_json : List ℕ → Bool) (digest : List ℕ → String)
      (provider version external_id : String) (entity : SourceEntityType)
      (canonical canonical' id id' : String) (payload : List ℕ) (ttl ttl' now later : ℕ)
      (o : SourceObservation) (b : Bool) (db : Database Num)
      → (record_source fault valid_json digest provider version entity external_id canonical payload
          ttl id now db).0
        ≡ ok (o, b)
      → let after =
          (record_source fault valid_json digest provider version entity external_id canonical
            payload ttl id now db).1 in
        record_source false valid_json digest provider version entity external_id canonical' payload
          ttl' id' later after
        ≡ (ok (o, false), after)
  unfolding record_source same_source new_source
  record_source-again fault valid_json digest provider version external_id entity canonical
        canonical' id id' payload ttl ttl' now later o b db h =
      let made =
        new_source digest provider version entity external_id canonical payload ttl id now in
      let asked =
        new_source digest provider version entity external_id canonical' payload ttl' id' later in
      ground (
        arith,
        recorded_found made o b db,
        recorded_again asked o (create_source_observation made db).1,
      )
