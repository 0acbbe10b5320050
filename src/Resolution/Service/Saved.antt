-- ===== src/Resolution/Service/Saved.antt =====
-- The rows that a completed request leaves.
use wildman_service.Base.{
  ℕ, String, ◌≡◌, refl, ◌∙◌, inl, inr, Bool, true, false, Option, none, some, List, [], ◌∷◌, ◌++◌,
  arith, Bool-cases, Faults, exists_where, update_where, delete_where, int_eq, string_eq, nat_eq,
  ◌==◌, list_eq, append_assoc, append_nil, ok,
}
use wildman_service.Catalog.{Candidate}
use wildman_service.Resolution.Tables.{
  is_request, finish_row, outcome, candidate_rows, candidate_fits, insert_candidates,
  have_referents,
}
use wildman_service.Resolution.Store.{only_if, keep_candidates, save_resolution_candidates}
use wildman_service.Resolution.Ranking.{sort_candidates, number_candidates}
use wildman_service.Resolution.Service.{complete_request}
use wildman_service.Database.{Database, CandidateRow}

-- Rows that are all inserted stand after those that were there.
insert_candidates-append :
    {Num : Type 0} (cs rows after : List (CandidateRow Num))
    → insert_candidates cs rows ≡ some after
    → after ≡ rows ++ cs
unfolding insert_candidates
insert_candidates-append [] rows after h = ground (arith, h, append_nil rows)
insert_candidates-append (c ∷ cs) rows after h = elim (Bool-cases (candidate_fits c rows)) [
  | inl fits ↦
      insert_candidates-append cs (rows ++ (c ∷ [])) after (rw fits at h) ∙ append_assoc rows c cs
  | inr clash ↦ absurd (ground (arith, h, clash))
]

only_if-some :
    {Num : Type 0} (known : Bool) (o : Option (List (CandidateRow Num)))
    (rows : List (CandidateRow Num))
    → only_if known o ≡ some rows
    → o ≡ some rows
only_if-some true o rows h = h
only_if-some false o rows h = cc

module _ {Num : Type 0} (client_id request_id : String) (cs : List (Candidate Num)) (at : ℕ)
    (db : Database Num) where
  save-ok :
      (save_resolution_candidates client_id request_id cs at db).0 ≡ ok true
      → ((save_resolution_candidates client_id request_id cs at db).1.requests
          ≡ update_where (is_request client_id request_id) (finish_row (outcome cs) at) db.requests)
        × ((save_resolution_candidates client_id request_id cs at db).1.candidates
            ≡ delete_where (λ c. c.request_id == request_id) db.candidates
              ++ candidate_rows request_id cs)
  unfolding save_resolution_candidates
  save-ok h = elim (Bool-cases (exists_where (is_request client_id request_id) db.requests)) [
    | inr gone ↦ absurd (ground (arith, h, gone))
    | inl there ↦ rw there (
        by_rows
          (only_if (have_referents db cs) (
            insert_candidates (candidate_rows request_id cs)
              (delete_where (λ c. c.request_id == request_id) db.candidates)))
          refl (rw there at h))
  ]
    where
      by_rows :
          (o : Option (List (CandidateRow Num)))
          → only_if (have_referents db cs) (
              insert_candidates
                (candidate_rows request_id cs)
                (delete_where (λ c. c.request_id == request_id) db.candidates))
            ≡ o
          → (keep_candidates client_id request_id (outcome cs) at o db).0 ≡ ok true
          → ((keep_candidates client_id request_id (outcome cs) at o db).1.requests
              ≡ update_where
                  (is_request client_id request_id)
                  (finish_row (outcome cs) at)
                  db.requests)
            × ((keep_candidates client_id request_id (outcome cs) at o db).1.candidates
                ≡ delete_where (λ c. c.request_id == request_id) db.candidates
                  ++ candidate_rows request_id cs)
      by_rows none e k = absurd (unfold keep_candidates in ground (arith, k))
      by_rows (some rows) e k =
          unfold keep_candidates in
          (
            refl,
            insert_candidates-append (candidate_rows request_id cs) _ rows
                (only_if-some (have_referents db cs) _ rows e),
          )

module _ {Num : Type 0} (faults : Faults) (lt : Num → Num → Bool) (new_id : ℕ → String)
    (client_id request_id : String) (cs : List (Candidate Num)) (now : ℕ) (db : Database Num) where
  abbrev pub ranking : List (Candidate Num)
  ranking = number_candidates new_id 0 (sort_candidates lt cs)

  pub complete_request-saves :
      (complete_request faults lt new_id client_id request_id cs now db).0 ≡ ok tt
      → ((complete_request faults lt new_id client_id request_id cs now db).1.requests
          ≡ update_where
              (is_request client_id request_id)
              (finish_row (outcome ranking) now)
              db.requests)
        × ((complete_request faults lt new_id client_id request_id cs now db).1.candidates
            ≡ delete_where (λ c. c.request_id == request_id) db.candidates
              ++ candidate_rows request_id ranking)
        × (exists_where (is_request client_id request_id) db.requests ≡ true)
  unfolding complete_request
  complete_request-saves h =
      let saved = save-ok client_id request_id ranking now db in
      (ground (arith, h, saved), ground (arith, h, saved), ground (arith, h, there))
    where
      there :
          exists_where (is_request client_id request_id) db.requests ≡ false
          → (save_resolution_candidates client_id request_id ranking now db).0 ≡ ok false
      there gone = unfold save_resolution_candidates in rw gone refl
