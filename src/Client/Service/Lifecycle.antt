-- ===== src/Client/Service/Lifecycle.antt =====
-- From the creation of an installation to its revocation and deletion.
use wildman_service.Base.{
  ℕ, String, ◌≡◌, refl, ap, ◌∙◌, inl, inr, Bool, true, false, ◌&&◌, Option, none, some, List, [],
  ◌∷◌, ◌++◌, arith, eq_iff, if◌then◌else◌, Bool-cases, Result, continue, Faults, relabel, length,
  All, map_option, first_where, exists_where, update_where, first_where-update_where,
  exists-delete_where, int_eq, string_eq, nat_eq, ◌==◌, list_beq_iff, list_eq, Text, trim_space, ok,
  err,
}
use wildman_service.Base64.{url, encode}
use wildman_service.Base64.Laws.{IsByte}
use wildman_service.Client.{Installation, revoked, is_active, status_beq}
use wildman_service.Client.Token.{parse_token}
use wildman_service.Client.Token.Laws.{issue_token-parse, token_of}
use wildman_service.Client.Store.{
  insertable, create_client_installation, revoke_client_installation, delete_client_installation,
  has_token, is_active_row, revoke_row, delete_rows, delete_found,
}
use wildman_service.Client.Service.{
  Error, installation_revoked, store_failed, admit, authenticate, revoke, or_not_found,
  new_installation, create, delete, outcome_of_deletion, reissue,
}
use wildman_service.Client.Service.Authentication.{authenticate_parsed, looked_up}
use wildman_service.Client.Service.Inserted.{inserted-authenticate}
use wildman_service.Catalog.{StoredTrackObservation, ResolutionRequest, ResolutionReview}
use wildman_service.Database.{Database, CandidateRow, insert_audit_event}

clients-revoke :
    {Num : Type 0} (id actor : String) (at : ℕ) (db : Database Num) (i : Installation)
    (sha256_base64 : Text → String) (text_lt : ℕ → ℕ → Bool) (faults : Faults)
    → (revoke sha256_base64 text_lt faults id actor at db).0 ≡ ok i
    → (revoke sha256_base64 text_lt faults id actor at db).1.clients
      ≡ update_where (is_active_row id) (revoke_row at) db.clients
unfolding revoke or_not_found revoke_client_installation insert_audit_event
clients-revoke id actor at db i sha256_base64 text_lt faults h = ground arith

revoked_row :
    {Num : Type 0} (sha256_base64 : Text → String) (text_lt : ℕ → ℕ → Bool) (faults : Faults)
    (id : String) (at later : ℕ) (row : Installation) (db : Database Num)
    → row.id ≡ id
    → (admit sha256_base64 text_lt faults later
        (some (if is_active_row id row then revoke_row at row else row))
        db).0
      ≡ err installation_revoked
unfolding admit is_active_row revoke_row is_active
revoked_row sha256_base64 text_lt faults id at later row db same = ground (arith, eq_iff row.id id)

-- After a revocation that returns, the token of the revoked installation is refused at every later
-- instant as that of a revoked installation, unless the store cannot be read.
pub revoke_stops :
    {Num : Type 0} (sha256_base64 : Text → String) (text_lt : ℕ → ℕ → Bool)
    (faults later_faults : Faults) (id actor : String) (at later : ℕ) (token prefix : Text)
    (db : Database Num) (row i : Installation)
    → later_faults 0 ≡ false
    → parse_token token ≡ ok prefix
    → first_where (has_token prefix (sha256_base64 token)) db.clients ≡ some row
    → row.id ≡ id
    → (revoke sha256_base64 text_lt faults id actor at db).0 ≡ ok i
    → (authenticate sha256_base64 text_lt later_faults later token
        (revoke sha256_base64 text_lt faults id actor at db).1).0
      ≡ err installation_revoked
unfolding looked_up has_token revoke_row
revoke_stops sha256_base64 text_lt faults later_faults id actor at later token prefix db row i up
      good found same done =
    let db' = (revoke sha256_base64 text_lt faults id actor at db).1 in
    let q = has_token prefix (sha256_base64 token) in
    let row' : first_where q db'.clients
        ≡ some (if is_active_row id row then revoke_row at row else row) =
      ap (first_where q) (clients-revoke id actor at db i sha256_base64 text_lt faults done)
      ∙ first_where-update_where q (is_active_row id) (revoke_row at) db.clients (λ a. refl)
      ∙ ap (map_option (λ (a : Installation). if is_active_row id a then revoke_row at a else a))
          found in
    rw
      (authenticate_parsed sha256_base64 text_lt later_faults later token prefix db' good, up, row')
      (revoked_row sha256_base64 text_lt later_faults id at later row db' same)

create_effect :
    {Num : Type 0} (sha256_base64 : Text → String) (text_lt : ℕ → ℕ → Bool) (faults : Faults)
    (name : Text) (created_by id : String) (p s : List ℕ) (now : ℕ) (db : Database Num)
    (i : Installation) (token : Text)
    → All IsByte p
    → All IsByte s
    → length p ≡ 8
    → length s ≡ 32
    → (create sha256_base64 text_lt faults name created_by id p s now db).0 ≡ ok (i, token)
    → let db' = (create sha256_base64 text_lt faults name created_by id p s now db).1 in
      (token ≡ token_of p s)
      × (i
          ≡ new_installation id (trim_space name) created_by now (record {
            value = token_of p s;
            prefix = encode url p;
            hash = sha256_base64 (token_of p s);
          }))
      × (insertable i db ≡ true)
      × (db'.clients ≡ db.clients ++ (i ∷ []))
unfolding create create_client_installation insert_audit_event reissue
create_effect sha256_base64 text_lt faults name created_by id p s now db i token hp hs lp ls h =
    ground (arith, (issue_token-parse sha256_base64 p s hp hs lp ls).0)

-- A created installation is let in by the token that Create returned with it, at any later instant,
-- as the row that was inserted with its first use noted, if the store answers.
pub create-authenticate :
    {Num : Type 0} (sha256_base64 : Text → String) (text_lt : ℕ → ℕ → Bool)
    (faults later_faults : Faults) (name : Text) (created_by id : String) (p s : List ℕ)
    (now later : ℕ) (db : Database Num) (i : Installation) (token : Text)
    → All IsByte p
    → All IsByte s
    → length p ≡ 8
    → length s ≡ 32
    → later_faults 0 ≡ false
    → later_faults 1 ≡ false
    → (create sha256_base64 text_lt faults name created_by id p s now db).0 ≡ ok (i, token)
    → (authenticate sha256_base64 text_lt later_faults later token
        (create sha256_base64 text_lt faults name created_by id p s now db).1).0
      ≡ ok (record i { last_seen_at = some later })
unfolding new_installation is_active status_beq
create-authenticate sha256_base64 text_lt faults later_faults name created_by id p s now later db i
      token hp hs lp ls up₀ up₁ h =
    let (tok, new, free, rows) =
      create_effect sha256_base64 text_lt faults name created_by id p s now db i token hp hs lp ls
        h in
    let db' = (create sha256_base64 text_lt faults name created_by id p s now db).1 in
    rw tok (
      inserted-authenticate sha256_base64 text_lt later_faults p s later i db db' hp hs lp ls free
        rows (rw new) (rw new) (rw new) (rw new) up₀ up₁)

-- What a deletion leaves, by its result.
abbrev pub Deletion :
    {Num : Type 0} → String → Text → Database Num → Result Error (Unit {0}) → Database Num → Type 0
Deletion id name db (err e) db' = db' ≡ db
Deletion id name db (ok _) db' =
    ((i : Installation) × (first_where (λ j. j.id == id) db.clients ≡ some i)
      × (i.status ≡ revoked)
      × (i.name ≡ name))
    × (exists_where (λ j. j.id == id) db'.clients ≡ false)
    × (exists_where (λ o. o.client_id == id) db'.observations ≡ false)
    × (exists_where (λ q. q.client_id == id) db'.requests ≡ false)
    × (exists_where (λ v. v.client_id == id) db'.reviews ≡ false)
    × (exists_where (λ c. exists_where (λ r. r.id == c.request_id && r.client_id == id) db.requests)
          db'.candidates
        ≡ false)

found-Deletion :
    {Num : Type 0} (sha256_base64 : Text → String) (text_lt : ℕ → ℕ → Bool) (faults : Faults)
    (id actor : String) (name : Text) (now : ℕ) (db : Database Num) (o : Option Installation)
    → first_where (λ j. j.id == id) db.clients ≡ o
    → let stored = delete_found id name actor now o db in
      let r =
        continue
          (relabel store_failed stored.0)
          (outcome_of_deletion sha256_base64 text_lt faults)
          stored.1 in
      Deletion id name db r.0 r.1
unfolding delete_found outcome_of_deletion insert_audit_event delete_rows status_beq
found-Deletion sha256_base64 text_lt faults id actor name now db none e = refl
found-Deletion {Num} sha256_base64 text_lt faults id actor name now db (some i) e = ground (
  arith,
  list_beq_iff i.name name,
  exists-delete_where (λ (j : Installation). j.id == id) db.clients,
  exists-delete_where (λ (o : StoredTrackObservation). o.client_id == id) db.observations,
  exists-delete_where (λ (q : ResolutionRequest). q.client_id == id) db.requests,
  exists-delete_where (λ (v : ResolutionReview). v.client_id == id) db.reviews,
  exists-delete_where
      (λ (c : CandidateRow Num).
        exists_where (λ (r : ResolutionRequest). r.id == c.request_id && r.client_id == id)
          db.requests)
      db.candidates,
)

-- If Delete returns, the installation was there, revoked, and called by the trimmed name that came
-- with the request; and neither it nor a request, candidate, observation or review of it is left. If
-- Delete fails, nothing has changed.
pub delete-Deletion :
    {Num : Type 0} (sha256_base64 : Text → String) (text_lt : ℕ → ℕ → Bool) (faults : Faults)
    (id actor : String) (expected_name : Text) (now : ℕ) (db : Database Num)
    → Deletion id
        (trim_space expected_name)
        db
        (delete sha256_base64 text_lt faults id expected_name actor now db).0
        (delete sha256_base64 text_lt faults id expected_name actor now db).1
unfolding delete delete_client_installation
delete-Deletion sha256_base64 text_lt faults id actor expected_name now db =
    elim (Bool-cases (id == "")) [
      | inl blank ↦ rw (delete, blank)
      | inr given ↦ elim (Bool-cases (faults 0)) [
        | inl down ↦ rw (delete, given, down)
        | inr up ↦
            rw (delete, given, up)
              (found-Deletion sha256_base64 text_lt faults id actor (trim_space expected_name) now
                db _ refl)
      ]
    ]
