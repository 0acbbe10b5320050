-- ===== src/Client/Store.antt =====
-- ClientStore: internal/infra/database/client_store.go.
use wildman_service.Base.{
  ℕ, String, Bool, true, false, not, ◌&&◌, ◌||◌, Option, none, some, [], ◌∷◌, ◌++◌, if◌then◌else◌,
  is_some, Exec, StoreError, first_where, exists_where, update_where, delete_where, count_where,
  int_eq, ◌==◌, nat_eq, string_eq, list_eq, Text, ok, err, constraint_violation,
}
use wildman_service.Client.{Installation, active, revoked, status_beq}
use wildman_service.Database.{Database, insert_audit_event}

-- The WHERE clause of the updates: the row of an active installation.
unfoldable pub is_active_row : String → Installation → Bool
unfolding status_beq
is_active_row id i = i.id == id && status_beq i.status active && not (is_some i.revoked_at)

unfoldable pub revoke_row : ℕ → Installation → Installation
revoke_row at i = record i { status = revoked; revoked_at = some at }

unfoldable pub has_token : Text → String → Installation → Bool
has_token token_prefix token_hash i = i.token_prefix == token_prefix && i.token_hash == token_hash

-- `text_lt` is the order in which the database compares two times that are stored as text.
later_seen : (ℕ → ℕ → Bool) → ℕ → Option ℕ → Option ℕ
later_seen text_lt at none = some at
later_seen text_lt at (some last) = if text_lt last at then some at else some last

touch_row : (ℕ → ℕ → Bool) → ℕ → Installation → Installation
unfolding later_seen
touch_row text_lt at i = record i { last_seen_at = later_seen text_lt at i.last_seen_at }

module _ {Num : Type 0} where
  -- The unique columns and the foreign key of client_installations.
  unfoldable pub insertable : Installation → Database Num → Bool
  insertable i db =
      not (
        exists_where
          (λ j. j.id == i.id || j.token_prefix == i.token_prefix || j.token_hash == i.token_hash)
          db.clients)
      && exists_where (λ u. u.id == i.created_by_user_id) db.users

  -- CreateClientInstallation
  unfoldable pub create_client_installation :
      Installation → Exec StoreError (Database Num) (Unit {0})
  unfolding insertable insert_audit_event
  create_client_installation i db =
      if insertable i db
      then (
        ok tt,
        insert_audit_event i.created_by_user_id "client.created" "client" i.id i.created_at
            (record db { clients = db.clients ++ (i ∷ []) }),
      )
      else (err constraint_violation, db)

  -- RevokeClientInstallation: the installation as it is afterwards, or `none`.
  unfoldable pub revoke_client_installation :
      String → String → ℕ → Exec StoreError (Database Num) (Option Installation)
  unfolding insert_audit_event is_active_row revoke_row
  revoke_client_installation id actor at db =
      let rows = count_where (is_active_row id) db.clients in
      let updated = record db {
        clients = update_where (is_active_row id) (revoke_row at) db.clients;
      } in
      let audited =
        if rows == 1
        then insert_audit_event actor "client.revoked" "client" id at updated
        else updated in
      elim (first_where (λ i. i.id == id) audited.clients) [
        | none ↦ (ok none, db)
        | some i ↦ (ok (some i), audited)
      ]

  -- The rows that the five DELETE statements leave. The rows of quota_consumptions go with their
  -- client, by ON DELETE CASCADE.
  unfoldable pub delete_rows : String → Database Num → Database Num
  delete_rows id db = record db {
    reviews = delete_where (λ r. r.client_id == id) db.reviews;
    candidates =
        delete_where
          (λ c. exists_where (λ r. r.id == c.request_id && r.client_id == id) db.requests)
          db.candidates;
    requests = delete_where (λ r. r.client_id == id) db.requests;
    observations = delete_where (λ o. o.client_id == id) db.observations;
    consumptions = delete_where (λ c. c.client_id == id) db.consumptions;
    clients = delete_where (λ i. i.id == id) db.clients;
  }

  -- The code of DeleteClientInstallation after the name and the status were read.
  unfoldable pub delete_found :
      String
      → Text
      → String
      → ℕ
      → Option Installation
      → Exec StoreError (Database Num) (Bool × Bool)
  unfolding insert_audit_event status_beq delete_rows
  delete_found id expected_name actor now none db = (ok (false, false), db)
  delete_found id expected_name actor now (some i) db =
      if not (status_beq i.status revoked) || not (i.name == expected_name)
      then (ok (true, false), db)
      else (
        ok (true, true),
        insert_audit_event actor "client.deleted" "client" id now (delete_rows id db),
      )

  -- DeleteClientInstallation: whether the installation was found, and whether it was deleted.
  unfoldable pub delete_client_installation :
      String → Text → String → ℕ → Exec StoreError (Database Num) (Bool × Bool)
  unfolding delete_found
  delete_client_installation id expected_name actor now db =
      delete_found id expected_name actor now (first_where (λ i. i.id == id) db.clients) db

  -- FindClientInstallationByToken
  unfoldable pub find_client_installation_by_token :
      Text → String → Exec StoreError (Database Num) (Option Installation)
  unfolding has_token
  find_client_installation_by_token token_prefix token_hash db =
      (ok (first_where (has_token token_prefix token_hash) db.clients), db)

  -- TouchClientInstallation
  unfoldable pub touch_client_installation :
      (ℕ → ℕ → Bool) → String → ℕ → Exec StoreError (Database Num) Bool
  unfolding is_active_row touch_row
  touch_client_installation text_lt id last_seen_at db = (
    ok (count_where (is_active_row id) db.clients == 1),
    record db {
      clients = update_where (is_active_row id) (touch_row text_lt last_seen_at) db.clients;
    },
  )
