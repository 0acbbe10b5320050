-- ===== src/Operations.antt =====
-- What an operator sees of the running system, and the retention of data:
-- internal/app/operations/service.go and internal/infra/database/operations_store.go. `text_lt` is the order
-- in which the database compares two times that are stored as text; `year_before` is AddDate(-1, 0, 0).
pub mod Retention
pub mod Tests
use wildman_service.Base.{
  ℕ, ◌-◌, ◌*◌, String, Bool, false, not, ◌&&◌, Option, none, some, List, [], ◌∷◌, Exec, Faults,
  StoreError, call, take, first_where, exists_where, delete_where, count_where, int_eq, string_eq,
  nat_eq, ◌==◌, list_eq, Text, order_by, ok,
}
use wildman_service.Time.{day}
use wildman_service.Client.{Installation}
use wildman_service.Catalog.{
  ResolutionRequest, ResolutionStatus, StoredTrackObservation, SourceObservation,
}
use wildman_service.Database.{Database, CandidateRow, insert_audit_event}

-- ResolutionSummary
pub record Summary : Type 0 where
  pub id : String
  pub client_name : Text
  pub status : ResolutionStatus
  pub created_at : ℕ
  pub finished_at : Option ℕ

-- RetentionResult
pub record RetentionResult : Type 0 where
  pub resolutions : ℕ
  pub observations : ℕ
  pub source_observations : ℕ
  pub audit_events : ℕ

pub data Error : Type 0 where
  store_failed : Error

unfoldable pub finished_before : (ℕ → ℕ → Bool) → ℕ → ResolutionRequest → Bool
finished_before text_lt cutoff r = elim r.finished_at [ none ↦ false | some at ↦ text_lt at cutoff ]

-- `request_id IN (SELECT id ...)`
unfoldable pub is_old_request : (ℕ → ℕ → Bool) → ℕ → List ResolutionRequest → String → Bool
unfolding finished_before
is_old_request text_lt cutoff requests id =
    exists_where (λ r. r.id == id && finished_before text_lt cutoff r) requests

unfoldable pub is_unused_observation :
    (ℕ → ℕ → Bool) → ℕ → List ResolutionRequest → StoredTrackObservation → Bool
is_unused_observation text_lt cutoff requests o =
    text_lt o.updated_at cutoff && not (exists_where (λ r. r.observation_id == o.id) requests)

unfoldable pub expired_before : (ℕ → ℕ → Bool) → ℕ → SourceObservation → Bool
expired_before text_lt cutoff v = elim v.expires_at [ none ↦ false | some at ↦ text_lt at cutoff ]

unfoldable pub is_unused_source :
    {Num : Type 0} → (ℕ → ℕ → Bool) → ℕ → List (CandidateRow Num) → SourceObservation → Bool
unfolding expired_before
is_unused_source text_lt cutoff candidates v =
    expired_before text_lt cutoff v
    && not (exists_where (λ c. c.candidate.source_observation_id == v.id) candidates)

module _ {Num : Type 0} (text_lt : ℕ → ℕ → Bool) (year_before : ℕ → ℕ) where
  -- The deletions, in the order of the statements; each sees what the ones before it left.
  unfoldable pub purged : ℕ → Database Num → Database Num
  unfolding is_old_request is_unused_observation is_unused_source
  purged now db =
      let cutoff = now - 180 * day in
      let reviews =
        delete_where (λ v. is_old_request text_lt cutoff db.requests v.request_id) db.reviews in
      let candidates =
        delete_where (λ c. is_old_request text_lt cutoff db.requests c.request_id) db.candidates in
      let requests = delete_where (finished_before text_lt cutoff) db.requests in
      record db {
        reviews = reviews;
        candidates = candidates;
        requests = requests;
        observations = delete_where (is_unused_observation text_lt cutoff requests) db.observations;
        sources = delete_where (is_unused_source text_lt (now - 30 * day) candidates) db.sources;
        audits = delete_where (λ a. text_lt a.created_at (year_before now)) db.audits;
      }

  -- The numbers of rows that the statements affected.
  unfoldable pub purge_counts : ℕ → Database Num → RetentionResult
  unfolding purged is_unused_observation is_unused_source
  purge_counts now db =
      let cutoff = now - 180 * day in
      let after = purged now db in
      record {
        resolutions = count_where (finished_before text_lt cutoff) db.requests;
        observations =
            count_where (is_unused_observation text_lt cutoff after.requests) db.observations;
        source_observations =
            count_where (is_unused_source text_lt (now - 30 * day) after.candidates) db.sources;
        audit_events = count_where (λ a. text_lt a.created_at (year_before now)) db.audits;
      }

  -- PurgeExpiredData
  unfoldable pub purge_expired_data : String → ℕ → Exec StoreError (Database Num) RetentionResult
  unfolding purged purge_counts insert_audit_event
  purge_expired_data actor now db = (
    ok (purge_counts now db),
    insert_audit_event actor "retention.purged" "system" "retention" now (purged now db),
  )

  -- Purge
  unfoldable pub purge : Faults → String → ℕ → Exec Error (Database Num) RetentionResult
  unfolding purge_expired_data
  purge faults actor now = call (faults 0) store_failed (purge_expired_data actor now)

-- `ORDER BY created_at DESC, id DESC`: `sooner` orders the rows by the texts of created_at and id.
unfoldable pub summary_of : ResolutionRequest → Installation → Summary
summary_of r i = record {
  id = r.id;
  client_name = i.name;
  status = r.status;
  created_at = r.created_at;
  finished_at = r.finished_at;
}

abbrev joined : ResolutionRequest → Option Installation → List Summary → List Summary
unfolding summary_of
joined r none rest = rest
joined r (some i) rest = summary_of r i ∷ rest

unfoldable pub join_clients : List Installation → List ResolutionRequest → List Summary
unfolding joined
join_clients clients [] = []
join_clients clients (r ∷ rs) =
    joined r (first_where (λ i. i.id == r.client_id) clients) (join_clients clients rs)

-- ListResolutionSummaries
unfoldable pub list_resolution_summaries :
    {Num : Type 0}
    → (ResolutionRequest → ResolutionRequest → Bool)
    → ℕ
    → Exec StoreError (Database Num) (List Summary)
unfolding join_clients
list_resolution_summaries sooner limit db =
    (ok (take limit (join_clients db.clients (order_by sooner db.requests))), db)

-- Resolutions
unfoldable pub resolutions :
    {Num : Type 0}
    → (ResolutionRequest → ResolutionRequest → Bool)
    → Faults
    → Exec Error (Database Num) (List Summary)
unfolding list_resolution_summaries
resolutions sooner faults = call (faults 0) store_failed (list_resolution_summaries sooner 100)
