-- ===== src/Account/Quota.antt =====
-- The monthly quota in AccountStore: internal/infra/database/account_store.go.
pub mod Bounds
pub mod Repeat
use wildman_service.Base.{
  ℕ, ◌+◌, String, Bool, true, false, not, ◌&&◌, ◌||◌, Option, none, some, List, [], ◌∷◌, ◌++◌,
  if◌then◌else◌, Exec, StoreError, first_where, exists_where, ℤ, ltb_ℤ, int_eq, ◌==◌, nat_eq,
  string_eq, list_eq, ok, err, row_missing, pos,
}
use wildman_service.Account.{Subscription}
use wildman_service.Client
use wildman_service.Database.{Database, Consumption, Usage}

pub is_usage_of : String → String → Usage → Bool
is_usage_of account_id period v = v.account_id == account_id && v.period == period

is_consumption_of : String → String → Consumption → Bool
is_consumption_of client_id idempotency_key c =
    c.client_id == client_id && c.idempotency_key == idempotency_key

-- A quota is an int64; it is compared with a count.
below_quota : ℕ → ℤ → Bool
below_quota n q = ltb_ℤ (pos n) q

add_one : Usage → Usage
add_one v = record v { resolutions = v.resolutions + 1 }

-- The upsert of monthly_usage: whether it changed a row, and the rows.
unfoldable pub count_usage : String → String → ℤ → List Usage → Bool × List Usage
unfolding is_usage_of below_quota add_one
count_usage account_id period quota [] =
    (true, record { account_id = account_id; period = period; resolutions = 1 } ∷ [])
count_usage account_id period quota (v ∷ vs) =
    let (changed, rest) = count_usage account_id period quota vs in
    if is_usage_of account_id period v
    then (if below_quota v.resolutions quota then (true, add_one v ∷ vs) else (false, v ∷ vs))
    else (changed, v ∷ rest)

-- The inserted row.
charge : String → String → String → String → ℕ → Consumption
charge client_id idempotency_key account_id period now = record {
  client_id = client_id;
  idempotency_key = idempotency_key;
  account_id = account_id;
  period = period;
  created_at = now;
}

module _ {Num : Type 0} where
  -- The code after the subscription was read. The inserted row cannot be there already: it was looked
  -- for in the same transaction.
  unfoldable pub consume_with :
      String
      → String
      → String
      → String
      → ℕ
      → Option Subscription
      → Exec StoreError (Database Num) Bool
  unfolding count_usage charge
  consume_with client_id account_id idempotency_key period now none db = (err row_missing, db)
  consume_with client_id account_id idempotency_key period now (some subscription) db =
      if not (subscription.status == "active") || not (ltb_ℤ (pos 0) subscription.monthly_quota)
      then (ok false, db)
      else let (changed, usages) =
          count_usage account_id period subscription.monthly_quota db.usages in
        if changed
        then (
          ok true,
          record db {
            consumptions =
                db.consumptions ++ (charge client_id idempotency_key account_id period now ∷ []);
            usages = usages;
          },
        )
        else (ok false, db)

  unfoldable pub consume_for :
      String
      → String
      → String
      → ℕ
      → Option Client.Installation
      → Exec StoreError (Database Num) Bool
  unfolding consume_with is_consumption_of
  consume_for client_id idempotency_key period now none db = (err row_missing, db)
  consume_for client_id idempotency_key period now (some i) db = elim i.account_id [
    | none ↦ (ok true, db)
    | some account_id ↦
        if exists_where (is_consumption_of client_id idempotency_key) db.consumptions
        then (ok true, db)
        else consume_with client_id account_id idempotency_key period now
            (first_where (λ s. s.account_id == account_id) db.subscriptions) db
  ]

  -- ConsumeResolutionQuota
  unfoldable pub consume_resolution_quota :
      String → String → String → ℕ → Exec StoreError (Database Num) Bool
  unfolding consume_for
  consume_resolution_quota client_id idempotency_key period now db =
      consume_for client_id idempotency_key period now
        (first_where (λ i. i.id == client_id) db.clients) db
