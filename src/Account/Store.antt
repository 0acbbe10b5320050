-- ===== src/Account/Store.antt =====
-- Accounts, their sessions and subscriptions in AccountStore:
-- internal/infra/database/account_store.go. `text_lt` is the order in which the
-- database compares two times that are stored as text.
use wildman_service.Base.{
  ℕ, String, Bool, true, false, not, ◌&&◌, ◌||◌, Option, none, some, [], ◌∷◌, ◌++◌, if◌then◌else◌,
  Exec, StoreError, first_where, exists_where, update_where, count_where, ℤ, int_eq, ◌==◌, nat_eq,
  string_eq, list_eq, Text, ok, err, constraint_violation,
}
use wildman_service.Account.{Account, Session, Subscription}
use wildman_service.Database.{Database, insert_audit_event}

module _ {Num : Type 0} where
  -- CreateAccount: the conflict on the email is the only one that is not an error.
  unfoldable pub create_account :
      Account → Subscription → Session → Exec StoreError (Database Num) Bool
  unfolding insert_audit_event
  create_account a subscription session db =
      if exists_where (λ b. b.email == a.email) db.accounts
      then (ok false, db)
      else if exists_where (λ b. b.id == a.id) db.accounts
          || exists_where (λ s. s.id == session.id || s.token_hash == session.token_hash)
              db.account_sessions
      then (err constraint_violation, db)
      else (
        ok true,
        insert_audit_event "" "account.registered" "account" a.id a.created_at (record db {
          accounts = db.accounts ++ (a ∷ []);
          subscriptions = db.subscriptions ++ (subscription ∷ []);
          account_sessions = db.account_sessions ++ (session ∷ []);
        }),
      )

  -- FindAccountByEmail
  unfoldable pub find_account_by_email : Text → Exec StoreError (Database Num) (Option Account)
  find_account_by_email email db = (ok (first_where (λ a. a.email == email) db.accounts), db)

  -- CreateAccountSession
  unfoldable pub create_account_session : Session → Exec StoreError (Database Num) (Unit {0})
  create_account_session session db =
      if not (
          exists_where (λ s. s.id == session.id || s.token_hash == session.token_hash)
            db.account_sessions)
        && exists_where (λ a. a.id == session.account_id) db.accounts
      then (ok tt, record db { account_sessions = db.account_sessions ++ (session ∷ []) })
      else (err constraint_violation, db)

  account_of : Database Num → Option Session → Option Account
  account_of db none = none
  account_of db (some s) = first_where (λ a. a.id == s.account_id) db.accounts

  -- FindAccountBySessionHash
  unfoldable pub find_account_by_session_hash :
      (ℕ → ℕ → Bool) → String → ℕ → Exec StoreError (Database Num) (Option Account)
  unfolding account_of
  find_account_by_session_hash text_lt token_hash now db = (
    ok (
        account_of db (
          first_where (λ s. s.token_hash == token_hash && text_lt now s.expires_at)
            db.account_sessions)),
    db,
  )

  -- UpdateSubscription
  unfoldable pub update_subscription :
      String → String → String → ℤ → String → ℕ → Exec StoreError (Database Num) Bool
  unfolding insert_audit_event
  update_subscription account_id plan status quota actor now db =
      if count_where (λ s. s.account_id == account_id) db.subscriptions == 0
      then (ok false, db)
      else (
        ok true,
        insert_audit_event actor "subscription.updated" "account" account_id now (record db {
          subscriptions =
              update_where (λ s. s.account_id == account_id)
                (λ s. record s {
                  plan = plan;
                  status = status;
                  monthly_quota = quota;
                  updated_at = now;
                })
                db.subscriptions;
        }),
      )
